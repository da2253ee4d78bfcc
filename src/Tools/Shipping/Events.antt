-- ===== src/Tools/Shipping/Events.antt =====
-- The events of app/tools/shipping_tools.py: how they are sorted and cut.

use ekaette.Prelude.{
  ℕ, zero, suc, ◌≤◌, String, ◌≡◌, refl, inl, inr, true, false, List, [], ◌∷◌, arith, Bool-cases,
  length, take,
}
use ekaette.At.CampaignAnalytics.Directory.{text_le}
use ekaette.Tools.Shipping.Records.{TrackingEvent}
use ekaette.Tools.Shipping.Update.{insert_newest, sort_newest}

-- Nothing stands before a later event.
abbrev IsBefore : TrackingEvent → List TrackingEvent → Type 0
IsBefore e [] = Unit
IsBefore e (f ∷ fs) = text_le f.timestamp e.timestamp ≡ true

abbrev pub IsNewestFirst : List TrackingEvent → Type 0
IsNewestFirst [] = Unit
IsNewestFirst (e ∷ es) = IsBefore e es × IsNewestFirst es

text_le-total : (s t : String) → text_le s t ≡ false → text_le t s ≡ true
unfolding text_le
text_le-total String.[] t h = ground arith
text_le-total (String.◌∷◌ c s) String.[] h = refl
text_le-total (String.◌∷◌ c s) (String.◌∷◌ d t) h = ground (arith, text_le-total s t)

insert_newest-IsBefore :
    (e f : TrackingEvent) (fs : List TrackingEvent)
    → text_le f.timestamp e.timestamp ≡ false
    → IsBefore f fs
    → IsBefore f (insert_newest e fs)
unfolding insert_newest
insert_newest-IsBefore e f [] h k = text_le-total f.timestamp e.timestamp h
insert_newest-IsBefore e f (g ∷ gs) h k = ground (arith, text_le-total f.timestamp e.timestamp h)

insert_newest-IsNewestFirst :
    (e : TrackingEvent) (fs : List TrackingEvent)
    → IsNewestFirst fs
    → IsNewestFirst (insert_newest e fs)
unfolding insert_newest
insert_newest-IsNewestFirst e [] h = (tt, tt)
insert_newest-IsNewestFirst e (f ∷ fs) (k, h) =
    elim (Bool-cases (text_le f.timestamp e.timestamp)) [
      | inl later ↦ rw later (later, (k, h))
      | inr earlier ↦
          rw earlier (insert_newest-IsBefore e f fs earlier k, insert_newest-IsNewestFirst e fs h)
    ]

pub sort_newest-IsNewestFirst : (es : List TrackingEvent) → IsNewestFirst (sort_newest es)
unfolding sort_newest
sort_newest-IsNewestFirst [] = tt
sort_newest-IsNewestFirst (e ∷ es) =
    insert_newest-IsNewestFirst e (sort_newest es) (sort_newest-IsNewestFirst es)

take-IsBefore :
    (n : ℕ) (e : TrackingEvent) (es : List TrackingEvent) → IsBefore e es → IsBefore e (take n es)
take-IsBefore zero e es h = tt
take-IsBefore (suc n) e [] h = tt
take-IsBefore (suc n) e (f ∷ fs) h = h

pub take-IsNewestFirst :
    (n : ℕ) (es : List TrackingEvent) → IsNewestFirst es → IsNewestFirst (take n es)
take-IsNewestFirst zero es h = tt
take-IsNewestFirst (suc n) [] h = tt
take-IsNewestFirst (suc n) (e ∷ es) (k, h) = (take-IsBefore n e es k, take-IsNewestFirst n es h)

pub length-take_le : (n : ℕ) (es : List TrackingEvent) → length (take n es) ≤ n
length-take_le zero es = omega arith
length-take_le (suc n) [] = omega arith
length-take_le (suc n) (e ∷ es) = omega (arith, length-take_le n es)
