-- ===== src/Tools/Shipping/Stored.antt =====
-- The orders of app/tools/shipping_tools.py: what holds of an order that is written, and of one that is read.
use mathlib.Core.Path.{subst}
use ekaette.Prelude.{
  ◌≤◌, String, ◌≡◌, refl, ◌⊎◌, inl, inr, Bool, true, false, ◌||◌, Option, none, some, List, [], ◌∷◌,
  if◌then◌else◌, length,
}
use ekaette.Tools.Shipping.Records.{Order}
use ekaette.Tools.Shipping.Store.{
  Context, Place, Shipping, read_order_record, memory, document, write_order_record, MessageChannel,
  sms, whatsapp, Notice, stored, store_at, same_place, with_id,
}
use ekaette.Tools.Shipping.Review.{note_if}
use ekaette.Tools.Shipping.Notices.{stored-store_at, outbox-store_at, same_place-≡}
use ekaette.Tools.Shipping.Events.{IsNewestFirst}

-- A message of this text on a channel about the order at a place, among those that went out.
abbrev pub IsTold : MessageChannel → Place → String → List Notice → Type 0
IsTold ch j message [] = ⊥
IsTold ch j message (n ∷ ns) =
    ((n.place ≡ j) × (n.channel ≡ ch) × (n.message ≡ message)) ⊎ IsTold ch j message ns

-- At most 50 events, the newest first; a follow-up that is noted names a channel, and the message that is
-- noted went out on each channel that it names.
pub record IsSound (j : Place) (outbox : List Notice) (o : Order) : Type 0 where
  pub bounded : length o.tracking.events ≤ 50
  pub newest_first : IsNewestFirst o.tracking.events
  pub named :
      o.review_followup.requested ≡ true
      → (o.review_followup.sms_sent || o.review_followup.whatsapp_sent) ≡ true
  pub sms_told : o.review_followup.sms_sent ≡ true → IsTold sms j o.review_followup.message outbox
  pub whatsapp_told :
      o.review_followup.whatsapp_sent ≡ true → IsTold whatsapp j o.review_followup.message outbox

abbrev pub IsSoundIf : Place → List Notice → Option Order → Type 0
IsSoundIf j outbox none = Unit
IsSoundIf j outbox (some o) = IsSound j outbox o

-- Every stored order is sound.
abbrev pub AllSound : Shipping → Type 0
AllSound s = (j : Place) → IsSoundIf j s.outbox (stored j s)

-- The messages that went out before another still did.
pub IsTold-note_if :
    (ch : MessageChannel) (j : Place) (message : String) (b : Bool) (n : Notice)
    (outbox : List Notice)
    → IsTold ch j message outbox
    → IsTold ch j message (note_if b n outbox)
IsTold-note_if ch j message false n outbox h = h
IsTold-note_if ch j message true n outbox h = inr h

-- A message that goes out did.
pub note_if-IsTold :
    (b : Bool) (n : Notice) (outbox : List Notice)
    → b ≡ true
    → IsTold n.channel n.place n.message (note_if b n outbox)
note_if-IsTold false n outbox e = cc
note_if-IsTold true n outbox e = inl (refl, refl, refl)

pub note_if-IsSound :
    (j : Place) (b : Bool) (n : Notice) (outbox : List Notice) (o : Order)
    → IsSound j outbox o
    → IsSound j (note_if b n outbox) o
note_if-IsSound j b n outbox o h = record {
  bounded = h.bounded;
  newest_first = h.newest_first;
  named = h.named;
  sms_told = λ e. IsTold-note_if sms j o.review_followup.message b n outbox (h.sms_told e);
  whatsapp_told =
      λ e. IsTold-note_if whatsapp j o.review_followup.message b n outbox (h.whatsapp_told e);
}

note_if-IsSoundIf :
    (j : Place) (b : Bool) (n : Notice) (outbox : List Notice) (o : Option Order)
    → IsSoundIf j outbox o
    → IsSoundIf j (note_if b n outbox) o
note_if-IsSoundIf j b n outbox none h = tt
note_if-IsSoundIf j b n outbox (some o) h = note_if-IsSound j b n outbox o h

pub note_if-AllSound :
    (s : Shipping) (b : Bool) (n : Notice)
    → AllSound s
    → AllSound (record s { outbox = note_if b n s.outbox })
note_if-AllSound s b n all (memory id) =
    note_if-IsSoundIf (memory id) b n s.outbox (stored (memory id) s) (all (memory id))
note_if-AllSound s b n all (document path) =
    note_if-IsSoundIf (document path) b n s.outbox (stored (document path) s) (all (document path))

if-IsSoundIf :
    (b : Bool) (j : Place) (outbox : List Notice) (o : Order) (before : Option Order)
    → (b ≡ true → IsSound j outbox o)
    → IsSoundIf j outbox before
    → IsSoundIf j outbox (if b then some o else before)
if-IsSoundIf true j outbox o before h k = h refl
if-IsSoundIf false j outbox o before h k = k

stored-IsSoundIf :
    (p : Place) (o : Order) (s : Shipping)
    → IsSound p s.outbox o
    → AllSound s
    → AllSound (store_at p o s)
stored-IsSoundIf p o s h all j =
    rw (stored-store_at j p o s, outbox-store_at p o s)
      (if-IsSoundIf (same_place p j) j s.outbox o (stored j s)
        (λ e. subst (λ q. IsSound q s.outbox o) (same_place-≡ p j e) h) (all j))

renamed-IsSound :
    (j : Place) (outbox : List Notice) (id now : String) (o : Order)
    → IsSound j outbox o
    → IsSound j outbox (record o { order_id = id; updated_at = now })
renamed-IsSound j outbox id now o h = record {
  bounded = h.bounded;
  newest_first = h.newest_first;
  named = h.named;
  sms_told = h.sms_told;
  whatsapp_told = h.whatsapp_told;
}

pub write-AllSound :
    (c : Context) (p : Place) (id : String) (o : Order) (s : Shipping)
    → IsSound p s.outbox o
    → AllSound s
    → AllSound (write_order_record c p id o s)
write-AllSound c p id o s h all =
    stored-IsSoundIf p (record o { order_id = id; updated_at = c.now }) s
      (renamed-IsSound p s.outbox id c.now o h) all

with_id-IsSound :
    (p : Place) (outbox : List Notice) (id : String) (o : Order)
    → IsSound p outbox o
    → IsSound p outbox (with_id p id o)
with_id-IsSound (memory a) outbox id o h = h
with_id-IsSound (document a) outbox id o h = record {
  bounded = h.bounded;
  newest_first = h.newest_first;
  named = h.named;
  sms_told = h.sms_told;
  whatsapp_told = h.whatsapp_told;
}

pub read-IsSoundIf :
    (p : Place) (id : String) (s : Shipping)
    → AllSound s
    → IsSoundIf p s.outbox (read_order_record p id s)
read-IsSoundIf p id s all = go (stored p s) (all p)
  where
    go :
        (o : Option Order)
        → IsSoundIf p s.outbox o
        → IsSoundIf p s.outbox (elim o [ none ↦ none | some o ↦ some (with_id p id o) ])
    go none h = tt
    go (some o) h = with_id-IsSound p s.outbox id o h

pub AllSound-if :
    {A : Type 0} (b : Bool) (x y : A × Shipping)
    → (b ≡ true → AllSound x.1)
    → (b ≡ false → AllSound y.1)
    → AllSound (if b then x else y).1
AllSound-if true x y h k = h refl
AllSound-if false x y h k = k refl
