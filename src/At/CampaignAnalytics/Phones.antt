-- ===== src/At/CampaignAnalytics/Phones.antt =====
-- Which phones list_known_contacts of app/api/v1/at/campaign_analytics.py gives.
use ekaette.Prelude.{
  String, ◌≡◌, refl, sym, ◌∙◌, inl, inr, Bool, true, false, ◌&&◌, ◌||◌, Option, none, some, List,
  [], ◌∷◌, arith, str_eq, eq_iff, Bool-cases,
}
use ekaette.Dict.{Dict, lookup, insert, lookup-insert}
use ekaette.At.CampaignAnalytics.{CampaignState, Contact, Analytics}
use ekaette.At.CampaignAnalytics.Directory.{
  KnownContact, known_contact, add_indexed, index_contacts, add_recipient, add_recipients, is_of,
  campaign_contacts, insert_by_phone, sorted_values, list_known_contacts,
}

-- A phone is in a listing, in an index, among recipients.
abbrev pub is_listed : String → List KnownContact → Bool
is_listed phone [] = false
is_listed phone (k ∷ ks) = str_eq k.phone phone || is_listed phone ks

abbrev pub is_some {ℓ} : {A : Type ℓ} → Option A → Bool
is_some none = false
is_some (some x) = true

abbrev pub is_indexed : String → String → String → Dict CampaignState → List Contact → Bool
is_indexed tenant company phone campaigns [] = false
is_indexed tenant company phone campaigns (d ∷ ds) =
    (is_some (lookup d.campaign_id campaigns)
      && (str_eq d.tenant_id tenant && str_eq d.company_id company)
      && str_eq d.recipient phone)
    || is_indexed tenant company phone campaigns ds

abbrev pub is_among : String → List String → Bool
is_among phone [] = false
is_among phone (p ∷ ps) = str_eq p phone || is_among phone ps

abbrev pub is_recipient : String → String → String → Dict CampaignState → Bool
is_recipient tenant company phone [] = false
is_recipient tenant company phone ((id, state) ∷ campaigns) =
    (is_of tenant company state && is_among phone state.recipients)
    || is_recipient tenant company phone campaigns

-- Each contact stands under its phone.
IsKeyed : Dict KnownContact → Type 0
IsKeyed [] = Unit
IsKeyed ((p, k) ∷ found) = (k.phone ≡ p) × IsKeyed found

insert-IsKeyed :
    (p : String) (k : KnownContact) (found : Dict KnownContact)
    → k.phone ≡ p
    → IsKeyed found
    → IsKeyed (insert p k found)
unfolding insert IsKeyed
insert-IsKeyed p k [] e h = (e, tt)
insert-IsKeyed p k ((q, l) ∷ found) e h = ground (arith, insert-IsKeyed p k found e h.1, eq_iff q p)

is_listed-insert_by_phone :
    (p : String) (k : KnownContact) (ks : List KnownContact)
    → is_listed p (insert_by_phone k ks) ≡ (str_eq k.phone p || is_listed p ks)
unfolding insert_by_phone
is_listed-insert_by_phone p k [] = refl
is_listed-insert_by_phone p k (l ∷ ls) = ground (arith, is_listed-insert_by_phone p k ls)

is_listed-sorted_values :
    (p : String) (found : Dict KnownContact)
    → IsKeyed found
    → is_listed p (sorted_values found) ≡ is_some (lookup p found)
unfolding sorted_values lookup IsKeyed
is_listed-sorted_values p [] h = refl
is_listed-sorted_values p ((q, k) ∷ found) h =
    rw
      (
        is_listed-insert_by_phone p k (sorted_values found),
        is_listed-sorted_values p found h.1,
        h.0,
      )
      (ground arith)

-- What a step keeps: the phones stand under themselves, and the phone `p` is there as `b` says.
abbrev Holds : String → Bool → Dict KnownContact → Type 0
Holds p b found = IsKeyed found × (is_some (lookup p found) ≡ b)

add_indexed-Holds :
    (t c p : String) (d : Contact) (o : Option CampaignState) (found : Dict KnownContact) (b : Bool)
    → Holds p b found
    → Holds p
        ((is_some o && (str_eq d.tenant_id t && str_eq d.company_id c) && str_eq d.recipient p)
          || b)
        (add_indexed t c d o found)
unfolding add_indexed
add_indexed-Holds t c p d none found b h = h
add_indexed-Holds t c p d (some state) found b h =
    let k = known_contact d.recipient d.campaign_id state in
    ground (arith, insert-IsKeyed d.recipient k found refl h.0, lookup-insert d.recipient p k found)

or_moves : (a b c : Bool) → (b || (a || c)) ≡ ((a || b) || c)
or_moves true true c = refl
or_moves true false c = refl
or_moves false b c = refl

index_contacts-Holds :
    (t c p : String) (campaigns : Dict CampaignState) (ds : List Contact)
    (found : Dict KnownContact) (b : Bool)
    → Holds p b found
    → Holds p (is_indexed t c p campaigns ds || b) (index_contacts t c campaigns ds found)
unfolding index_contacts
index_contacts-Holds t c p campaigns [] found b h = h
index_contacts-Holds t c p campaigns (d ∷ ds) found b h =
    rw
      (sym (
        or_moves
          (is_some (lookup d.campaign_id campaigns)
            && (str_eq d.tenant_id t && str_eq d.company_id c)
            && str_eq d.recipient p)
          (is_indexed t c p campaigns ds) b))
      (index_contacts-Holds t c p campaigns ds _ _
        (add_indexed-Holds t c p d (lookup d.campaign_id campaigns) found b h))

add_recipient-Holds :
    (state : CampaignState) (p q : String) (o : Option KnownContact) (found : Dict KnownContact)
    (b : Bool)
    → lookup q found ≡ o
    → Holds p b found
    → Holds p (str_eq q p || b) (add_recipient state q o found)
unfolding add_recipient
add_recipient-Holds state p q none found b e h =
    let k = known_contact q state.campaign_id state in
    ground (arith, insert-IsKeyed q k found refl h.0, lookup-insert q p k found)
add_recipient-Holds state p q (some known) found b e h = ground (arith, eq_iff q p)

add_recipients-Holds :
    (state : CampaignState) (p : String) (qs : List String) (found : Dict KnownContact) (b : Bool)
    → Holds p b found
    → Holds p (is_among p qs || b) (add_recipients state qs found)
unfolding add_recipients
add_recipients-Holds state p [] found b h = h
add_recipients-Holds state p (q ∷ qs) found b h =
    rw (sym (or_moves (str_eq q p) (is_among p qs) b)) (
      add_recipients-Holds state p qs _ _
        (add_recipient-Holds state p q (lookup q found) found b refl h))

campaign_contacts-Holds :
    (t c p : String) (campaigns : Dict CampaignState) (found : Dict KnownContact) (b : Bool)
    → Holds p b found
    → Holds p (is_recipient t c p campaigns || b) (campaign_contacts t c campaigns found)
unfolding campaign_contacts
campaign_contacts-Holds t c p [] found b h = h
campaign_contacts-Holds t c p ((id, state) ∷ campaigns) found b h =
    rw
      (sym (
        or_moves (is_of t c state && is_among p state.recipients) (is_recipient t c p campaigns) b))
      (campaign_contacts-Holds t c p campaigns _ _ (elim (Bool-cases (is_of t c state)) [
        | inl mine ↦ rw mine (add_recipients-Holds state p state.recipients found b h)
        | inr other ↦ rw other h
      ]))

-- A phone is listed for a tenant and a company exactly when a campaign of theirs has it as a
-- recipient, or their index gives it a last campaign that is in the table.
pub known_phones :
    (tenant company phone : String) (s : Analytics)
    → is_listed phone (list_known_contacts tenant company s) ≡ (
        is_recipient tenant company phone s.campaigns
        || is_indexed tenant company phone s.campaigns s.contacts)
unfolding list_known_contacts IsKeyed lookup
known_phones t c p s =
    let indexed = index_contacts-Holds t c p s.campaigns s.contacts [] false (tt, refl) in
    let all = campaign_contacts-Holds t c p s.campaigns _ _ indexed in
    is_listed-sorted_values p _ all.0 ∙ all.1 ∙ ground arith
