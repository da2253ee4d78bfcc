-- ===== src/At/CampaignAnalytics/Scope.antt =====
-- Calls of app/api/v1/at/campaign_analytics.py leave the campaigns of other tenants and companies alone.
use ekaette.Prelude.{
  ◌+◌, String, ◌≡◌, refl, ap, ◌≢◌, inl, inr, true, false, ◌||◌, Option, none, some, List, [], ◌∷◌,
  arith, str_eq, eq_iff, eq_refl, Bool-cases,
}
use ekaette.Prelude.Int.{ℤ}
use ekaette.Dict.{Dict, lookup, lookup-insert}
use ekaette.At.CampaignAnalytics.{
  sent, reply, normalize_recipient, classify, count_event, or_empty, tenant_of, company_of,
  CampaignState, Analytics, EventKind, Caller, in_scope, resolved_id, new_campaign, touch,
  ensure_at, ensure_campaign, modify, event_deduped,
}
use ekaette.At.CampaignAnalytics.Operations.{
  reachable, count_statuses, count_outbound, reply_campaign, record_change,
  record_outbound_campaign, record_inbound_reply, record_event,
}

new_campaign-in_scope : (a : Caller) (id : String) → in_scope a (new_campaign a id) ≡ true
new_campaign-in_scope a id = ground (arith, eq_refl (tenant_of a), eq_refl (company_of a))

ensure_at-keeps :
    (a : Caller) (id j : String) (o : Option CampaignState) (campaigns : Dict CampaignState)
    (c : CampaignState)
    → lookup id campaigns ≡ o
    → lookup j campaigns ≡ some c
    → in_scope a c ≡ false
    → lookup a.second_id campaigns ≡ none
    → lookup j (ensure_at a id o campaigns).1 ≡ some c
unfolding ensure_at
ensure_at-keeps a id j none campaigns c e there other unused =
    ground (arith, lookup-insert id j (new_campaign a id) campaigns, eq_iff id j)
ensure_at-keeps a id j (some existing) campaigns c e there other unused =
    elim (Bool-cases (in_scope a existing)) [
      | inl own ↦
          rw own (ground (arith, lookup-insert id j (touch a existing) campaigns, eq_iff id j))
      | inr foreign ↦ rw foreign (
          ground (
            arith,
            lookup-insert a.second_id j (new_campaign a a.second_id) campaigns,
            eq_iff a.second_id j,
          ))
    ]

ensure_at-in_scope :
    (a : Caller) (id : String) (o : Option CampaignState) (campaigns : Dict CampaignState)
    → (c : CampaignState) × (lookup (ensure_at a id o campaigns).0 (ensure_at a id o campaigns).1
        ≡ some c)
      × (in_scope a c ≡ true)
unfolding ensure_at
ensure_at-in_scope a id none campaigns = (
  new_campaign a id,
  ground (arith, lookup-insert id id (new_campaign a id) campaigns, eq_refl id),
  new_campaign-in_scope a id,
)
ensure_at-in_scope a id (some existing) campaigns = elim (Bool-cases (in_scope a existing)) [
  | inl own ↦ rw own (
    touch a existing,
    ground (arith, lookup-insert id id (touch a existing) campaigns, eq_refl id),
    own,
  )
  | inr foreign ↦ rw foreign (
    new_campaign a a.second_id,
    ground (
      arith,
      lookup-insert a.second_id a.second_id (new_campaign a a.second_id) campaigns,
      eq_refl a.second_id,
    ),
    new_campaign-in_scope a a.second_id,
  )
]

modify-keeps :
    (id j : String) (change : CampaignState → CampaignState) (campaigns : Dict CampaignState)
    (c own : CampaignState)
    → lookup id campaigns ≡ some own
    → lookup j campaigns ≡ some c
    → own ≢ c
    → lookup j (modify id change campaigns) ≡ some c
unfolding modify
modify-keeps id j change campaigns c own at_id there differ =
    rw (modify, at_id) (ground (arith, lookup-insert id j (change own) campaigns, eq_iff id j))

in_scope_differs :
    (a : Caller) (own c : CampaignState) → in_scope a own ≡ true → in_scope a c ≡ false → own ≢ c
in_scope_differs a own c mine other same = let e = ap (in_scope a) same in cc (mine, other, e)

-- A campaign of another tenant or company, and a second id that is not in use.
pub record IsForeign (a : Caller) (j : String) (c : CampaignState) (s : Analytics) : Type 0 where
  pub there : lookup j s.campaigns ≡ some c
  pub other : in_scope a c ≡ false
  pub unused : lookup a.second_id s.campaigns ≡ none

record_change-keeps :
    (a : Caller) (kind : EventKind) (recipients : List String)
    (change : CampaignState → CampaignState) (s : Analytics) (j : String) (c : CampaignState)
    → IsForeign a j c s
    → lookup j (record_change a kind recipients change s).1.campaigns ≡ some c
unfolding record_change ensure_campaign
record_change-keeps a kind recipients change s j c f =
    let id = resolved_id a in
    let found = lookup id s.campaigns in
    let (own, at_id, mine) = ensure_at-in_scope a id found s.campaigns in
    modify-keeps (ensure_campaign a s.campaigns).0 j change (ensure_campaign a s.campaigns).1 c own
      at_id (ensure_at-keeps a id j found s.campaigns c refl f.there f.other f.unused)
      (λ same. in_scope_differs a own c mine f.other same)

outbound-keeps :
    (a : Caller) (j : String) (c : CampaignState) (s : Analytics) (recipients : List String)
    (statuses : Dict String)
    → IsForeign a j c s
    → lookup j (record_outbound_campaign a recipients statuses s).1.campaigns ≡ some c
unfolding record_outbound_campaign
outbound-keeps a j c s recipients statuses f =
    let numbers = reachable recipients in
    let counts = count_statuses statuses numbers 0 0 in
    record_change-keeps a sent numbers (count_outbound a numbers counts.0 counts.1) s j c f

reply-keeps :
    (a : Caller) (j : String) (c : CampaignState) (s : Analytics) (recipient : String)
    → IsForeign a j c s
    → lookup j (record_inbound_reply a recipient s).1.campaigns ≡ some c
unfolding record_inbound_reply
reply-keeps a j c s recipient f =
    let number = normalize_recipient recipient in
    let id = reply_campaign a number s in
    elim (Bool-cases (str_eq number "" || str_eq id "")) [
      | inl unknown ↦ rw unknown f.there
      | inr known ↦ rw known (
          record_change-keeps
            (record a { message = ""; campaign_id = some id; campaign_name = none }) reply []
            (λ d. record d { updated_at = a.now; replies_total = d.replies_total + 1 }) s j c
            (record { there = f.there; other = f.other; unused = f.unused }))
    ]

event-keeps :
    (a : Caller) (j : String) (c : CampaignState) (s : Analytics) (event_type : String)
    (recipient : Option String) (amount : Option ℤ) (id : Option String)
    → IsForeign a j c s
    → lookup j (record_event event_type recipient amount id a s).1.campaigns ≡ some c
unfolding record_event
event-keeps a j c s event_type recipient amount id f =
    let noted = event_deduped id a.now s.seen_event_ids in
    elim (Bool-cases noted.0) [
      | inl duplicate ↦ rw duplicate f.there
      | inr fresh ↦ rw fresh (
          record_change-keeps (record a { message = "" }) (classify event_type)
            (or_empty recipient ∷ [])
            (λ d. record (count_event (classify event_type) amount d) { updated_at = a.now })
            (record s { seen_event_ids = noted.1 }) j c
            (record { there = f.there; other = f.other; unused = f.unused }))
    ]

-- Whatever campaign id a call names, and whatever it records, a campaign of another tenant or company
-- stays as it is, if the id that would be drawn in its place is not in use: under an outbound
-- campaign, a reply and an event.
pub foreign_campaign_kept :
    (a : Caller) (j : String) (c : CampaignState) (s : Analytics) (recipients : List String)
    (statuses : Dict String) (event_type : String) (recipient : String) (amount : Option ℤ)
    (id : Option String)
    → IsForeign a j c s
    → (lookup j (record_outbound_campaign a recipients statuses s).1.campaigns ≡ some c)
      × (lookup j (record_inbound_reply a recipient s).1.campaigns ≡ some c)
      × (lookup j (record_event event_type (some recipient) amount id a s).1.campaigns ≡ some c)
foreign_campaign_kept a j c s recipients statuses event_type recipient amount id f = (
  outbound-keeps a j c s recipients statuses f,
  reply-keeps a j c s recipient f,
  event-keeps a j c s event_type (some recipient) amount id f,
)
