-- ===== src/At/CampaignAnalytics.antt =====
-- app/api/v1/at/campaign_analytics.py: the campaigns, the log of events, the seen event ids and the
-- last campaign of each recipient. A call is given the time and the ids that it would draw at random.
-- Of an event's texts the message, the reference and the metadata are left out, and of a provider's
-- answer the statuses by recipient are the argument.
pub mod Operations
pub mod Scope
pub mod Once
pub mod Directory
pub mod Phones
mod Tests
use Prim.Native.Char.{code}
use ekaette.Prelude.{
  ℕ, ◌+◌, ◌-◌, String, Bool, true, false, ◌&&◌, ◌||◌, not, Option, none, some, List, [], ◌∷◌, ◌++◌,
  str_eq, ltb, leb, ◌==◌, if◌then◌else◌, length, take, drop, strip,
}
use ekaette.Prelude.Int.{ℤ, pos}
use ekaette.Dict.{Dict, lookup, insert, erase_all}
use ekaette.Tools.Answers.{lowers_to}

pub data Channel : Type 0 where
  sms : Channel
  voice : Channel
  omni : Channel

unfoldable pub normalize_channel : String → Channel
unfolding lowers_to
normalize_channel channel =
    if lowers_to (strip channel) "sms"
    then sms
    else if lowers_to (strip channel) "voice"
    then voice
    else omni

-- `_normalize_recipient`: the digits and plus signs of a text
unfoldable pub normalize_recipient : String → String
normalize_recipient String.[] = String.[]
normalize_recipient (String.◌∷◌ c s) =
    let rest = normalize_recipient s in
    let n = code c in if (leb b'0' n && leb n b'9') || n == b'+' then String.◌∷◌ c rest else rest

pub record CampaignState : Type 0 where
  pub campaign_id : String
  pub channel : Channel
  pub tenant_id : String
  pub company_id : String
  pub campaign_name : String
  pub message : String
  pub created_at : ℕ
  pub updated_at : ℕ
  pub recipients : List String
  pub sent_total : ℕ
  pub delivered_total : ℕ
  pub failed_total : ℕ
  pub replies_total : ℕ
  pub conversions_total : ℕ
  pub revenue_kobo : ℕ
  pub payments_initialized_total : ℕ
  pub payments_success_total : ℕ

pub data EventKind : Type 0 where
  sent : EventKind
  delivered : EventKind
  failed : EventKind
  reply : EventKind
  payment_initialized : EventKind
  converted : EventKind
  unknown : EventKind

pub record Event : Type 0 where
  pub timestamp : ℕ
  pub kind : EventKind
  pub tenant_id : String
  pub company_id : String
  pub campaign_id : String

-- The last campaign of a recipient within a tenant and a company.
pub record Contact : Type 0 where
  pub tenant_id : String
  pub company_id : String
  pub recipient : String
  pub campaign_id : String

pub record Analytics : Type 0 where
  pub campaigns : Dict CampaignState
  pub events : List Event
  pub seen_event_ids : Dict ℕ
  pub contacts : List Contact

abbrev pub or_default : String → String → String
or_default default s = if str_eq s "" then default else s

abbrev pub or_empty : Option String → String
or_empty none = ""
or_empty (some s) = s

-- Who calls, and what for: the arguments that `_ensure_campaign` gets.
pub record Caller : Type 0 where
  pub channel : String
  pub tenant_id : String
  pub company_id : String
  pub message : String
  pub campaign_id : Option String
  pub campaign_name : Option String
  -- the ids that a call of `_build_campaign_id` gives, first and second
  pub first_id : String
  pub second_id : String
  pub now : ℕ

abbrev pub tenant_of : Caller → String
tenant_of a = or_default "public" (strip a.tenant_id)

abbrev pub company_of : Caller → String
company_of a = or_default "ekaette-electronics" (strip a.company_id)

abbrev pub default_name : Channel → String
default_name sms = "SMS Campaign"
default_name voice = "VOICE Campaign"
default_name omni = "OMNI Campaign"

abbrev pub new_campaign : Caller → String → CampaignState
new_campaign a id = record {
  campaign_id = id;
  channel = normalize_channel a.channel;
  tenant_id = tenant_of a;
  company_id = company_of a;
  campaign_name =
      or_default (default_name (normalize_channel a.channel)) (strip (or_empty a.campaign_name));
  message = a.message;
  created_at = a.now;
  updated_at = a.now;
  recipients = [];
  sent_total = 0;
  delivered_total = 0;
  failed_total = 0;
  replies_total = 0;
  conversions_total = 0;
  revenue_kobo = 0;
  payments_initialized_total = 0;
  payments_success_total = 0;
}

abbrev pub touch : Caller → CampaignState → CampaignState
touch a c = record c {
  updated_at = a.now;
  message = if not (str_eq a.message "") && str_eq c.message "" then a.message else c.message;
  campaign_name = or_default c.campaign_name (strip (or_empty a.campaign_name));
}

abbrev pub in_scope : Caller → CampaignState → Bool
in_scope a c = str_eq c.tenant_id (tenant_of a) && str_eq c.company_id (company_of a)

-- the id that is asked for, or a new one
abbrev pub resolved_id : Caller → String
resolved_id a = or_default a.first_id (strip (or_empty a.campaign_id))

unfoldable pub ensure_at :
    Caller → String → Option CampaignState → Dict CampaignState → String × Dict CampaignState
ensure_at a id none campaigns = (id, insert id (new_campaign a id) campaigns)
ensure_at a id (some existing) campaigns =
    if in_scope a existing
    then (id, insert id (touch a existing) campaigns)
    else (a.second_id, insert a.second_id (new_campaign a a.second_id) campaigns)

-- `_ensure_campaign`: the campaign's id, and the campaigns
unfoldable pub ensure_campaign : Caller → Dict CampaignState → String × Dict CampaignState
unfolding ensure_at
ensure_campaign a campaigns =
    ensure_at a (resolved_id a) (lookup (resolved_id a) campaigns) campaigns

-- a change of the campaign that was ensured
unfoldable pub modify :
    String → (CampaignState → CampaignState) → Dict CampaignState → Dict CampaignState
modify id change campaigns = elim (lookup id campaigns) [
  | none ↦ campaigns
  | some c ↦ insert id (change c) campaigns
]

-- `_append_event`
unfoldable pub append_event : Event → List Event → List Event
append_event event events =
    let longer = events ++ event ∷ [] in
    if ltb 10000 (length longer) then drop 5000 longer else longer

abbrev pub is_contact : Contact → Contact → Bool
is_contact c d =
    str_eq c.tenant_id d.tenant_id
    && str_eq c.company_id d.company_id
    && str_eq c.recipient d.recipient

unfoldable pub set_contact : Contact → List Contact → List Contact
set_contact c [] = c ∷ []
set_contact c (d ∷ ds) = if is_contact c d then c ∷ ds else d ∷ set_contact c ds

-- `_update_recipient_index`
unfoldable pub update_recipient_index :
    String → String → List String → String → List Contact → List Contact
unfolding set_contact normalize_recipient
update_recipient_index tenant company [] id contacts = contacts
update_recipient_index tenant company (r ∷ recipients) id contacts =
    update_recipient_index tenant company recipients id (
      if str_eq (normalize_recipient r) ""
      then contacts
      else set_contact
          (record {
            tenant_id = tenant;
            company_id = company;
            recipient = normalize_recipient r;
            campaign_id = id;
          })
          contacts)

-- `sorted` by the time, which keeps the order of equal times
unfoldable pub insert_by_time : String × ℕ → List (String × ℕ) → List (String × ℕ)
insert_by_time (id, t) [] = (id, t) ∷ []
insert_by_time (id, t) ((i, u) ∷ items) =
    if leb t u then (id, t) ∷ (i, u) ∷ items else (i, u) ∷ insert_by_time (id, t) items

unfoldable pub sort_by_time : List (String × ℕ) → List (String × ℕ)
unfolding insert_by_time
sort_by_time [] = []
sort_by_time (item ∷ items) = insert_by_time item (sort_by_time items)

abbrev pub ids_of : List (String × ℕ) → List String
ids_of [] = []
ids_of ((i, t) ∷ items) = i ∷ ids_of items

-- the eviction of the oldest ids, at more than 10000
unfoldable pub evict_seen : Dict ℕ → Dict ℕ
unfolding sort_by_time
evict_seen seen =
    if ltb 10000 (length seen)
    then erase_all (ids_of (take (length seen - 5000) (sort_by_time seen))) seen
    else seen

unfoldable pub note_event_id : String → ℕ → Option ℕ → Dict ℕ → Bool × Dict ℕ
unfolding evict_seen
note_event_id id now none seen = (false, evict_seen (insert id now seen))
note_event_id id now (some t) seen = (true, seen)

-- `_event_deduped`
unfoldable pub event_deduped : Option String → ℕ → Dict ℕ → Bool × Dict ℕ
unfolding note_event_id
event_deduped event_id now seen =
    let id = or_empty event_id in
    if str_eq id "" then (false, seen) else note_event_id id now (lookup id seen) seen

unfoldable pub classify : String → EventKind
unfolding lowers_to
classify event_type =
    let is = lowers_to (strip event_type) in
    if is "sent"
    then sent
    else if is "delivered"
    then delivered
    else if is "failed"
    then failed
    else if is "reply"
    then reply
    else if is "payment_initialized"
    then payment_initialized
    else if is "payment_success" || is "conversion"
    then converted
    else unknown

abbrev pub positive : Option ℤ → ℕ
positive (some (pos n)) = n
positive _ = 0

-- the counters of `record_event`
abbrev pub count_event : EventKind → Option ℤ → CampaignState → CampaignState
count_event sent amount c = record c { sent_total = c.sent_total + 1 }
count_event delivered amount c = record c { delivered_total = c.delivered_total + 1 }
count_event failed amount c = record c { failed_total = c.failed_total + 1 }
count_event reply amount c = record c { replies_total = c.replies_total + 1 }
count_event payment_initialized amount c = record c {
  payments_initialized_total = c.payments_initialized_total + 1;
}
count_event converted amount c = record c {
  conversions_total = c.conversions_total + 1;
  payments_success_total = c.payments_success_total + 1;
  revenue_kobo = c.revenue_kobo + positive amount;
}
count_event unknown amount c = c
