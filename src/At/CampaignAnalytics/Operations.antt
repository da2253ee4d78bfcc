-- ===== src/At/CampaignAnalytics/Operations.antt =====
-- app/api/v1/at/campaign_analytics.py: `record_outbound_campaign`, `record_inbound_reply` and
-- `record_event`.
use Prim.Native.Char.{code}
use ekaette.Prelude.{
  ℕ, ◌+◌, String, Bool, true, false, ◌&&◌, ◌||◌, not, Option, none, some, List, [], ◌∷◌, ◌++◌,
  str_eq, ◌==◌, if◌then◌else◌, length, strip,
}
use ekaette.Prelude.Int.{ℤ}
use ekaette.Dict.{Dict, key_in, lookup}
use ekaette.At.CampaignAnalytics.{
  CampaignState, Analytics, EventKind, sent, reply, Contact, Caller, tenant_of, company_of,
  or_empty, or_default, normalize_recipient, ensure_campaign, modify, append_event,
  update_recipient_index, event_deduped, classify, count_event,
}
use ekaette.Tools.Answers.{lower_code}

-- `str.lower` of a character, where the hints below are concerned: the Kelvin sign becomes a k.
abbrev pub lower_hint : ℕ → ℕ
lower_hint c = if c == 8490 then 107 else lower_code c

unfoldable pub begins_with : String → String → Bool
begins_with String.[] s = true
begins_with (String.◌∷◌ c hint) String.[] = false
begins_with (String.◌∷◌ c hint) (String.◌∷◌ d s) =
    code c == lower_hint (code d) && begins_with hint s

-- `hint in status.lower()`
unfoldable pub contains : String → String → Bool
unfolding begins_with
contains hint String.[] = begins_with hint String.[]
contains hint (String.◌∷◌ c s) = begins_with hint (String.◌∷◌ c s) || contains hint s

unfoldable pub has_hint : List String → String → Bool
unfolding contains
has_hint [] status = false
has_hint (hint ∷ hints) status = contains hint status || has_hint hints status

abbrev pub success_hints : List String
success_hints = "success" ∷ "queued" ∷ "sent" ∷ "accepted" ∷ "processing" ∷ "active" ∷ []

abbrev pub failure_hints : List String
failure_hints = "failed" ∷ "error" ∷ "invalid" ∷ "rejected" ∷ "blocked" ∷ []

-- The recipients that are left of a list, in their normal form.
unfoldable pub reachable : List String → List String
unfolding normalize_recipient
reachable [] = []
reachable (r ∷ recipients) =
    let rest = reachable recipients in
    if str_eq (normalize_recipient r) "" then rest else normalize_recipient r ∷ rest

abbrev pub status_or_success : Option String → String
status_or_success none = "success"
status_or_success (some status) = status

-- The loop over the recipients, with the delivered and the failed so far.
unfoldable pub count_statuses : Dict String → List String → ℕ → ℕ → ℕ × ℕ
unfolding has_hint
count_statuses status_map [] done_ok done_failed = (done_ok, done_failed)
count_statuses status_map (r ∷ recipients) done_ok done_failed =
    let status = strip (status_or_success (lookup r status_map)) in
    let bad = has_hint failure_hints status in
    let good =
      has_hint success_hints status || str_eq (status_or_success (lookup r status_map)) "" in
    count_statuses status_map recipients (if not bad && good then done_ok + 1 else done_ok)
      (if bad then done_failed + 1 else done_failed)

-- `recipients.add(r)`
unfoldable pub add_all : List String → List String → List String
add_all [] known = known
add_all (r ∷ rs) known = add_all rs (if key_in r known then known else known ++ r ∷ [])

abbrev pub count_outbound : Caller → List String → ℕ → ℕ → CampaignState → CampaignState
count_outbound a recipients ok bad c = record c {
  updated_at = a.now;
  sent_total = c.sent_total + length recipients;
  delivered_total = c.delivered_total + ok;
  failed_total = c.failed_total + bad;
  recipients = add_all recipients c.recipients;
}

-- The campaigns, contacts and events after a change of the ensured campaign.
unfoldable pub record_change :
    Caller
    → EventKind
    → List String
    → (CampaignState → CampaignState)
    → Analytics
    → String × Analytics
unfolding ensure_campaign modify append_event update_recipient_index
record_change a kind recipients change s =
    let (id, campaigns) = ensure_campaign a s.campaigns in
    (
      id,
      record s {
        campaigns = modify id change campaigns;
        contacts = update_recipient_index (tenant_of a) (company_of a) recipients id s.contacts;
        events =
            append_event
              (record {
                timestamp = a.now;
                kind = kind;
                tenant_id = tenant_of a;
                company_id = company_of a;
                campaign_id = id;
              })
              s.events;
      },
    )

unfoldable pub record_outbound_campaign :
    Caller → List String → Dict String → Analytics → String × Analytics
unfolding record_change reachable count_statuses add_all
record_outbound_campaign a recipients status_map s =
    let numbers = reachable recipients in
    let (ok, bad) = count_statuses status_map numbers 0 0 in
    record_change a sent numbers (count_outbound a numbers ok bad) s

unfoldable pub last_campaign : String → String → String → List Contact → String
last_campaign tenant company recipient [] = ""
last_campaign tenant company recipient (c ∷ contacts) =
    if str_eq c.tenant_id tenant && str_eq c.company_id company && str_eq c.recipient recipient
    then c.campaign_id
    else last_campaign tenant company recipient contacts

-- the campaign that a reply is for
unfoldable pub reply_campaign : Caller → String → Analytics → String
unfolding last_campaign
reply_campaign a recipient s =
    or_default (last_campaign a.tenant_id a.company_id recipient s.contacts)
      (strip (or_empty a.campaign_id))

unfoldable pub record_inbound_reply : Caller → String → Analytics → Option String × Analytics
unfolding record_change reply_campaign normalize_recipient
record_inbound_reply a recipient s =
    let number = normalize_recipient recipient in
    let id = reply_campaign a number s in
    if str_eq number "" || str_eq id ""
    then (none, s)
    else let (id', s') =
        record_change (record a { message = ""; campaign_id = some id; campaign_name = none }) reply
          [] (λ c. record c { updated_at = a.now; replies_total = c.replies_total + 1 }) s in
      (some id', s')

unfoldable pub record_event :
    String → Option String → Option ℤ → Option String → Caller → Analytics → String × Analytics
unfolding record_change event_deduped classify
record_event event_type recipient amount_kobo event_id a s =
    let (duplicate, seen) = event_deduped event_id a.now s.seen_event_ids in
    if duplicate
    then (strip (or_empty a.campaign_id), s)
    else record_change (record a { message = "" }) (classify event_type) (or_empty recipient ∷ [])
        (λ c. record (count_event (classify event_type) amount_kobo c) { updated_at = a.now })
        (record s { seen_event_ids = seen })
