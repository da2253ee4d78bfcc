-- ===== src/At/CampaignAnalytics/Tests.antt =====
-- Two tenants that use one campaign id in app/api/v1/at/campaign_analytics.py, and a payment that is
-- reported twice; the phones that a tenant has.
use ekaette.Prelude.{ℕ, String, ◌≡◌, refl, true, ◌||◌, none, some, List, [], ◌∷◌, strip}
use ekaette.Prelude.Int.{pos}
use ekaette.Dict.{lookup, insert}
use ekaette.At.CampaignAnalytics.{sms, Analytics, Caller, CampaignState, normalize_recipient}
use ekaette.At.CampaignAnalytics.Operations.{
  record_outbound_campaign, record_inbound_reply, record_event, contains,
}
use ekaette.At.CampaignAnalytics.Scope.{IsForeign, foreign_campaign_kept}
use ekaette.At.CampaignAnalytics.Directory.{KnownContact, list_known_contacts}
use ekaette.At.CampaignAnalytics.Phones.{is_listed, is_recipient, is_indexed, known_phones}
use ekaette.At.CampaignAnalytics.Once.{Report}

abbrev caller : String → ℕ → Caller
caller tenant now = record {
  channel = "SMS";
  tenant_id = tenant;
  company_id = "shop";
  message = "hello";
  campaign_id = some "c1";
  campaign_name = none;
  first_id = "new1";
  second_id = "new2";
  now = now;
}

abbrev empty : Analytics
empty = record { campaigns = []; events = []; seen_event_ids = []; contacts = [] }

abbrev payment : Report
payment = record {
  event_type = "payment_success";
  recipient = none;
  amount_kobo = some (pos 5000);
  event_id = some "e1";
  caller = caller "a" 7;
}

digits_kept : normalize_recipient " +234 (80) 1" ≡ "+234801"
unfolding normalize_recipient
digits_kept = refl

hint_found : contains "failed" "Delivery FAILED" ≡ true
unfolding contains
hint_found = refl

abbrev owned : CampaignState
owned = record {
  campaign_id = "c1";
  channel = sms;
  tenant_id = "a";
  company_id = "shop";
  campaign_name = "Easter";
  message = "hello";
  created_at = 1;
  updated_at = 1;
  recipients = [];
  sent_total = 1;
  delivered_total = 1;
  failed_total = 0;
  replies_total = 0;
  conversions_total = 0;
  revenue_kobo = 0;
  payments_initialized_total = 0;
  payments_success_total = 0;
}

abbrev shared : Analytics
shared = record empty { campaigns = ("c1", owned) ∷ [] }

shared-IsForeign : IsForeign (caller "b" 9) "c1" owned shared
unfolding lookup strip
shared-IsForeign = record { there = refl; other = refl; unused = refl }

foreign_campaign_kept_example :
    (lookup "c1" (record_outbound_campaign (caller "b" 9) ("+1" ∷ []) [] shared).1.campaigns
      ≡ some owned)
    × (lookup "c1" (record_inbound_reply (caller "b" 9) "+1" shared).1.campaigns ≡ some owned)
    × (lookup "c1"
          (record_event "sent" (some "+1") none (some "e2") (caller "b" 9) shared).1.campaigns
        ≡ some owned)
foreign_campaign_kept_example =
    foreign_campaign_kept (caller "b" 9) "c1" owned shared ("+1" ∷ []) [] "sent" "+1" none
      (some "e2") shared-IsForeign

abbrev tables : Analytics
tables = record shared {
  campaigns = ("c1", record owned { recipients = "+2348" ∷ "+1" ∷ [] }) ∷ [];
  contacts =
      record { tenant_id = "a"; company_id = "shop"; recipient = "+44"; campaign_id = "c1" }
      ∷ record { tenant_id = "b"; company_id = "shop"; recipient = "+7"; campaign_id = "c1" }
      ∷ [];
}

phones_of : List KnownContact → List String
phones_of [] = []
phones_of (k ∷ ks) = k.phone ∷ phones_of ks

phones_sorted : phones_of (list_known_contacts "a" "shop" tables) ≡ ("+1" ∷ "+2348" ∷ "+44" ∷ [])
unfolding phones_of list_known_contacts lookup insert
phones_sorted = refl

known_phones_example : is_listed "+7" (list_known_contacts "a" "shop" tables) ≡ (
    is_recipient "a" "shop" "+7" tables.campaigns
    || is_indexed "a" "shop" "+7" tables.campaigns tables.contacts)
known_phones_example = known_phones "a" "shop" "+7" tables
