-- ===== src/Tools/Shipping/Tests.antt =====
-- Runs of app/tools/shipping_tools.py.
use Prim.Native.Char.{Char, code}
use ekaette.Prelude.Split.{◌<>◌}
use ekaette.Tools.Shipping.Review.{notify, follow_up_at}
use ekaette.Prelude.{
  ℕ, ◌-◌, ◌≤◌, String, ◌≡◌, refl, true, false, ◌&&◌, Option, none, some, List, [], ◌∷◌, leb,
  if◌then◌else◌, strip,
}
use mathlib.Core.Option
use ekaette.Tools.Shipping.Late.{refreshed-sends_again}
use ekaette.Tools.Shipping.Quotes.{RateAnswer, quoted, get_topship_delivery_quote, offer_of}
use ekaette.Tools.Shipping.Offers.{IsFair, get_topship_delivery_quote-IsFair}
use ekaette.Prelude.Int.{pos}
use ekaette.Dict.{lookup}
use ekaette.Agents.Messages.{Json, Fields, dict, list, number, text, nil, cons, end, field}
use ekaette.Tools.Shipping.Records.{Order, base_review_followup_payload, tracking_status_or_default}
use ekaette.Tools.Shipping.Store.{Context, Settings, Shipping, memory, document, sms, document}
use ekaette.Tools.Shipping.Create.{CreateArgs}
use ekaette.Tools.Shipping.Update.{UpdateArgs}
use ekaette.Tools.Shipping.Fetch.{
  Fetched, fetch_topship_tracking, answered, topship_tracking_api_error,
}
use ekaette.Tools.Shipping.Track.{TrackArgs, Call, refreshed, create, update, review, run}
use ekaette.Tools.Shipping.Notices.{notices}
use ekaette.Tools.Shipping.Once.{run-one_notice}
use ekaette.Tools.Shipping.Stored.{AllSound}
use ekaette.Tools.Shipping.Sound.{run-AllSound}
use ekaette.Tools.Shipping.Rates.{Python, Quote, parse_delivery_eta, eta_days, map_rate_to_quote}

abbrev same : String → String
same s = s

abbrev shown : Json → String
shown v = "?"

abbrev digit : Char → Option ℕ
digit ch = let c = code ch in if leb b'0' c && leb c b'9' then some (c - b'0') else none

abbrev python : Python
python = record {
  lower = same;
  upper = same;
  decimal = digit;
  accepts_digit = λ c. leb b'0' (code c) && leb (code c) b'9';
  str_of = shown;
}

abbrev settings : Settings
settings = record {
  at_sms_enabled = true;
  whatsapp_enabled = true;
  whatsapp_access_token = "t";
  topship_api_key = "k";
}

abbrev at_time : String → Context
at_time now = record {
  db = false;
  state = none;
  now = now;
  sms_returns = true;
  whatsapp_status = some 500;
}

abbrev ordered : CreateArgs
ordered = record {
  customer_name = " Ada ";
  customer_phone = some "+234";
  items_summary = none;
  amount_kobo = some (pos 5000);
  payment_reference = none;
  sender_city = none;
  receiver_city = none;
  delivery_address = none;
  shipping_provider = "topship";
  provider_tracking_id = some "T1";
  provider_shipment_id = none;
  order_id = some "ORD-1";
  tenant_id = none;
  company_id = none;
  uuid_hex = "0123456789";
}

abbrev delivered : UpdateArgs
delivered = record {
  tracking_status = "delivered";
  provider_status = none;
  provider_tracking_id = none;
  provider_shipment_id = none;
  provider = none;
  event_description = none;
  location = none;
  event_timestamp = none;
  provider_events = [];
  estimated_delivery_at = none;
  delivered_at = none;
  trigger_review_followup = true;
}

-- An order is created, delivered twice, and its follow-up is asked for again.
abbrev twice_delivered : List (Context × Call)
twice_delivered =
    (at_time "1", create ordered)
    ∷ (at_time "2", update "ORD-1" delivered)
    ∷ (at_time "3", update " ORD-1 " delivered)
    ∷ (at_time "4", review "ORD-1" false none)
    ∷ []

abbrev nothing : Shipping
nothing = record { order_records = []; documents = []; outbox = [] }

abbrev text_messages : Shipping → ℕ
text_messages s = notices sms (memory "ORD-1") s.outbox

one_text_message : text_messages (run same shown settings twice_delivered nothing) ≡ 1
unfolding run strip notify
one_text_message = refl

statuses :
    (tracking_status_or_default same "delivery-in progress" ≡ "out_for_delivery")
    × (tracking_status_or_default same "lost at-sea" ≡ "lost_at_sea")
    × (tracking_status_or_default same "  " ≡ "pending")
unfolding tracking_status_or_default strip ◌<>◌
statuses = (refl, refl, refl)

run-one_notice_example : text_messages (run same shown settings twice_delivered nothing) ≤ 1
run-one_notice_example =
    run-one_notice same shown settings sms (memory "ORD-1") twice_delivered nothing refl
      (tt, (tt, (tt, (refl, tt))))

nothing-AllSound : AllSound nothing
unfolding lookup
nothing-AllSound (memory id) = tt
nothing-AllSound (document path) = tt

run-AllSound_example : AllSound (run same shown settings twice_delivered nothing)
run-AllSound_example = run-AllSound same shown settings twice_delivered nothing nothing-AllSound

-- A payload that is a list has no `get`.
list_payload :
    fetch_topship_tracking same "k" "1" "T1" (answered 200 (some (list nil))) ≡ Fetched.crashed
unfolding fetch_topship_tracking strip
list_payload = refl

abbrev sold : Order
sold = record {
  order_id = "ORD-1";
  tenant_id = "public";
  company_id = "shop";
  customer = record { name = "Ada"; phone = some "+234" };
  items_summary = "";
  amount_kobo = 5000;
  payment_reference = "";
  delivery = record { sender_city = none; receiver_city = none; address = none };
  tracking = record {
    provider = "topship";
    status = "in_transit";
    provider_status = "";
    tracking_id = "T1";
    shipment_id = "";
    estimated_delivery_at = none;
    delivered_at = none;
    events = [];
    updated_at = "1";
    last_checked_at = none;
  };
  review_followup = base_review_followup_payload;
  status = "in_fulfillment";
  created_at = "1";
  updated_at = "1";
}

abbrev with_refresh : TrackArgs
with_refresh = record {
  refresh_from_provider = true;
  provider_tracking_id = none;
  trigger_review_followup = true;
}

refreshed-sends_again_example :
    notices sms
      (memory "ORD-1")
      (follow_up_at settings
        (at_time "5")
        "ORD-1"
        false
        none
        (some (memory "ORD-1"))
        (refreshed same shown settings
          (at_time "5")
          (memory "ORD-1")
          "ORD-1"
          with_refresh
          "topship"
          "T1"
          sold
          (Fetched.failed topship_tracking_api_error)
          nothing).1).1.outbox
    ≡ 1
unfolding strip
refreshed-sends_again_example =
    refreshed-sends_again settings (at_time "5") (memory "ORD-1") "ORD-1" same shown with_refresh
      "topship" "T1" sold topship_tracking_api_error nothing refl refl refl

abbrev rate : String → ℕ → String → Fields
rate mode total eta =
    field "mode" (text mode)
      (field "total" (number (pos total)) (field "deliveryEta" (text eta) end))

abbrev quote : String → ℕ → String → ℕ → ℕ → ℕ → Quote
quote mode total eta days low high = record {
  service_type = mode;
  pricing_tier = "Budget";
  carrier_name = "Budget";
  display_name = "Budget - " <> mode;
  total_kobo = total;
  vat_kobo = 0;
  currency = "NGN";
  delivery_eta = eta;
  estimated_days = days;
  min_days = some low;
  max_days = some high;
}

abbrev road : Quote
road = quote "Road" 900 "3 - 5 days" 4 3 5

abbrev air : Quote
air = quote "Air" 2500 "1 day" 1 1 1

abbrev rates : Json
rates = list (
    cons (dict (rate "Air" 2500 "1 day"))
      (cons (text "?") (cons (dict (rate "Road" 900 "3 - 5 days")) nil)))

rates_quoted :
    get_topship_delivery_quote python "k" " Lagos" "Abuja" "" (RateAnswer.answered 200 rates)
    ≡ quoted (offer_of python "Lagos" "Abuja" "" air (road ∷ []))
unfolding get_topship_delivery_quote map_rate_to_quote strip ◌<>◌
rates_quoted = refl

get_topship_delivery_quote-IsFair_example :
    IsFair (offer_of python "Lagos" "Abuja" "" air (road ∷ []))
get_topship_delivery_quote-IsFair_example =
    get_topship_delivery_quote-IsFair python "k" " Lagos" "Abuja" "" (RateAnswer.answered 200 rates)
      (offer_of python "Lagos" "Abuja" "" air (road ∷ [])) rates_quoted

-- An estimate of no day, of "0-1 days", counts as five.
same_day : Option.map (eta_days python) (parse_delivery_eta python "0-1 days") ≡ some 5
unfolding parse_delivery_eta strip
same_day = refl
