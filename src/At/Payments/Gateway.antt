-- ===== src/At/Payments/Gateway.antt =====
-- app/api/v1/at/service_payments.py: an event of the gateway, and the webhook of
-- app/api/v1/at/payments.py that brings it. The HMAC and the parser of JSON are parameters.
use ekaette.Prelude.Split.{◌<>◌}
use ekaette.Prelude.{ℕ, String, Bool, ◌||◌, Option, none, some, str_eq, if◌then◌else◌, strip}
use ekaette.Prelude.Int.{pos}
use ekaette.Agents.Messages.{Json, Fields, get, text, number, dict, end, field, null, get_or}
use ekaette.Tools.Shipping.Records.{or_text}
use ekaette.Tools.Shipping.Update.{clean_json}
use ekaette.Tools.Shipping.Rates.{Python, str_or}
use ekaette.At.CampaignAnalytics.{Caller}
use ekaette.At.CampaignAnalytics.Once.{Report, report}
use ekaette.At.Payments.Records.{
  Payments, Clock, coerce_metadata, store_payment, coerce_amount_kobo, store_virtual_account,
  validate_reference,
}
use ekaette.At.Payments.Accounts.{
  ChargeContext, campaign_context_from_data, text_or_none, extract_account_number_from_charge,
}

-- What `process_gateway_event` reads of an event.
pub record Charge : Type 0 where
  pub event : String
  pub reference : String
  pub amount_kobo : ℕ
  pub currency : String
  pub status : String
  pub email : Json
  pub payment_channel : String
  pub metadata : Fields
  pub account_number : String
  pub context : ChargeContext

abbrev pub email_of : Option Json → Json
email_of (some (dict customer)) = get_or null (get "email" customer)
email_of _ = null

abbrev channel_of : Option Json → String
channel_of (some (dict authorization)) = clean_json (get "channel" authorization)
channel_of _ = ""

abbrev pub payment_method : Charge → String
payment_method c =
    if str_eq c.payment_channel "dedicated_nuban" then "virtual_account" else "checkout"

-- `status or event`
abbrev charge_status : Charge → String
charge_status c = or_text c.status c.event

abbrev pub is_success : String → Bool
is_success event = str_eq event "charge.success" || str_eq event "charge.succeeded"

abbrev is_failure : String → Bool
is_failure event = str_eq event "charge.failed" || str_eq event "charge.abandoned"

abbrev pub text_or_null : Option String → Json
text_or_null none = null
text_or_null (some s) = text s

abbrev pub amount : ℕ → Json
amount n = number (pos n)

abbrev pub payment_payload : String → Charge → Fields
payment_payload iso c = field "reference" (text c.reference) (
    field "status" (text (charge_status c)) (
      field "gateway" (text "paystack") (
        field "payment_method" (text (payment_method c)) (
          field "payment_channel" (text c.payment_channel) (
            field "tenant_id" (text c.context.tenant_id) (
              field "company_id" (text c.context.company_id) (
                field "campaign_id" (text_or_null c.context.campaign_id) (
                  field "amount_kobo" (amount c.amount_kobo) (
                    field "currency" (text c.currency) (
                      field "email" c.email (
                        field "metadata" (dict c.metadata) (
                          field "gateway_event" (text c.event) (
                            field "virtual_account_reference"
                              (text_or_null c.context.virtual_account_reference)
                              (field "virtual_account_number"
                                (text_or_null (text_or_none c.account_number))
                                (field "updated_at" (text iso) end)))))))))))))))

abbrev synced_payload : String → Charge → Fields
synced_payload iso c = field "status" (text (charge_status c)) (
    field "gateway_event" (text c.event) (
      field "payment_method" (text (payment_method c)) (
        field "payment_channel" (text c.payment_channel) (
          field "last_gateway_reference" (text c.reference) (
            field "last_paid_amount_kobo" (amount c.amount_kobo)
              (field "updated_at" (text iso) end))))))

abbrev account_payload : String → Charge → Fields
account_payload iso c = field "last_payment_reference" (text c.reference) (
    field "last_payment_status" (text (charge_status c)) (
      field "last_paid_amount_kobo" (amount c.amount_kobo) (
        field "last_payment_at" (text iso)
          (field "status" (text (if is_success c.event then "paid" else "active")) end))))

-- The caller that the campaign analytics see.
abbrev caller_of : Clock → ChargeContext → String → Caller
caller_of clock context campaign_id = record {
  channel = "omni";
  tenant_id = context.tenant_id;
  company_id = context.company_id;
  message = "";
  campaign_id = some campaign_id;
  campaign_name = none;
  first_id = clock.first_id;
  second_id = clock.second_id;
  now = clock.now;
}

abbrev pub success_report : Clock → Charge → String → Report
success_report clock c campaign_id = record {
  event_type = "payment_success";
  recipient = c.context.customer_phone;
  amount_kobo = some (pos c.amount_kobo);
  event_id = some ("paystack:success:" <> c.reference);
  caller = caller_of clock c.context campaign_id;
}

abbrev failure_report : Clock → Charge → String → Report
failure_report clock c campaign_id = record {
  event_type = "failed";
  recipient = c.context.customer_phone;
  amount_kobo = none;
  event_id = some ("paystack:failed:" <> (c.reference <> (":" <> c.event)));
  caller = caller_of clock c.context campaign_id;
}

-- What is reported of a charge to the campaign analytics, if anything.
abbrev pub charge_report : Clock → Charge → Option String → Option Report
charge_report clock c none = none
charge_report clock c (some campaign_id) =
    if is_success c.event
    then some (success_report clock c campaign_id)
    else if is_failure c.event
    then some (failure_report clock c campaign_id)
    else none

abbrev pub report_if : Option Report → Payments → Payments
report_if none s = s
report_if (some r) s = record s { analytics = report r s.analytics }

module _ (py : Python) where
  -- The records of the virtual account, under the reference that was announced.
  abbrev pub sync_account : Clock → Charge → Option String → Payments → Payments
  sync_account clock c none s = s
  sync_account clock c (some reference) s =
      let synced =
        if str_eq reference c.reference
        then s
        else store_payment clock.iso reference (synced_payload clock.iso c) s in
      store_virtual_account py clock.iso reference (account_payload clock.iso c) synced

  unfoldable pub store_charge : Clock → Charge → Payments → Payments
  unfolding store_payment store_virtual_account
  store_charge clock c s =
      sync_account clock c c.context.virtual_account_reference
        (store_payment clock.iso c.reference (payment_payload clock.iso c) s)

  abbrev pub charge_of : String → Fields → String → ℕ → Payments → Charge
  charge_of event raw reference amount_kobo s = record {
    event = event;
    reference = reference;
    amount_kobo = amount_kobo;
    currency = str_or py (get "currency" raw) "NGN";
    status = py.lower (strip (str_or py (get "status" raw) ""));
    email = email_of (get "customer" raw);
    payment_channel = channel_of (get "authorization" raw);
    metadata = coerce_metadata (get "metadata" raw);
    account_number = extract_account_number_from_charge py raw;
    context = campaign_context_from_data py raw s;
  }

-- `rejected` is a PaymentGatewayError, by its status, `crashed` another exception.
pub data Processed : Type 0 where
  rejected : ℕ → Processed
  crashed : Processed
  processed : Charge → Processed

module _ (py : Python) where
  abbrev pub process_amount :
      Clock → String → Fields → String → Option ℕ → Payments → Processed × Payments
  process_amount clock event raw reference none s = (crashed, s)
  process_amount clock event raw reference (some amount_kobo) s =
      let c = charge_of py event raw reference amount_kobo s in
      (
        processed c,
        report_if (charge_report clock c c.context.campaign_id) (store_charge py clock c s),
      )

  abbrev pub process_reference :
      Clock → String → Fields → Option String → Payments → Processed × Payments
  process_reference clock event raw none s = (rejected 400, s)
  process_reference clock event raw (some reference) s =
      process_amount clock event raw reference (coerce_amount_kobo py (get "amount" raw)) s

  abbrev pub process_data : Clock → String → Option Json → Payments → Processed × Payments
  process_data clock event (some (dict raw)) s =
      process_reference clock event raw (validate_reference (str_or py (get "reference" raw) "")) s
  process_data clock event _ s = (rejected 400, s)

  unfoldable pub process_gateway_event : Clock → Fields → Payments → Processed × Payments
  unfolding get validate_reference coerce_amount_kobo store_charge campaign_context_from_data
      extract_account_number_from_charge report
  process_gateway_event clock payload s =
      process_data clock (py.lower (strip (str_or py (get "event" payload) "")))
        (get "data" payload) s
