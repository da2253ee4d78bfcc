-- ===== src/At/Payments/Create.antt =====
-- app/api/v1/at/service_payments.py: a checkout is made. The answers of
-- Paystack, a status and a body, are arguments; a request that raises changes nothing after it.
use ekaette.Prelude.Split.{◌<>◌}
use ekaette.Prelude.{
  ℕ, String, Bool, ◌&&◌, not, Option, none, some, str_eq, leb, if◌then◌else◌, strip,
}
use ekaette.Prelude.Int.{ℤ}
use ekaette.Agents.Messages.{Json, Fields, get, text, number, dict, end, field, null, get_or}
use ekaette.Tools.Shipping.Records.{or_text}
use ekaette.Tools.Shipping.Rates.{Python, str_or}
use ekaette.Tools.Shipping.Fetch.{is_true_flag}
use ekaette.At.CampaignAnalytics.{Caller}
use ekaette.At.CampaignAnalytics.Once.{Report, report}
use ekaette.At.Payments.Records.{
  Payments, Clock, coerce_metadata, store_payment, set_default, normalize_reference,
}
use ekaette.At.Payments.Gateway.{report_if, text_or_null}

-- The settings of Paystack.
pub record Config : Type 0 where
  pub paystack_enabled : Bool
  pub secret_key : String
  pub webhook_secret : String
  pub default_callback_url : String
  pub default_bank_slug : String
  pub default_country : String

-- `_is_enabled`
abbrev pub paystack_is_enabled : Config → Bool
paystack_is_enabled config = config.paystack_enabled && not (str_eq (strip config.secret_key) "")

-- Who a payment is for.
pub record Payer : Type 0 where
  pub email : String
  pub tenant_id : String
  pub company_id : String
  pub campaign_id : Option String
  pub customer_phone : Option String
  pub metadata : Option Json

-- A body that says `status: true` and has an object under `data`, or the status of the error.
pub data Body : Type 0 where
  wrong : ℕ → Body
  right : Fields → Body

abbrev object_of : Option Json → Body
object_of (some (dict raw)) = right raw
object_of _ = wrong 502

unfoldable pub read_body : ℕ × Fields → Body
unfolding get
read_body (status_code, body) =
    if leb 400 status_code
    then wrong 502
    else if is_true_flag (get "status" body)
    then object_of (get "data" body)
    else wrong 400

abbrev pub set_text : String → Option String → Fields → Fields
set_text key none metadata = metadata
set_text key (some s) metadata = if str_eq s "" then metadata else set_default key (text s) metadata

-- The metadata with what they lack of tenant, company and reference.
unfoldable pub base_metadata : Payer → String → Fields
unfolding set_default
base_metadata payer reference = set_default "payment_reference" (text reference) (
    set_default "company_id" (text payer.company_id)
      (set_default "tenant_id" (text payer.tenant_id) (coerce_metadata payer.metadata)))

abbrev init_caller : Clock → Payer → String → Caller
init_caller clock payer campaign_id = record {
  channel = "omni";
  tenant_id = payer.tenant_id;
  company_id = payer.company_id;
  message = "";
  campaign_id = some campaign_id;
  campaign_name = none;
  first_id = clock.first_id;
  second_id = clock.second_id;
  now = clock.now;
}

abbrev pub init_report : Clock → Payer → String → Option String → Option String → Option Report
init_report clock payer event_id recipient none = none
init_report clock payer event_id recipient (some campaign_id) =
    if str_eq campaign_id ""
    then none
    else some (record {
      event_type = "payment_initialized";
      recipient = recipient;
      amount_kobo = none;
      event_id = some event_id;
      caller = init_caller clock payer campaign_id;
    })

-- `rejected` is a PaymentGatewayError, by its status.
pub data Initialized : Type 0 where
  rejected : ℕ → Initialized
  initialized : String → Fields → Initialized

module _ (py : Python) where
  abbrev currency_of : String → String
  currency_of currency = or_text (py.upper (strip (or_text currency "NGN"))) "NGN"

  abbrev pub checkout_payload : Clock → Payer → ℤ → String → String → Fields → Fields → Fields
  checkout_payload clock payer amount_kobo currency reference metadata raw =
      field "reference" (text reference) (
        field "status" (text "initialized") (
          field "gateway" (text "paystack") (
            field "payment_method" (text "checkout") (
              field "tenant_id" (text payer.tenant_id) (
                field "company_id" (text payer.company_id) (
                  field "campaign_id" (text_or_null payer.campaign_id) (
                    field "amount_kobo" (number amount_kobo) (
                      field "currency" (text (currency_of currency)) (
                        field "email" (text payer.email) (
                          field "metadata" (dict metadata) (
                            field "authorization_url" (get_or null (get "authorization_url" raw)) (
                              field "access_code" (get_or null (get "access_code" raw))
                                (field "updated_at" (text clock.iso) end)))))))))))))

  abbrev pub checkout_metadata : Payer → String → Fields
  checkout_metadata payer reference =
      set_text "customer_phone" payer.customer_phone
        (set_text "campaign_id" payer.campaign_id (base_metadata payer reference))

  abbrev pub checked_out :
      Clock → Payer → ℤ → String → String → String → Body → Payments → Initialized × Payments
  checked_out clock payer amount_kobo currency drawn reference (wrong status) s =
      (rejected status, s)
  checked_out clock payer amount_kobo currency drawn reference (right raw) s =
      let resolved = normalize_reference (some (str_or py (get "reference" raw) reference)) drawn in
      let payload =
        checkout_payload clock payer amount_kobo currency resolved
          (checkout_metadata payer reference) raw in
      (
        initialized resolved raw,
        report_if
            (init_report clock payer ("paystack:init:" <> resolved) payer.customer_phone
              payer.campaign_id)
            (store_payment clock.iso resolved payload s),
      )

  -- The references that would be drawn, for the request and for its answer, come after the payer.
  unfoldable pub initialize_transaction :
      Config
      → Clock
      → Payer
      → ℤ
      → String
      → Option String
      → String
      → String
      → ℕ × Fields
      → Payments
      → Initialized × Payments
  unfolding normalize_reference read_body store_payment base_metadata report get
  initialize_transaction config clock payer amount_kobo currency reference drawn drawn_after answer
        s =
      if paystack_is_enabled config
      then checked_out clock payer amount_kobo currency drawn_after
          (normalize_reference reference drawn) (read_body answer) s
      else (rejected 503, s)
