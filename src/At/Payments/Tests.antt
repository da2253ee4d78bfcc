-- ===== src/At/Payments/Tests.antt =====
-- Runs of app/api/v1/at/service_payments.py.
use Prim.Native.Char.{Char, code}
use ekaette.Prelude.{
  ℕ, ◌-◌, String, ◌≡◌, refl, ◌⊎◌, true, ◌&&◌, Option, none, some, List, [], ◌∷◌, arith, leb,
  if◌then◌else◌, strip,
}
use ekaette.Prelude.Int.{pos}
use ekaette.Agents.Messages.{Json, Fields, text, number, dict, end, field, null}
use ekaette.Tools.Shipping.Rates.{Python}
use ekaette.At.Payments.Records.{Payments, Clock}
use ekaette.At.Payments.Gateway.{Charge, processed, process_gateway_event}
use ekaette.At.Payments.Create.{Config}
use ekaette.At.Payments.Webhook.{Call, gateway_event, run, paystack_webhook, refused, broken}
use ekaette.At.Payments.Paid.{process_gateway_event-counts_once}
use ekaette.At.Payments.Signed.{paystack_webhook-refuses}

abbrev same : String → String
same s = s

abbrev shown : Json → String
shown v = "?"

abbrev ascii_digit : Char → Option ℕ
ascii_digit ch = let c = code ch in if leb b'0' c && leb c b'9' then some (c - b'0') else none

abbrev python : Python
python = record {
  lower = same;
  upper = same;
  decimal = ascii_digit;
  accepts_digit = λ c. leb b'0' (code c) && leb (code c) b'9';
  str_of = shown;
}

abbrev config : Config
config = record {
  paystack_enabled = true;
  secret_key = "sk";
  webhook_secret = "";
  default_callback_url = "";
  default_bank_slug = "bank";
  default_country = "NG";
}

abbrev clock : ℕ → Clock
clock now = record { iso = "now"; now = now; first_id = "x1"; second_id = "x2" }

abbrev no_payments : Payments
no_payments = record {
  payment_records = [];
  virtual_account_records = [];
  virtual_account_by_number = [];
  customer_code_by_email = [];
  analytics = record { campaigns = []; events = []; seen_event_ids = []; contacts = [] };
}

abbrev charge : String → Fields
charge event = field "event" (text event) (
    field "data"
      (dict (
        field "reference" (text "ref-001") (
          field "amount" (number (pos 5000)) (
            field "status" (text "success")
              (field "metadata" (dict (field "campaign_id" (text "c1") end)) end)))))
      end)

abbrev read_charge : String → Charge
read_charge event = record {
  event = event;
  reference = "ref-001";
  amount_kobo = 5000;
  currency = "NGN";
  status = "success";
  email = null;
  payment_channel = "";
  metadata = field "campaign_id" (text "c1") end;
  account_number = "";
  context = record {
    tenant_id = "public";
    company_id = "ekaette-electronics";
    campaign_id = some "c1";
    customer_phone = none;
    virtual_account_reference = none;
  };
}

charge_read :
    (process_gateway_event python (clock 1) (charge "charge.success") no_payments).0
    ≡ processed (read_charge "charge.success")
unfolding process_gateway_event strip
charge_read = refl

abbrev between : List (Clock × Call)
between = (clock 2, gateway_event (charge "charge.failed")) ∷ []

abbrev after_failure : Payments
after_failure =
    run python config between
      (process_gateway_event python (clock 1) (charge "charge.success") no_payments).1

charge_read_again :
    (process_gateway_event python (clock 3) (charge "charge.succeeded") after_failure).0
    ≡ processed (read_charge "charge.succeeded")
unfolding process_gateway_event run strip
charge_read_again = refl

process_gateway_event-counts_once_example :
    (process_gateway_event python (clock 3) (charge "charge.succeeded") after_failure).1.analytics
    ≡ after_failure.analytics
process_gateway_event-counts_once_example =
    process_gateway_event-counts_once python config (clock 1) (clock 3) (charge "charge.success")
      (charge "charge.succeeded") between no_payments (read_charge "charge.success")
      (read_charge "charge.succeeded") "c1" charge_read refl refl (omega arith) charge_read_again
      refl refl

abbrev keyed : String → String → String
keyed secret body = secret

abbrev unparsed : String → Option Json
unparsed body = none

paystack_webhook-refuses_example :
    (paystack_webhook python keyed unparsed config (clock 1) "{}" (some "other") no_payments
      ≡ (refused 401, no_payments))
    ⊎ (paystack_webhook python keyed unparsed config (clock 1) "{}" (some "other") no_payments
        ≡ (broken, no_payments))
unfolding strip
paystack_webhook-refuses_example =
    paystack_webhook-refuses python keyed unparsed config (clock 1) "{}" (some "other") no_payments
      refl
