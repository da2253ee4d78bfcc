-- ===== src/At/Payments/VirtualAccounts.antt =====
-- app/api/v1/at/service_payments.py: a virtual account is made, for payments by transfer.
use ekaette.Prelude.Split.{◌<>◌}
use ekaette.Prelude.{
  ℕ, zero, suc, String, not, Option, none, some, str_eq, leb, if◌then◌else◌, strip,
}
use ekaette.Prelude.Int.{ℤ, pos, negsuc}
use ekaette.Dict.{lookup, insert}
use ekaette.Agents.Messages.{Json, Fields, get, text, number, dict, end, field, null, get_or}
use ekaette.Tools.Shipping.Records.{or_text, clean_str}
use ekaette.Tools.Shipping.Update.{clean_json}
use ekaette.Tools.Shipping.Rates.{Python}
use ekaette.At.CampaignAnalytics.Once.{report}
use ekaette.At.Payments.Records.{
  Payments, Clock, store_payment, set_default, normalize_reference, normalize_account_number,
  store_virtual_account,
}
use ekaette.At.Payments.Gateway.{report_if, text_or_null}
use ekaette.At.Payments.Create.{
  Config, paystack_is_enabled, Payer, Body, wrong, right, read_body, set_text, base_metadata,
  init_report,
}

-- What `_extract_virtual_account_payload` reads, but for the raw data.
pub record Account : Type 0 where
  pub account_number : String
  pub account_name : String
  pub bank_name : String
  pub bank_slug : String
  pub dedicated_account_id : Json

abbrev pub dict_or : Option Json → Fields → Fields
dict_or (some (dict d)) other = d
dict_or _ other = other

-- The name and the slug of the bank, with those of an object under `bank` where there is no name.
abbrev bank_of : String → String → Option Json → String × String
bank_of name slug (some (dict bank)) =
    if str_eq name ""
    then (clean_json (get "name" bank), or_text slug (clean_json (get "slug" bank)))
    else (name, slug)
bank_of name slug _ = (name, slug)

module _ (py : Python) where
  unfoldable pub extract_virtual_account_payload : Fields → Account
  unfolding get normalize_account_number
  extract_virtual_account_payload raw =
      let account = dict_or (get "dedicated_account" raw) raw in
      let bank =
        bank_of (clean_json (get "bank_name" account)) (clean_json (get "bank_slug" account))
          (get "bank" account) in
      record {
        account_number = normalize_account_number py (
            or_text (clean_json (get "account_number" account))
              (clean_json (get "accountNumber" account)));
        account_name =
            or_text (clean_json (get "account_name" account))
              (clean_json (get "accountName" account));
        bank_name = bank.0;
        bank_slug = bank.1;
        dedicated_account_id = get_or null (get "id" account);
      }

-- `_customer_code_from_create_response`
abbrev pub customer_code_in : Option Json → String
customer_code_in (some (dict raw)) = clean_json (get "customer_code" raw)
customer_code_in _ = ""

abbrev code_or_empty : Option String → String
code_or_empty none = ""
code_or_empty (some code) = code

unfoldable pub customer_code_from_create_response : String → Fields → Payments → String × Payments
unfolding get lookup insert
customer_code_from_create_response email body s =
    let code = customer_code_in (get "data" body) in
    if str_eq code ""
    then (code_or_empty (lookup email s.customer_code_by_email), s)
    else (code, record s { customer_code_by_email = insert email code s.customer_code_by_email })

-- The other arguments of `create_virtual_account`.
pub record AccountArgs : Type 0 where
  pub phone : Option String
  pub preferred_bank_slug : Option String
  pub country : Option String
  pub expected_amount_kobo : Option ℤ
  pub reference : Option String

abbrev pub amount_or_null : Option ℤ → Json
amount_or_null none = null
amount_or_null (some n) = number n

abbrev set_amount : Option ℤ → Fields → Fields
set_amount none metadata = metadata
set_amount (some (pos zero)) metadata = metadata
set_amount (some (pos (suc n))) metadata =
    set_default "expected_amount_kobo" (number (pos (suc n))) metadata
set_amount (some (negsuc n)) metadata =
    set_default "expected_amount_kobo" (number (negsuc n)) metadata

-- `customer_phone or phone`
abbrev pub phone_of : Option String → Option String → Option String
phone_of none phone = phone
phone_of (some customer_phone) phone =
    if str_eq customer_phone "" then phone else some customer_phone

abbrev account_metadata : Payer → AccountArgs → String → Fields
account_metadata payer args reference = set_amount args.expected_amount_kobo (
    set_text "customer_phone" payer.customer_phone (
      set_text "campaign_id" payer.campaign_id
        (set_default "payment_method" (text "virtual_account") (base_metadata payer reference))))

module _ (py : Python) where
  abbrev pub account_record :
      Config → Clock → Payer → AccountArgs → String → String → String → Account → Fields
  account_record config clock payer args reference email mode account =
      field "reference" (text reference) (
        field "status" (text "active") (
          field "tenant_id" (text payer.tenant_id) (
            field "company_id" (text payer.company_id) (
              field "campaign_id" (text_or_null payer.campaign_id) (
                field "email" (text email) (
                  field "customer_phone" (text_or_null (phone_of payer.customer_phone args.phone)) (
                    field "expected_amount_kobo" (amount_or_null args.expected_amount_kobo) (
                      field "payment_method" (text "virtual_account") (
                        field "provisioning_mode" (text mode) (
                          field "account_number" (text account.account_number) (
                            field "account_name" (text account.account_name) (
                              field "bank_name" (text account.bank_name) (
                                field "bank_slug"
                                  (text (
                                    or_text account.bank_slug (
                                      or_text (py.lower (clean_str args.preferred_bank_slug))
                                        config.default_bank_slug)))
                                  (field "dedicated_account_id" account.dedicated_account_id (
                                    field "metadata" (dict (account_metadata payer args reference))
                                      (field "updated_at" (text clock.iso) end))))))))))))))))

  abbrev pub transfer_payload : Clock → Payer → AccountArgs → String → String → Account → Fields
  transfer_payload clock payer args reference email account = field "reference" (text reference) (
      field "status" (text "awaiting_transfer") (
        field "gateway" (text "paystack") (
          field "payment_method" (text "virtual_account") (
            field "tenant_id" (text payer.tenant_id) (
              field "company_id" (text payer.company_id) (
                field "campaign_id" (text_or_null payer.campaign_id) (
                  field "amount_kobo" (amount_or_null args.expected_amount_kobo) (
                    field "currency" (text "NGN") (
                      field "email" (text email) (
                        field "virtual_account_reference" (text reference) (
                          field "virtual_account_number" (text account.account_number) (
                            field "virtual_account_bank" (text account.bank_name) (
                              field "metadata" (dict (account_metadata payer args reference))
                                (field "updated_at" (text clock.iso) end))))))))))))))

-- What `create_virtual_account` answers: the reference and the account.
pub data Provisioned : Type 0 where
  rejected : ℕ → Provisioned
  provisioned : String → Account → Provisioned

module _ (py : Python) where
  -- An account that has a number is stored, with the payment that awaits a transfer.
  abbrev pub provision :
      Config
      → Clock
      → Payer
      → AccountArgs
      → String
      → String
      → String
      → Account
      → Payments
      → Provisioned × Payments
  provision config clock payer args reference email mode account s =
      if str_eq account.account_number "" then (rejected 409, s) else (
        provisioned reference account,
        report_if
            (init_report clock payer ("paystack:va:init:" <> reference)
              (phone_of payer.customer_phone args.phone) payer.campaign_id)
            (store_payment clock.iso reference
              (transfer_payload py clock payer args reference email account)
              (store_virtual_account py clock.iso reference
                (account_record py config clock payer args reference email mode account) s)),
      )

  abbrev pub provision_body :
      Config
      → Clock
      → Payer
      → AccountArgs
      → String
      → String
      → String
      → Body
      → Payments
      → Provisioned × Payments
  provision_body config clock payer args reference email mode (wrong status) s =
      (rejected status, s)
  provision_body config clock payer args reference email mode (right raw) s =
      provision config clock payer args reference email mode
        (extract_virtual_account_payload py raw) s

  -- With a code of the customer the account is created, without one it is assigned.
  abbrev pub with_code :
      Config
      → Clock
      → Payer
      → AccountArgs
      → String
      → String
      → ℕ × Fields
      → ℕ × Fields
      → String × Payments
      → Provisioned × Payments
  with_code config clock payer args reference email create assign (code, s) =
      if str_eq code ""
      then provision_body config clock payer args reference email "assign" (read_body assign) s
      else provision_body config clock payer args reference email "create" (read_body create) s

  -- The answers are those to the customer, to the creation and to the assignment.
  unfoldable pub create_virtual_account :
      Config
      → Clock
      → Payer
      → AccountArgs
      → String
      → ℕ × Fields
      → ℕ × Fields
      → ℕ × Fields
      → Payments
      → Provisioned × Payments
  unfolding normalize_reference read_body store_payment store_virtual_account base_metadata
      set_default report get customer_code_from_create_response extract_virtual_account_payload
  create_virtual_account config clock payer args drawn customer create assign s =
      let email = py.lower (strip payer.email) in
      let reference = normalize_reference args.reference drawn in
      if not (paystack_is_enabled config)
      then (rejected 503, s)
      else if str_eq email ""
      then (rejected 400, s)
      else if leb 500 customer.0
      then (rejected 502, s)
      else with_code config clock payer args reference email create assign
          (customer_code_from_create_response email customer.1 s)
