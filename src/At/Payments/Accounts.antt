-- ===== src/At/Payments/Accounts.antt =====
-- app/api/v1/at/service_payments.py: the virtual account that a charge was paid into, and the
-- campaign, the customer, the tenant and the company that it is for.
use ekaette.Prelude.{String, Option, none, some, str_eq, if◌then◌else◌, strip}
use ekaette.Agents.Messages.{Json, Fields, get, text, dict}
use ekaette.Tools.Shipping.Records.{or_text}
use ekaette.Tools.Shipping.Update.{clean_json}
use ekaette.Tools.Shipping.Rates.{Python, str_or}
use ekaette.At.Payments.Records.{
  Payments, coerce_metadata, normalize_account_number, virtual_account_from_number,
}

-- A charge's context, as `_campaign_context_from_data` returns it; the account number is left out,
-- which only goes into the payment's record.
pub record ChargeContext : Type 0 where
  pub tenant_id : String
  pub company_id : String
  pub campaign_id : Option String
  pub customer_phone : Option String
  pub virtual_account_reference : Option String

-- A text with more than spaces, as it is.
abbrev text_value : Option Json → Option String
text_value (some (text s)) = if str_eq (strip s) "" then none else some s
text_value _ = none

abbrev stripped_value : Option String → Option String
stripped_value none = none
stripped_value (some s) = some (strip s)

abbrev value_or : Option String → Option String → Option String
value_or none b = b
value_or (some a) b = some a

-- `value or None`
abbrev pub text_or_none : String → Option String
text_or_none s = if str_eq s "" then none else some s

-- `if not a and isinstance(v, str): a = v`
abbrev or_text_value : String → Option Json → String
or_text_value a (some (text s)) = or_text a s
or_text_value a _ = a

module _ (py : Python) where
  abbrev account_number_at : String → Fields → String
  account_number_at key d = normalize_account_number py (clean_json (get key d))

  abbrev from_authorization : Option Json → String
  from_authorization (some (dict authorization)) =
      or_text (account_number_at "receiver_bank_account_number" authorization) (
        or_text (account_number_at "account_number" authorization)
          (account_number_at "receiver_account_number" authorization))
  from_authorization _ = ""

  abbrev from_dedicated : Option Json → String
  from_dedicated (some (dict dedicated)) = account_number_at "account_number" dedicated
  from_dedicated _ = ""

  unfoldable pub extract_account_number_from_charge : Fields → String
  unfolding get normalize_account_number
  extract_account_number_from_charge raw = or_text (from_authorization (get "authorization" raw)) (
      or_text (from_dedicated (get "dedicated_account" raw))
        (account_number_at "virtual_account_number" (coerce_metadata (get "metadata" raw))))

  abbrev from_metadata : Fields → ChargeContext
  from_metadata metadata = record {
    tenant_id = strip (str_or py (get "tenant_id" metadata) "");
    company_id = strip (str_or py (get "company_id" metadata) "");
    campaign_id = text_value (get "campaign_id" metadata);
    customer_phone = text_value (get "customer_phone" metadata);
    virtual_account_reference = none;
  }

  -- What the metadata lack is taken from the record of the virtual account.
  abbrev from_account : Option Fields → ChargeContext → ChargeContext
  from_account none c = c
  from_account (some account) c = record {
    tenant_id = or_text_value c.tenant_id (get "tenant_id" account);
    company_id = or_text_value c.company_id (get "company_id" account);
    campaign_id = value_or c.campaign_id (stripped_value (text_value (get "campaign_id" account)));
    customer_phone =
        value_or c.customer_phone (stripped_value (text_value (get "customer_phone" account)));
    virtual_account_reference = text_or_none (clean_json (get "reference" account));
  }

  abbrev with_defaults : ChargeContext → ChargeContext
  with_defaults c = record c {
    tenant_id = or_text c.tenant_id "public";
    company_id = or_text c.company_id "ekaette-electronics";
  }

  abbrev account_of : String → Payments → Option Fields
  account_of account_number s =
      if str_eq account_number "" then none else virtual_account_from_number py account_number s

  unfoldable pub campaign_context_from_data : Fields → Payments → ChargeContext
  unfolding get extract_account_number_from_charge virtual_account_from_number
  campaign_context_from_data raw s = with_defaults (
      from_account (account_of (extract_account_number_from_charge raw) s)
        (from_metadata (coerce_metadata (get "metadata" raw))))
