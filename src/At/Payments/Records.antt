-- ===== src/At/Payments/Records.antt =====
-- app/api/v1/at/service_payments.py: the payments and the virtual accounts, whose records are JSON
-- objects, and the values that are cleaned on the way in. Amounts are integers. What Python has of
-- Unicode and of `str` is a parameter.
use Prim.Native.Char.{code}
use Prim.Native.String.{count}
use ekaette.Prelude.{
  ℕ, String, Bool, true, ◌&&◌, not, Option, none, some, str_eq, leb, if◌then◌else◌, strip,
}
use ekaette.Prelude.Int.{pos}
use ekaette.Dict.{Dict, lookup, insert}
use ekaette.Agents.Messages.{Json, Fields, get, text, number, dict, end, field}
use ekaette.Tools.Answers.{parse_digits}
use ekaette.Tools.Shipping.Records.{or_text, all_id_chars}
use ekaette.Tools.Shipping.Update.{clean_json}
use ekaette.Tools.Shipping.Rates.{Python, all_digits}
use ekaette.At.CampaignAnalytics.{Analytics}

-- `d[key] = v`
unfoldable set_key : String → Json → Fields → Fields
set_key k v end = field k v end
set_key k v (field j w rest) =
    let others = set_key k v rest in if str_eq j k then field j v rest else field j w others

-- `{**existing, **payload}`
unfoldable merged : Fields → Fields → Fields
unfolding set_key
merged existing end = existing
merged existing (field k v rest) = merged (set_key k v existing) rest

abbrev default_in : String → Json → Fields → Option Json → Fields
default_in k v d none = set_key k v d
default_in k v d (some w) = d

-- `d.setdefault(key, v)`
unfoldable pub set_default : String → Json → Fields → Fields
unfolding get set_key
set_default k v d = default_in k v d (get k d)

-- `_coerce_metadata`
abbrev pub coerce_metadata : Option Json → Fields
coerce_metadata (some (dict d)) = d
coerce_metadata _ = end

-- The global tables of the module, and the campaign analytics that it calls.
pub record Payments : Type 0 where
  pub payment_records : Dict Fields
  pub virtual_account_records : Dict Fields
  pub virtual_account_by_number : Dict String
  pub customer_code_by_email : Dict String
  pub analytics : Analytics

-- The clock of a call, as text and as a number, and the ids that the analytics would draw.
pub record Clock : Type 0 where
  pub iso : String
  pub now : ℕ
  pub first_id : String
  pub second_id : String

-- `_REF_RE.fullmatch`
unfoldable is_reference : String → Bool
unfolding all_id_chars
is_reference s = leb 6 (count s) && leb (count s) 128 && all_id_chars s

-- `_validate_reference`, none where it raises
unfoldable pub validate_reference : String → Option String
unfolding is_reference
validate_reference reference =
    let candidate = strip reference in if is_reference candidate then some candidate else none

-- `_normalize_reference`: the second argument is the reference that would be drawn.
unfoldable pub normalize_reference : Option String → String → String
unfolding is_reference
normalize_reference none drawn = drawn
normalize_reference (some reference) drawn =
    let candidate = strip reference in if is_reference candidate then candidate else drawn

-- `[0-9]*`
unfoldable all_ascii_digits : String → Bool
all_ascii_digits String.[] = true
all_ascii_digits (String.◌∷◌ ch s) =
    let c = code ch in leb b'0' c && leb c b'9' && all_ascii_digits s

-- `_ACCOUNT_NUMBER_RE.fullmatch`
unfoldable is_account_number : String → Bool
unfolding all_ascii_digits
is_account_number s = leb 8 (count s) && leb (count s) 20 && all_ascii_digits s

module _ (py : Python) where
  -- `_coerce_amount_kobo`, none where `int` raises
  unfoldable pub coerce_amount_kobo : Option Json → Option ℕ
  unfolding all_digits parse_digits
  coerce_amount_kobo (some (number (pos n))) = some n
  coerce_amount_kobo (some (text value)) =
      let stripped = strip value in
      if not (str_eq stripped "") && all_digits py stripped
      then parse_digits py.decimal stripped
      else some 0
  coerce_amount_kobo _ = some 0

  unfoldable digits_in : String → String
  digits_in String.[] = String.[]
  digits_in (String.◌∷◌ c s) =
      let rest = digits_in s in if py.accepts_digit c then String.◌∷◌ c rest else rest

  unfoldable pub normalize_account_number : String → String
  unfolding digits_in is_account_number
  normalize_account_number account_number =
      let candidate = digits_in account_number in
      if is_account_number candidate then candidate else ""

abbrev fields_or_empty : Option Fields → Fields
fields_or_empty none = end
fields_or_empty (some d) = d

-- The record of a reference, merged with a payload.
unfoldable merged_record : String → String → Fields → Option Fields → Fields
unfolding merged set_default set_key get
merged_record iso reference payload existing =
    set_key "updated_at" (text (or_text (clean_json (get "updated_at" payload)) iso))
      (set_default "reference" (text reference) (merged (fields_or_empty existing) payload))

-- `_store_payment`
unfoldable pub store_payment : String → String → Fields → Payments → Payments
unfolding merged_record lookup insert
store_payment iso reference payload s = record s {
  payment_records =
      insert reference (merged_record iso reference payload (lookup reference s.payment_records))
        s.payment_records;
}

abbrev index_number : String → String → Dict String → Dict String
index_number account_number reference numbers =
    if str_eq account_number "" then numbers else insert account_number reference numbers

module _ (py : Python) where
  -- `_store_virtual_account`
  unfoldable pub store_virtual_account : String → String → Fields → Payments → Payments
  unfolding merged_record lookup insert normalize_account_number
  store_virtual_account iso reference payload s =
      let merged =
        merged_record iso reference payload (lookup reference s.virtual_account_records) in
      record s {
        virtual_account_records = insert reference merged s.virtual_account_records;
        virtual_account_by_number =
            index_number (normalize_account_number py (clean_json (get "account_number" merged)))
              reference s.virtual_account_by_number;
      }

  abbrev record_of : Option String → Payments → Option Fields
  record_of none s = none
  record_of (some reference) s =
      if str_eq reference "" then none else lookup reference s.virtual_account_records

  -- `_virtual_account_from_number`
  unfoldable pub virtual_account_from_number : String → Payments → Option Fields
  unfolding normalize_account_number lookup
  virtual_account_from_number account_number s =
      let normalized = normalize_account_number py account_number in
      if str_eq normalized ""
      then none
      else record_of (lookup normalized s.virtual_account_by_number) s

-- `payment_snapshot` and `virtual_account_snapshot`
unfoldable payment_snapshot : String → Payments → Option Fields
unfolding lookup
payment_snapshot reference s = lookup reference s.payment_records

unfoldable virtual_account_snapshot : String → Payments → Option Fields
unfolding lookup
virtual_account_snapshot reference s = lookup reference s.virtual_account_records
