-- ===== src/Tools/Shipping/Rates.antt =====
-- app/tools/shipping_tools.py: a rate of Topship as a quote. The numbers of a rate are integers, and
-- the amount in naira, a rounded float, is left out.
use Prim.Native.Char.{Char, code}
use ekaette.Prelude.Split.{◌<>◌}
use ekaette.Prelude.Text.{lstrip}
use ekaette.Prelude.Int.{pos}
use ekaette.SipBridge.Digest.{◌>>=◌}
use ekaette.Prelude.{
  ℕ, ◌+◌, ◌/◌, ◌%◌, String, Bool, true, false, ◌&&◌, ◌||◌, not, Option, none, some, str_eq, ◌==◌,
  if◌then◌else◌, strip,
}
use ekaette.Agents.Messages.{Json, text, number, Fields, get, truthy}
use ekaette.Tools.Answers.{parse_digits}
use ekaette.Tools.Shipping.Records.{or_text}

-- What Python has of Unicode and of `str`: `lower`, `upper`, the digits that `int` reads, those that
-- `isdigit` accepts, and the text of a JSON value other than a text.
pub record Python : Type 0 where
  pub lower : String → String
  pub upper : String → String
  pub decimal : Char → Option ℕ
  pub accepts_digit : Char → Bool
  pub str_of : Json → String

pub record Quote : Type 0 where
  pub service_type : String
  pub pricing_tier : String
  pub carrier_name : String
  pub display_name : String
  pub total_kobo : ℕ
  pub vat_kobo : ℕ
  pub currency : String
  pub delivery_eta : String
  pub estimated_days : ℕ
  pub min_days : Option ℕ
  pub max_days : Option ℕ

pub record Eta : Type 0 where
  pub estimated_days : ℕ
  pub min_days : Option ℕ
  pub max_days : Option ℕ

unfoldable pub without_commas : String → String
without_commas String.[] = String.[]
without_commas (String.◌∷◌ c s) =
    let rest = without_commas s in if code c == b',' then rest else String.◌∷◌ c rest

unfoldable word_at : String → String → Bool
word_at String.[] s = true
word_at (String.◌∷◌ c word) String.[] = false
word_at (String.◌∷◌ c word) (String.◌∷◌ d s) = code c == code d && word_at word s

-- `word in s`
unfoldable has_word : String → String → Bool
unfolding word_at
has_word word String.[] = word_at word String.[]
has_word word (String.◌∷◌ c s) = word_at word (String.◌∷◌ c s) || has_word word s

-- The whole part of a half, to the even number where there is none.
abbrev round_half : ℕ → ℕ
round_half n = if n % 4 == 3 then n / 2 + 1 else n / 2

module _ (py : Python) where
  unfoldable pub all_digits : String → Bool
  all_digits String.[] = true
  all_digits (String.◌∷◌ c s) = py.accepts_digit c && all_digits s

  -- `_coerce_kobo`, none where `int` raises
  unfoldable coerce_kobo : Option Json → Option ℕ
  unfolding all_digits without_commas parse_digits
  coerce_kobo (some (number (pos n))) = some n
  coerce_kobo (some (text value)) =
      let cleaned = without_commas (strip value) in
      if not (str_eq cleaned "") && all_digits cleaned
      then parse_digits py.decimal cleaned
      else some 0
  coerce_kobo _ = some 0

  -- A character in front of the digits that were read.
  abbrev with_char : Char → String × String → String × String
  with_char c (digits, rest) = (String.◌∷◌ c digits, rest)

  abbrev is_decimal : Option ℕ → Bool
  is_decimal none = false
  is_decimal (some d) = true

  -- `\d*`, and the text behind it
  unfoldable digits_of : String → String × String
  digits_of String.[] = (String.[], String.[])
  digits_of (String.◌∷◌ c s) =
      let rest = digits_of s in
      if is_decimal (py.decimal c) then with_char c rest else (String.[], String.◌∷◌ c s)

  -- `-\s*(\d+)`, at the start
  abbrev upper_digits : String → Option String
  upper_digits String.[] = none
  upper_digits (String.◌∷◌ c s) =
      let digits = (digits_of (lstrip s)).0 in
      if code c == b'-' && not (str_eq digits "") then some digits else none

  abbrev paired : String → Option String → Option (String × String)
  paired low none = none
  paired low (some high) = some (low, high)

  -- `(\d+)\s*-\s*(\d+)`, at the start
  unfoldable range_here : String → Option (String × String)
  unfolding digits_of lstrip
  range_here s =
      let low = digits_of s in
      if str_eq low.0 "" then none else paired low.0 (upper_digits (lstrip low.1))

  abbrev or_first {ℓ} : {A : Type ℓ} → Option A → Option A → Option A
  or_first none other = other
  or_first (some a) other = some a

  -- `_TOPSHIP_DAYS_RANGE_RE.search`
  unfoldable search_range : String → Option (String × String)
  unfolding range_here
  search_range String.[] = none
  search_range (String.◌∷◌ c s) = or_first (range_here (String.◌∷◌ c s)) (search_range s)

  -- `_TOPSHIP_DAYS_SINGLE_RE.search`
  unfoldable search_single : String → Option String
  unfolding digits_of
  search_single String.[] = none
  search_single (String.◌∷◌ c s) =
      let rest = search_single s in
      let digits = (digits_of (String.◌∷◌ c s)).0 in if str_eq digits "" then rest else some digits

  abbrev unknown_eta : Eta
  unknown_eta = record { estimated_days = 5; min_days = none; max_days = none }

  abbrev range_eta : String × String → Option Eta
  range_eta (low, high) = do
    min_days ← parse_digits py.decimal low
    max_days ← parse_digits py.decimal high
    some (record {
      estimated_days = round_half (min_days + max_days);
      min_days = some min_days;
      max_days = some max_days;
    })

  abbrev single_eta : Option String → Option Eta
  single_eta none = some unknown_eta
  single_eta (some digits) = do
    days ← parse_digits py.decimal digits
    some (record { estimated_days = days; min_days = some days; max_days = some days })

  abbrev range_or_single : String → Option (String × String) → Option Eta
  range_or_single raw (some range) = range_eta range
  range_or_single raw none = single_eta (search_single raw)

  -- `_parse_delivery_eta`, none where `int` raises. The average is exact below 2 ^ 53.
  unfoldable pub parse_delivery_eta : String → Option Eta
  unfolding search_range search_single parse_digits
  parse_delivery_eta eta_text =
      let raw = py.lower (strip eta_text) in
      if str_eq raw "" then some unknown_eta else range_or_single raw (search_range raw)

  unfoldable carrier_display_name : String → String → String
  unfolding has_word
  carrier_display_name pricing_tier carrier_name =
      let tier = py.lower pricing_tier in
      if not (str_eq carrier_name "")
      then carrier_name
      else if has_word "fedex" tier
      then "FedEx"
      else if has_word "dhl" tier
      then "DHL"
      else if has_word "ups" tier
      then "UPS"
      else if has_word "aramex" tier
      then "Aramex"
      else if has_word "gig" tier
      then "GIG Logistics"
      else if str_eq tier "budget"
      then "Budget Shipping"
      else if str_eq tier "express"
      then "Express Shipping"
      else if str_eq tier "premium"
      then "Premium Shipping"
      else or_text pricing_tier "Topship"

  -- `str(value or default)`
  abbrev pub str_or : Option Json → String → String
  str_or (some (text s)) default = or_text s default
  str_or none default = default
  str_or (some v) default = if truthy (some v) then py.str_of v else default

  abbrev pub eta_days : Eta → ℕ
  eta_days eta = if eta.estimated_days == 0 then 5 else eta.estimated_days

  -- `_map_rate_to_quote`, none where `int` raises
  unfoldable pub map_rate_to_quote : Fields → Option Quote
  unfolding get coerce_kobo parse_delivery_eta carrier_display_name
  map_rate_to_quote rate = do
    let service_type =
        or_text (strip (str_or (get "serviceType" rate) (str_or (get "mode" rate) "Standard")))
          "Standard"
    let pricing_tier = or_text (strip (str_or (get "pricingTier" rate) "Budget")) "Budget"
    let carrier_name =
        carrier_display_name pricing_tier (strip (str_or (get "carrierName" rate) ""))
    let delivery_eta = strip (str_or (get "deliveryEta" rate) (str_or (get "duration" rate) ""))
    total ← coerce_kobo (get "total" rate)
    total_kobo ← (if total == 0 then coerce_kobo (get "cost" rate) else some total)
    vat_kobo ← coerce_kobo (get "vat" rate)
    eta ← parse_delivery_eta delivery_eta
    some (record {
      service_type = service_type;
      pricing_tier = pricing_tier;
      carrier_name = carrier_name;
      display_name = carrier_name <> (" - " <> service_type);
      total_kobo = total_kobo;
      vat_kobo = vat_kobo;
      currency = py.upper (str_or (get "currency" rate) "NGN");
      delivery_eta = delivery_eta;
      estimated_days = eta_days eta;
      min_days = eta.min_days;
      max_days = eta.max_days;
    })
