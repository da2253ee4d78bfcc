-- ===== src/Tools/TradeIn/Laws.antt =====
-- How the offers of app/tools/valuation_tools.py depend on the retail price and on the grade.
use ekaette.Prelude.{
  ℕ, zero, suc, ◌+◌, ◌*◌, ◌/◌, ◌^◌, ◌≤◌, ◌<◌, String, ◌≡◌, refl, inl, inr, Bool, true, Option, none,
  some, [], ◌∷◌, arith, str_eq, leb, if◌then◌else◌, Bool-cases, All, second, dec_lt,
}
use ekaette.Prelude.Int.{ℤ, pos, negsuc, ◌≤ℤ◌}
use ekaette.Prelude.Tables.{passes_to, passes}
use ekaette.Dict.{lookup}
use ekaette.Tools.Double.{round53, last_place, bit_length, times_double, round_to}
use ekaette.Tools.Double.Accuracy.{round_to_near, times_double_near}
use ekaette.Tools.Grading.{grade_at}
use ekaette.Tools.TradeIn.{
  Prices, PricingTable, price_or_zero, fallback, from_entry, default_pricing, table_or_default,
  calculate_trade_in_value, places, multiplier, percentage_offer, pos, ℤ, negsuc,
}

-- The percentages of the retail price, from Excellent to Poor.
abbrev pub percent : ℕ → ℕ
percent zero = 68
percent (suc zero) = 58
percent (suc (suc zero)) = 45
percent (suc (suc (suc i))) = 29

round_to-whole : (n : ℕ) → round_to places n ≡ round_to places n / places * places
unfolding round_to
round_to-whole n = ground arith

-- The two roundings: of the product to a double, and of the double to a whole number.
roundings_near :
    (retail factor : ℕ)
    → retail < 2 ^ 40
    → (2 ^ 54 * (places * percentage_offer retail factor)
        ≤ 2 ^ 54 * (retail * factor) + 2 * (retail * factor) + 2 ^ 53 * places)
      × (2 ^ 54 * (retail * factor)
          ≤ 2 ^ 54 * (places * percentage_offer retail factor)
            + 2 * (retail * factor)
            + 2 ^ 53 * places)
unfolding percentage_offer
roundings_near retail factor small =
    let t = times_double retail factor in
    let product = times_double_near retail factor (omega arith) in
    let whole = round_to_near places t (omega arith) in
    omega (arith, product, whole, round_to-whole t)

-- The offer of a percentage is within half a naira of it, for a retail price below 2 ^ 40.
percentage_offer_near :
    (retail i : ℕ)
    → retail < 2 ^ 40
    → (200 * percentage_offer retail (multiplier (grade_at i)) ≤ 2 * (percent i * retail) + 100)
      × (2 * (percent i * retail) ≤ 200 * percentage_offer retail (multiplier (grade_at i)) + 100)
unfolding multiplier grade_at lookup
percentage_offer_near retail zero small =
    omega (arith, roundings_near retail 12249790986447750 small)
percentage_offer_near retail (suc zero) small =
    omega (arith, roundings_near retail 10448351135499550 small)
percentage_offer_near retail (suc (suc zero)) small =
    omega (arith, roundings_near retail 8106479329266893 small)
percentage_offer_near retail (suc (suc (suc i))) small =
    omega (arith, roundings_near retail 5224175567749775 small)

-- The percentages of a small retail price, from the next worse grade.
falls : ℕ → ℕ → Bool
falls i retail =
    leb (percentage_offer retail (multiplier (grade_at (suc i))))
      (percentage_offer retail (multiplier (grade_at i)))

falls_table :
    (passes_to (falls 0) 16 ≡ true)
    × (passes_to (falls 1) 16 ≡ true)
    × (passes_to (falls 2) 16 ≡ true)
unfolding passes_to falls percentage_offer multiplier grade_at lookup times_double round53 round_to
    last_place bit_length
falls_table = (refl, refl, refl)

percentage_step :
    (retail i : ℕ)
    → retail < 2 ^ 40
    → passes_to (falls i) 16 ≡ true
    → percent (suc i) + 10 ≤ percent i
    → percentage_offer retail (multiplier (grade_at (suc i)))
      ≤ percentage_offer retail (multiplier (grade_at i))
unfolding falls
percentage_step retail i small table apart = elim (dec_lt retail 16) [
  | yes low ↦ let h = passes (falls i) 16 retail low table in ground (arith, h)
  | no high ↦
      let apart_all : (percent (suc i) + 10) * retail ≤ percent i * retail = grind arith in
      let spread : (percent (suc i) + 10) * retail ≡ percent (suc i) * retail + 10 * retail =
        grind arith in
      omega (
        arith,
        percentage_offer_near retail i small,
        percentage_offer_near retail (suc i) small,
        apart_all,
        spread,
      )
]

-- Values that fall from each of four to the next.
abbrev pub IsFalling : (ℕ → ℤ) → Type 0
IsFalling f = (f 1 ≤ℤ f 0) × (f 2 ≤ℤ f 1) × (f 3 ≤ℤ f 2)

falling_step : (f : ℕ → ℤ) (i : ℕ) → IsFalling f → i < 3 → f (suc i) ≤ℤ f i
falling_step f zero falling h = falling.0
falling_step f (suc zero) falling h = falling.1
falling_step f (suc (suc zero)) falling h = falling.2
falling_step f (suc (suc (suc i))) falling h = absurd (omega arith)

falling_le : (f : ℕ → ℤ) (i j : ℕ) → IsFalling f → i ≤ j → j ≤ 3 → f j ≤ℤ f i
falling_le f i zero falling le bound = let e : i ≡ 0 = omega arith in rw e (omega arith)
falling_le f i (suc j) falling le bound = elim (dec_lt i (suc j)) [
  | yes below ↦ omega (
    arith,
    falling_le f i j falling (omega arith) (omega arith),
    falling_step f j falling (omega arith),
  )
  | no same ↦ let e : i ≡ suc j = omega arith in rw e (omega arith)
]

percentage_falls :
    (retail : ℕ)
    → retail < 2 ^ 40
    → IsFalling (λ i. pos (percentage_offer retail (multiplier (grade_at i))))
percentage_falls retail small =
    let (first, second, third) = falls_table in
    omega (
      arith,
      percentage_step retail 0 small first (omega arith),
      percentage_step retail 1 small second (omega arith),
      percentage_step retail 2 small third (omega arith),
    )

-- No device is listed at a lower price for a better grade.
abbrev pub entry_prices : Option Prices → ℕ → ℤ
entry_prices none i = pos 0
entry_prices (some prices) i = price_or_zero (lookup (grade_at i) prices)

abbrev pub IsOrdered : PricingTable → Type 0
IsOrdered table = All (λ (entry : String × Option Prices). IsFalling (entry_prices entry.1)) table

pub default_pricing-IsOrdered : IsOrdered default_pricing
unfolding lookup grade_at
default_pricing-IsOrdered = omega arith

ordered_entry :
    (table : PricingTable) (device : String) (entry : Option Prices)
    → IsOrdered table
    → lookup device table ≡ some entry
    → IsFalling (entry_prices entry)
unfolding lookup
ordered_entry [] device entry ordered h = cc
ordered_entry ((name, first) ∷ table) device entry ordered h =
    elim (Bool-cases (str_eq name device)) [
      | inl here ↦ let e : first ≡ entry = ground arith in rw e at ordered.0
      | inr there ↦ ordered_entry table device entry ordered.1 (ground arith)
    ]

-- The retail price is below 2 ^ 40, if it is given.
abbrev pub IsSmall : Option ℤ → Type 0
IsSmall (some (pos n)) = n < 2 ^ 40
IsSmall _ = Unit

fallback_falls :
    (device : String) (retail_price : Option ℤ)
    → IsSmall retail_price
    → IsFalling (λ i. (fallback device (grade_at i) retail_price).offer_amount)
unfolding fallback
fallback_falls device none small = omega arith
fallback_falls device (some (pos zero)) small = omega arith
fallback_falls device (some (pos (suc n))) small = percentage_falls (suc n) small
fallback_falls device (some (negsuc n)) small = omega arith

found_falls :
    (device : String) (retail_price : Option ℤ) (found : Option (Option Prices))
    → IsSmall retail_price
    → ((entry : Option Prices) → found ≡ some entry → IsFalling (entry_prices entry))
    → IsFalling (λ i. (from_entry device (grade_at i) retail_price found).offer_amount)
unfolding from_entry
found_falls device retail_price none small listed = fallback_falls device retail_price small
found_falls device retail_price (some none) small listed = fallback_falls device retail_price small
found_falls device retail_price (some (some prices)) small listed = listed (some prices) refl

-- A worse grade never gets more: of one device, table and retail price, where the table lists no
-- device at a lower price for a better grade (a grade that is missing from a row counted as a price
-- of 0) and the retail price is below 2 ^ 40, the offer for a grade is at most the offer for each
-- better one.
pub offer_falls :
    (device : String) (table : Option PricingTable) (retail_price : Option ℤ) (better worse : ℕ)
    → IsOrdered (table_or_default table)
    → IsSmall retail_price
    → better ≤ worse
    → worse ≤ 3
    → (calculate_trade_in_value device (grade_at worse) table retail_price).offer_amount
      ≤ℤ (calculate_trade_in_value device (grade_at better) table retail_price).offer_amount
unfolding calculate_trade_in_value
offer_falls device table retail_price better worse ordered small le bound =
    let found : Option (Option Prices) =
      if str_eq device "Unknown" then none else lookup device (table_or_default table) in
    falling_le (λ i. (from_entry device (grade_at i) retail_price found).offer_amount) better worse
      (found_falls device retail_price found small
        (λ entry e. ordered_entry (table_or_default table) device entry ordered (ground arith)))
      le bound
