-- ===== src/Tools/TradeIn.antt =====
-- app/tools/valuation_tools.py: `calculate_trade_in_value`, with its tables. Prices are integers, as
-- the tables' type says; a device's entry that is no dict is `none`. "currency" and "formatted" are
-- left out.
pub mod Laws
mod Tests
use ekaette.Prelude.{ℕ, suc, ◌/◌, String, Option, none, some, [], ◌∷◌, str_eq, if◌then◌else◌}
use ekaette.Prelude.Int.{ℤ, pos, negsuc}
use ekaette.Dict.{Dict, lookup}
use ekaette.Tools.Double.{times_double, round_to}

abbrev pub Prices : Type 0
Prices = Dict ℤ

abbrev pub PricingTable : Type 0
PricingTable = Dict (Option Prices)

abbrev pub row : ℕ → ℕ → ℕ → ℕ → Option Prices
row excellent good fair poor = some (
    ("Excellent", pos excellent)
    ∷ ("Good", pos good)
    ∷ ("Fair", pos fair)
    ∷ ("Poor", pos poor)
    ∷ [])

abbrev pub default_pricing : PricingTable
default_pricing =
    ("iPhone 15 Pro Max", row 650000 550000 430000 280000)
    ∷ ("iPhone 15 Pro", row 520000 440000 340000 220000)
    ∷ ("iPhone 15", row 380000 320000 250000 160000)
    ∷ ("iPhone 14 Pro Max", row 420000 350000 270000 175000)
    ∷ ("iPhone 14 Pro", row 350000 290000 225000 145000)
    ∷ ("iPhone 14", row 280000 230000 180000 115000)
    ∷ ("iPhone 13", row 200000 165000 125000 80000)
    ∷ ("Samsung S24 Ultra", row 550000 460000 360000 235000)
    ∷ ("Samsung S24", row 320000 270000 210000 140000)
    ∷ ("Samsung S23", row 230000 190000 150000 95000)
    ∷ ("Google Pixel 8 Pro", row 280000 230000 180000 115000)
    ∷ ("Google Pixel 8", row 200000 165000 130000 85000)
    ∷ []

-- `TRADE_IN_MULTIPLIERS`: the doubles next to 0.68, 0.58, 0.45 and 0.29, over 2 ^ 54
abbrev pub trade_in_multipliers : Dict ℕ
trade_in_multipliers =
    ("Excellent", 12249790986447750)
    ∷ ("Good", 10448351135499550)
    ∷ ("Fair", 8106479329266893)
    ∷ ("Poor", 5224175567749775)
    ∷ []

abbrev pub places : ℕ
places = 18014398509481984

abbrev pub or_fair : Option ℕ → ℕ
or_fair none = 8106479329266893
or_fair (some multiplier) = multiplier

unfoldable pub multiplier : String → ℕ
multiplier grade = or_fair (lookup grade trade_in_multipliers)

-- `round(retail_price * multiplier)`, to the nearest integer, ties to the even one
unfoldable pub percentage_offer : ℕ → ℕ → ℕ
percentage_offer retail_price factor = round_to places (times_double retail_price factor) / places

-- How the offer was found: "pricing_method" and "retail_price", or "error".
pub data Method : Type 0 where
  priced : Method
  percentage : ℕ → Method
  not_found : Method

pub record TradeIn : Type 0 where
  pub device_name : String
  pub grade : String
  pub offer_amount : ℤ
  pub method : Method

abbrev pub price_or_zero : Option ℤ → ℤ
price_or_zero none = pos 0
price_or_zero (some price) = price

-- the fallback from the retail price
unfoldable pub fallback : String → String → Option ℤ → TradeIn
fallback device_name grade (some (pos (suc n))) = record {
  device_name = device_name;
  grade = grade;
  offer_amount = pos (percentage_offer (suc n) (multiplier grade));
  method = percentage (suc n);
}
fallback device_name grade retail_price = record {
  device_name = device_name;
  grade = grade;
  offer_amount = pos 0;
  method = not_found;
}

-- what the table has for the device
unfoldable pub from_entry : String → String → Option ℤ → Option (Option Prices) → TradeIn
unfolding fallback
from_entry device_name grade retail_price (some (some device_prices)) = record {
  device_name = device_name;
  grade = grade;
  offer_amount = price_or_zero (lookup grade device_prices);
  method = priced;
}
from_entry device_name grade retail_price entry = fallback device_name grade retail_price

abbrev pub table_or_default : Option PricingTable → PricingTable
table_or_default none = default_pricing
table_or_default (some table) = table

unfoldable pub calculate_trade_in_value : String → String → Option PricingTable → Option ℤ → TradeIn
unfolding from_entry
calculate_trade_in_value device_name grade pricing_table retail_price =
    from_entry device_name grade retail_price (
      if str_eq device_name "Unknown"
      then none
      else lookup device_name (table_or_default pricing_table))
