-- ===== src/Tools/TradeIn/Tests.antt =====
-- Offers of app/tools/valuation_tools.py, in naira.
use ekaette.Prelude.{◌≡◌, refl, none, some, arith}
use ekaette.Prelude.Int.{pos, ◌≤ℤ◌}
use ekaette.Dict.{lookup}
use ekaette.Tools.Double.{times_double, round53, round_to, last_place, bit_length}
use ekaette.Tools.Grading.{grade_at}
use ekaette.Tools.TradeIn.{multiplier, percentage_offer, calculate_trade_in_value}
use ekaette.Tools.TradeIn.Laws.{offer_falls, default_pricing-IsOrdered}

listed : (calculate_trade_in_value "iPhone 14" "Fair" none none).offer_amount ≡ pos 180000
unfolding calculate_trade_in_value lookup
listed = refl

-- 0.45 of 250001 is 112500.45
by_percentage : percentage_offer 250001 (multiplier "Fair") ≡ 112500
unfolding percentage_offer multiplier lookup times_double round53 round_to last_place bit_length
by_percentage = refl

offer_falls_example :
    (calculate_trade_in_value "Tecno" (grade_at 3) none (some (pos 90000))).offer_amount
    ≤ℤ (calculate_trade_in_value "Tecno" (grade_at 1) none (some (pos 90000))).offer_amount
offer_falls_example =
    offer_falls "Tecno" none (some (pos 90000)) 1 3 default_pricing-IsOrdered (omega arith)
      (omega arith) (omega arith)
