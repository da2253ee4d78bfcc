-- ===== src/Tools/Negotiation/Tests.antt =====
-- Negotiations of app/tools/valuation_tools.py, in naira.
use ekaette.Prelude.{ℕ, ◌+◌, ◌*◌, ◌≤◌, ◌≡◌, refl, ◌↔◌, ◌⊎◌, true, arith}
use ekaette.Prelude.Int.{pos, ◌+ℤ◌, ◌≤ℤ◌, ◌<ℤ◌}
use ekaette.Tools.Double.{times_double, round53, round_to, last_place, bit_length}
use ekaette.Tools.Negotiation.{
  accept, reject, counter, is_within_threshold, hard_reject_ceiling, process_negotiation,
}
use ekaette.Tools.Negotiation.Laws.{
  counter_bounds, is_within_threshold_exact, hard_reject_ceiling_near,
}

-- The double next to 1.15 is below it: 115 is not more than fifteen per cent above 100, and is
-- rejected.
reject_at_fifteen_percent :
    process_negotiation (pos 100) (pos 115) (pos 100) ≡ reject (pos 100) (pos 100) (pos 114)
unfolding process_negotiation is_within_threshold hard_reject_ceiling times_double round53 round_to
    last_place bit_length ◌+ℤ◌
reject_at_fifteen_percent = refl

accept_within_threshold :
    process_negotiation (pos 100000) (pos 105000) (pos 110000) ≡ accept (pos 100000) (pos 105000)
unfolding process_negotiation is_within_threshold hard_reject_ceiling times_double round53 round_to
    last_place bit_length ◌+ℤ◌
accept_within_threshold = refl

moderate_ask :
    process_negotiation (pos 100000) (pos 120000) (pos 115000) ≡ counter (pos 100000) (pos 110000)
unfolding process_negotiation is_within_threshold hard_reject_ceiling times_double round53 round_to
    last_place bit_length ◌+ℤ◌
moderate_ask = refl

counter_bounds_example :
    (pos 100000 ≡ pos 100000)
    × (pos 110000 ≤ℤ pos 115000)
    × (pos 110000 <ℤ pos 120000)
    × ((pos 100000 ≤ℤ pos 110000) ⊎ (pos 110000 ≡ pos 115000))
counter_bounds_example =
    counter_bounds (pos 100000) (pos 120000) (pos 115000) (pos 100000) (pos 110000) moderate_ask

is_within_threshold_exact_example :
    (is_within_threshold (pos 100000) (pos 105000) ≡ true) ↔ (20 * 105000 ≤ 21 * 100000)
is_within_threshold_exact_example = is_within_threshold_exact 100000 105000 (omega arith)

hard_reject_ceiling_near_example :
    (c : ℕ) × (hard_reject_ceiling (pos 100) ≡ pos c)
    × (20 * c ≤ 23 * 100)
    × (23 * 100 ≤ 20 * c + 20)
hard_reject_ceiling_near_example = hard_reject_ceiling_near 100 (omega arith)
