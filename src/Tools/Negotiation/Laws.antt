-- ===== src/Tools/Negotiation/Laws.antt =====
-- What `process_negotiation` of app/tools/valuation_tools.py decides.
use ekaette.Prelude.{ℕ, ◌+◌, ◌*◌, ◌/◌, ◌^◌, ◌≤◌, ◌<◌, ◌≡◌, refl, ◌↔◌, ◌⊎◌, true, arith}
use ekaette.Prelude.Int.{ℤ, pos, ◌+ℤ◌, ◌≤ℤ◌, ◌<ℤ◌}
use ekaette.Tools.Double.{times_double}
use ekaette.Tools.Double.Accuracy.{times_double_near, round53_exact, round53_ge}
use ekaette.Tools.Negotiation.{
  counter, accept_factor, reject_factor, places, is_within_threshold, hard_reject_ceiling,
  process_negotiation,
}

-- A counter-offer is at most the maximum and less than the customer asks, and is no less than the
-- first offer unless it is the maximum.
pub counter_bounds :
    (offer ask most o c : ℤ)
    → process_negotiation offer ask most ≡ counter o c
    → (o ≡ offer) × (c ≤ℤ most) × (c <ℤ ask) × ((offer ≤ℤ c) ⊎ (c ≡ most))
unfolding process_negotiation ◌+ℤ◌
counter_bounds offer ask most o c h = ground arith

threshold_reached :
    (offer ask : ℕ)
    → offer < 2 ^ 40
    → 20 * ask ≤ 21 * offer
    → ask * places ≤ times_double offer accept_factor
unfolding times_double
threshold_reached offer ask small h =
    rw (round53_exact offer (omega arith))
      (round53_ge ask (offer * accept_factor) (omega arith) (omega arith))

-- The five per cent: of non-negative amounts below 2 ^ 40 an ask is within the threshold exactly if it
-- is at most 1.05 times the offer.
pub is_within_threshold_exact :
    (offer ask : ℕ)
    → offer < 2 ^ 40
    → (is_within_threshold (pos offer) (pos ask) ≡ true) ↔ (20 * ask ≤ 21 * offer)
unfolding is_within_threshold
is_within_threshold_exact offer ask small =
    let (up, down) = times_double_near offer accept_factor (omega arith) in
    (
      λ h. let le : ask * places ≤ times_double offer accept_factor = ground arith in omega arith,
      λ h.
          let le : ask * places ≤ times_double offer accept_factor =
            threshold_reached offer ask small h in
          ground arith,
    )

-- The ceiling: at most 1.15 times the maximum, and less than that by at most 1. (The double is a
-- little less than 1.15, so where 1.15 times the maximum is whole the ceiling can be one below.)
pub hard_reject_ceiling_near :
    (most : ℕ)
    → most < 2 ^ 40
    → (c : ℕ) × (hard_reject_ceiling (pos most) ≡ pos c)
      × (20 * c ≤ 23 * most)
      × (23 * most ≤ 20 * c + 20)
unfolding hard_reject_ceiling
hard_reject_ceiling_near most small =
    let (up, down) = times_double_near most reject_factor (omega arith) in
    (times_double most reject_factor / places, refl, omega arith, omega arith)
