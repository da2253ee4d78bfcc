-- ===== src/Tools/Negotiation.antt =====
-- app/tools/valuation_tools.py: `process_negotiation`. Amounts are Python integers.
pub mod Laws
mod Tests
use ekaette.Prelude.{ℕ, suc, ◌*◌, ◌/◌, Bool, true, false, leb, if◌then◌else◌}
use ekaette.Prelude.Int.{
  ℤ, pos, negsuc, negated, pos_part, neg_part, ◌+ℤ◌, half_ℤ, leb_ℤ, ltb_ℤ, min_ℤ,
}
use ekaette.Tools.Double.{times_double}

pub data Decision : Type 0 where
  -- "offer_amount" and "final_amount"
  accept : ℤ → ℤ → Decision
  -- "offer_amount", "max_amount" and "reject_threshold"
  reject : ℤ → ℤ → ℤ → Decision
  -- "offer_amount" and "counter_amount"
  counter : ℤ → ℤ → Decision

-- `1 + ACCEPT_THRESHOLD` and `1 + REJECT_THRESHOLD_ABOVE_MAX` as doubles, over 2 ^ 52: the doubles
-- next to 1.05 and 1.15.
abbrev pub accept_factor : ℕ
accept_factor = 4728779608739021

abbrev pub reject_factor : ℕ
reject_factor = 5179139571476070

abbrev pub places : ℕ
places = 4503599627370496

-- `customer_ask <= offer_amount * (1 + ACCEPT_THRESHOLD)`, an exact comparison of an integer with a
-- double
unfoldable pub is_within_threshold : ℤ → ℤ → Bool
is_within_threshold (pos offer) (pos ask) = leb (ask * places) (times_double offer accept_factor)
is_within_threshold (pos offer) (negsuc ask) = true
is_within_threshold (negsuc offer) (pos ask) = false
is_within_threshold (negsuc offer) (negsuc ask) =
    leb (times_double (suc offer) accept_factor) (suc ask * places)

-- `int(max_amount * (1 + REJECT_THRESHOLD_ABOVE_MAX))`, which rounds towards zero
unfoldable pub hard_reject_ceiling : ℤ → ℤ
hard_reject_ceiling (pos n) = pos (times_double n reject_factor / places)
hard_reject_ceiling (negsuc n) = negated (times_double (suc n) reject_factor / places)

unfoldable pub process_negotiation : ℤ → ℤ → ℤ → Decision
process_negotiation offer_amount customer_ask max_amount =
    if leb_ℤ customer_ask (pos 0)
    then accept offer_amount offer_amount
    else if leb_ℤ customer_ask offer_amount
    then accept offer_amount offer_amount
    else if is_within_threshold offer_amount customer_ask
    then accept offer_amount customer_ask
    else if ltb_ℤ (hard_reject_ceiling max_amount) customer_ask
    then reject offer_amount max_amount (hard_reject_ceiling max_amount)
    else counter offer_amount (min_ℤ (half_ℤ (offer_amount +ℤ customer_ask)) max_amount)
