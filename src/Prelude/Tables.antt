-- ===== src/Prelude/Tables.antt =====
-- Properties of the numbers below a small bound, decided by running a test on each.
use Prim.Native.Nat.{ℕ, zero, suc, ◌<◌}
use mathlib.Core.Path.{◌≡◌}
use mathlib.Core.Bool.{Bool, true, ◌&&◌}
use native.Mathlib.Omega.{arith}
use native.Mathlib.Decide.{dec_lt}
use ekaette.Prelude.Tests.{◌==◌}

module _ (test : ℕ → Bool) where
  unfoldable pub passes_to : ℕ → Bool
  passes_to zero = true
  passes_to (suc bound) = passes_to bound && test bound

  pub passes : (bound i : ℕ) → i < bound → passes_to bound ≡ true → test i ≡ true
  unfolding passes_to
  passes zero i below h = absurd (omega arith)
  passes (suc bound) i below h = elim (dec_lt i bound) [
    | yes earlier ↦ passes bound i earlier (ground arith)
    | no later ↦ let e : i ≡ bound = omega arith in rw e (ground arith)
  ]

pub ==→≡ : (a b : ℕ) → (a == b) ≡ true → a ≡ b
==→≡ a b h = ground arith
