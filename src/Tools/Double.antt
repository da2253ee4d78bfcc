-- ===== src/Tools/Double.antt =====
-- Python's product of an integer and a float, on the magnitudes: the integer becomes the nearest
-- double, and the exact product is rounded to the nearest double, ties to the even one. A double is
-- a natural number of 53 significant bits with a power of two as its denominator, which the caller
-- keeps. Exponents are not bounded: amounts of 2 ^ 1023 and more are outside the model.
pub mod Accuracy
use ekaette.Prelude.{
  ℕ, zero, suc, ◌+◌, ◌-◌, ◌*◌, ◌/◌, ◌%◌, ◌^◌, ◌&&◌, ◌||◌, ltb, ◌==◌, if◌then◌else◌,
}

-- The number of binary digits, at most `fuel`.
unfoldable pub bit_length : ℕ → ℕ → ℕ
bit_length zero n = 0
bit_length (suc fuel) n = let rest = bit_length fuel (n / 2) in if n == 0 then 0 else suc rest

-- n to the nearest multiple of `unit`, ties to the even multiple
unfoldable pub round_to : ℕ → ℕ → ℕ
round_to unit n =
    let q = n / unit in
    let r = n % unit in
    if ltb unit (2 * r) || (2 * r == unit && q % 2 == 1) then (q + 1) * unit else q * unit

-- the weight of the last of 53 bits
unfoldable pub last_place : ℕ → ℕ
last_place n = 2 ^ (bit_length 2048 n - 53)

unfoldable pub round53 : ℕ → ℕ
round53 n = round_to (last_place n) n

-- The numerator of `n * x` for a double x with that numerator, over the denominator of x.
unfoldable pub times_double : ℕ → ℕ → ℕ
times_double n numerator = round53 (round53 n * numerator)
