-- ===== src/Tools/Double/Accuracy.antt =====
-- A rounding changes a number by at most a part in 2 ^ 53.
use native.Mathlib.Nat.{mul_assoc, le-div_iff_mul-le, pow-suc, div-add-mod, mod-lt}
use ekaette.Prelude.{
  ℕ, zero, suc, ◌+◌, ◌-◌, ◌*◌, ◌/◌, ◌^◌, ◌≤◌, ◌<◌, ◌≡◌, refl, sym, ap, ◌∙◌, ◌⊎◌, inl, inr, false,
  arith, leb, ◌==◌, Bool-cases,
}
use ekaette.Tools.Double.{bit_length, round_to, last_place, round53, times_double}

two_pow_cong : (a b : ℕ) → a ≡ b → 2 ^ a ≡ 2 ^ b
two_pow_cong a b e = ap (λ (k : ℕ). 2 ^ k) e

pow_add : (a k : ℕ) → 2 ^ (a + k) ≡ 2 ^ a * 2 ^ k
pow_add zero k =
    let e : 2 ^ (0 + k) ≡ 2 ^ k = ap (λ (n : ℕ). 2 ^ n) (omega arith) in omega (arith, e)
pow_add (suc a) k =
    let e : 2 ^ (suc a + k) ≡ 2 ^ suc (a + k) = ap (λ (n : ℕ). 2 ^ n) (omega arith) in
    let p = 2 ^ a in let r = 2 ^ k in grind (arith, e, pow-suc 2 (a + k), pow-suc 2 a, pow_add a k)

bit_length-zero : (fuel : ℕ) → bit_length fuel 0 ≡ 0
unfolding bit_length
bit_length-zero zero = refl
bit_length-zero (suc fuel) = refl

bit_length_bound : (fuel n : ℕ) → 0 < n → 2 ^ bit_length fuel n ≤ 2 * n
unfolding bit_length
bit_length_bound zero n h = omega arith
bit_length_bound (suc fuel) n h =
    let positive : (n == 0) ≡ false = ground arith in
    rw positive (elim (Bool-cases (n / 2 == 0)) [
      | inl small ↦
          let half : n / 2 ≡ 0 = ground arith in rw (half, bit_length-zero fuel) (omega arith)
      | inr large ↦
          let half : 0 < n / 2 = ground arith in
          omega (arith, bit_length_bound fuel (n / 2) half, pow-suc 2 (bit_length fuel (n / 2)))
    ])

-- The rounded number is within half a unit.
pub round_to_near :
    (unit n : ℕ)
    → 0 < unit
    → (2 * round_to unit n ≤ 2 * n + unit) × (2 * n ≤ 2 * round_to unit n + unit)
unfolding round_to
round_to_near unit n h = let split = div-add-mod n unit in ground (arith, split, mod-lt n h)

power_small : (b n : ℕ) → 2 ^ b ≤ 2 * n → (2 ^ (b - 53) ≡ 1) ⊎ (2 ^ 52 * 2 ^ (b - 53) ≤ n)
power_small b n h = elim (Bool-cases (leb b 53)) [
  | inl few ↦ let none_over : b - 53 ≡ 0 = ground arith in inl (ap (λ (k : ℕ). 2 ^ k) none_over)
  | inr many ↦
      let split : b ≡ 53 + (b - 53) = ground arith in
      let e : 2 ^ b ≡ 2 ^ (53 + (b - 53)) = ap (λ (k : ℕ). 2 ^ k) split in
      inr (omega (arith, e, pow_add 53 (b - 53)))
]

power_pos : (k : ℕ) → 0 < 2 ^ k
power_pos zero = omega arith
power_pos (suc k) = omega (arith, pow-suc 2 k, power_pos k)

-- The unit of a number that has more than 53 bits is small against it.
last_place_small : (n : ℕ) → 0 < n → (last_place n ≡ 1) ⊎ (2 ^ 52 * last_place n ≤ n)
unfolding last_place
last_place_small n h = power_small (bit_length 2048 n) n (bit_length_bound 2048 n h)

round_to-one : (n : ℕ) → round_to 1 n ≡ n
unfolding round_to
round_to-one n = ground arith

last_place_pos : (n : ℕ) → 0 < last_place n
unfolding last_place
last_place_pos n = power_pos (bit_length 2048 n - 53)

-- Rounding to 53 bits changes a number by at most a part in 2 ^ 53.
pub round53_near :
    (n : ℕ) → 0 < n → (2 ^ 53 * round53 n ≤ 2 ^ 53 * n + n) × (2 ^ 53 * n ≤ 2 ^ 53 * round53 n + n)
unfolding round53
round53_near n h = elim (last_place_small n h) [
  | inl unit ↦ rw (unit, round_to-one n) (omega arith)
  | inr small ↦ let (up, down) = round_to_near (last_place n) n (last_place_pos n) in omega arith
]

-- A number of at most 53 bits is not changed.
bit_length_le : (fuel k n : ℕ) → n < 2 ^ k → bit_length fuel n ≤ k
unfolding bit_length
bit_length_le zero k n h = omega arith
bit_length_le (suc fuel) zero n h = ground arith
bit_length_le (suc fuel) (suc k) n h =
    let below : n / 2 < 2 ^ k = omega (arith, pow-suc 2 k) in
    ground (arith, bit_length_le fuel k (n / 2) below)

pub round53_exact : (n : ℕ) → n < 2 ^ 53 → round53 n ≡ n
unfolding round53 last_place
round53_exact n h =
    let few : bit_length 2048 n - 53 ≡ 0 = omega (arith, bit_length_le 2048 53 n h) in
    rw few (round_to-one n)

-- Rounding does not go below a multiple of the unit.
round_to_ge : (unit m n : ℕ) → 0 < unit → m * unit ≤ n → m * unit ≤ round_to unit n
unfolding round_to
round_to_ge unit m n h le =
    let q : m ≤ n / unit = (le-div_iff_mul-le h).1 le in
    let p : m * unit ≤ n / unit * unit = grind arith in ground arith

-- Nor below a whole number, where 52 binary places follow the point.
pub round53_ge : (m n : ℕ) → n < 2 ^ 105 → m * 2 ^ 52 ≤ n → m * 2 ^ 52 ≤ round53 n
unfolding round53 last_place
round53_ge m n h le =
    let j = bit_length 2048 n - 53 in
    let few : j ≤ 52 = omega (arith, bit_length_le 2048 105 n h) in
    let sum : 52 ≡ 52 - j + j = omega arith in
    let split : 2 ^ 52 ≡ 2 ^ (52 - j) * 2 ^ j =
      two_pow_cong 52 (52 - j + j) sum ∙ pow_add (52 - j) j in
    let whole : m * 2 ^ 52 ≡ m * 2 ^ (52 - j) * 2 ^ j =
      ap (λ (t : ℕ). m * t) split ∙ sym (mul_assoc m (2 ^ (52 - j)) (2 ^ j)) in
    rw whole (round_to_ge (2 ^ j) (m * 2 ^ (52 - j)) n (power_pos j) (rw whole at le))

-- The product, where the amount is exact as a double.
pub times_double_near :
    (n numerator : ℕ)
    → n < 2 ^ 53
    → (2 ^ 53 * times_double n numerator ≤ 2 ^ 53 * (n * numerator) + n * numerator)
      × (2 ^ 53 * (n * numerator) ≤ 2 ^ 53 * times_double n numerator + n * numerator)
unfolding times_double
times_double_near n numerator small =
    rw (round53_exact n small) (elim (Bool-cases (n * numerator == 0)) [
      | inl nothing ↦
          let zeroed : n * numerator ≡ 0 = ground arith in
          rw (zeroed, round53_exact 0 (omega arith)) (omega arith)
      | inr some_amount ↦ round53_near (n * numerator) (ground arith)
    ])
