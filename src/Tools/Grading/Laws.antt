-- ===== src/Tools/Grading/Laws.antt =====
-- What `adjust_grade_from_questionnaire` of app/tools/valuation_tools.py makes of the answers.
use Prim.Native.Char.{Char}
use ekaette.Prelude.{
  ℕ, zero, suc, ◌+◌, ◌≤◌, min, String, ◌≡◌, refl, ap, ◌∙◌, inl, inr, true, Option, none, some, List,
  [], ◌∷◌, ◌++◌, arith, eq_iff, ltb, if◌then◌else◌, Bool-cases, length, length-append,
}
use ekaette.Dict.{Dict, lookup, key_in}
use ekaette.Tools.Answers.{Value, is_true, parse_battery}
use ekaette.Tools.Grading.{
  Adjustment, one_step, grade_index, grade_at, downgrade, known_grade, adjust_battery, adjust_steps,
  find_forcing, adjust_grade, forcing_keys, downgrade_keys,
}

-- How many of the keys are answered True.
unfoldable pub count_true : List String → Dict Value → ℕ
count_true [] answers = 0
count_true (key ∷ keys) answers =
    let rest = count_true keys answers in if is_true (lookup key answers) then suc rest else rest

-- The steps and the sentences that the battery costs.
abbrev pub battery_steps : Option ℕ → ℕ
battery_steps none = 0
battery_steps (some pct) = if ltb pct 60 then 2 else if ltb pct 80 then 1 else 0

grade_index-le : (grade : String) → grade_index grade ≤ 3
unfolding grade_index
grade_index-le grade = ground arith

grade_index-grade_at : (i : ℕ) → i ≤ 3 → grade_index (grade_at i) ≡ i
unfolding grade_index grade_at
grade_index-grade_at zero h = refl
grade_index-grade_at (suc zero) h = refl
grade_index-grade_at (suc (suc zero)) h = refl
grade_index-grade_at (suc (suc (suc i))) h = omega arith

known_grade_lem : (grade : String) → known_grade grade ≡ grade_at (grade_index grade)
unfolding grade_index grade_at
known_grade_lem grade = ground (
  arith,
  eq_iff "Excellent" grade,
  eq_iff "Good" grade,
  eq_iff "Fair" grade,
  eq_iff "Poor" grade,
  eq_iff grade "Excellent",
  eq_iff grade "Good",
  eq_iff grade "Fair",
  eq_iff grade "Poor",
)

downgrade-grade_at : (i n : ℕ) → i ≤ 3 → downgrade (grade_at i) n ≡ grade_at (min (i + n) 3)
unfolding downgrade
downgrade-grade_at i n h = rw (grade_index-grade_at i h)

adjust_battery-grade_at :
    (pct : Option ℕ) (i : ℕ)
    → i ≤ 3
    → (adjust_battery pct (grade_at i)).0 ≡ grade_at (min (i + battery_steps pct) 3)
unfolding adjust_battery
adjust_battery-grade_at none i h = ap grade_at (omega arith)
adjust_battery-grade_at (some pct) i h =
    let same : grade_at i ≡ grade_at (min (i + 0) 3) = ap grade_at (omega arith) in
    ground (arith, downgrade-grade_at i 2, downgrade-grade_at i 1)

adjust_steps-grade_at :
    (keys : List String) (answers : Dict Value) (i : ℕ) (adjustments : List Adjustment)
    → i ≤ 3
    → (adjust_steps keys answers (grade_at i, adjustments)).0
      ≡ grade_at (min (i + count_true keys answers) 3)
unfolding adjust_steps count_true
adjust_steps-grade_at [] answers i adjustments h = ap grade_at (omega arith)
adjust_steps-grade_at (key ∷ keys) answers i adjustments h =
    elim (Bool-cases (is_true (lookup key answers))) [
      | inl yes_it_is ↦
          rw (adjust_steps, yes_it_is, downgrade-grade_at i 1 h)
            (adjust_steps-grade_at keys answers (min (i + 1) 3) (adjustments ++ one_step key ∷ [])
                (omega arith)
              ∙ ap grade_at (omega arith))
      | inr it_is_not ↦
          rw (adjust_steps, it_is_not) (adjust_steps-grade_at keys answers i adjustments h)
    ]

length-adjust_steps :
    (keys : List String) (answers : Dict Value) (grade : String) (adjustments : List Adjustment)
    → length (adjust_steps keys answers (grade, adjustments)).1
      ≡ length adjustments + count_true keys answers
unfolding adjust_steps count_true
length-adjust_steps [] answers grade adjustments = omega arith
length-adjust_steps (key ∷ keys) answers grade adjustments = ground (
  arith,
  length-adjust_steps keys answers (downgrade grade 1) (adjustments ++ one_step key ∷ []),
  length-adjust_steps keys answers grade adjustments,
  length-append adjustments (one_step key ∷ []),
)

length-adjust_battery :
    (pct : Option ℕ) (grade : String)
    → length (adjust_battery pct grade).1 ≡ min (battery_steps pct) 1
unfolding adjust_battery
length-adjust_battery none grade = omega arith
length-adjust_battery (some pct) grade = ground arith

find_forcing-some :
    (keys : List String) (key : String) (answers : Dict Value)
    → key_in key keys ≡ true
    → is_true (lookup key answers) ≡ true
    → (k : String) × (find_forcing keys answers ≡ some k)
unfolding find_forcing
find_forcing-some [] key answers h t = cc
find_forcing-some (k ∷ keys) key answers h t = elim (Bool-cases (is_true (lookup k answers))) [
  | inl yes_it_is ↦ (k, rw yes_it_is)
  | inr it_is_not ↦
      rw it_is_not (find_forcing-some keys key answers (ground (arith, eq_iff k key)) t)
]

find_forcing-none :
    (keys : List String) (answers : Dict Value)
    → count_true keys answers ≡ 0
    → find_forcing keys answers ≡ none
unfolding find_forcing count_true
find_forcing-none [] answers h = refl
find_forcing-none (key ∷ keys) answers h = ground (arith, find_forcing-none keys answers)

module _ (decimal : Char → Option ℕ) where
  -- Without a forcing answer the grade falls by the battery's steps and one for each other True
  -- answer, down to Poor at most; an unknown grade counts as Fair. The adjustments that are
  -- counted are one for the battery, where it costs steps, and one for each of those answers.
  adjust_grade-unforced :
      (grade : String) (answers : Dict Value)
      → count_true forcing_keys answers ≡ 0
      → let battery = battery_steps (parse_battery decimal (lookup "battery_health_pct" answers)) in
        let others = count_true downgrade_keys answers in
        ((adjust_grade decimal grade answers).final_grade
          ≡ grade_at (min (grade_index grade + battery + others) 3))
        × ((adjust_grade decimal grade answers).adjustment_count ≡ min battery 1 + others)
  unfolding adjust_grade
  adjust_grade-unforced grade answers h =
      let pct = parse_battery decimal (lookup "battery_health_pct" answers) in
      let start = grade_index grade in
      let bounded = grade_index-le grade in
      rw (adjust_grade, find_forcing-none forcing_keys answers h, known_grade_lem grade)
        (
          ap
                (λ (g : String).
                  (adjust_steps downgrade_keys answers
                    (g, (adjust_battery pct (grade_at start)).1)).0)
                (adjust_battery-grade_at pct start bounded)
              ∙ adjust_steps-grade_at downgrade_keys answers (min (start + battery_steps pct) 3)
                  (adjust_battery pct (grade_at start)).1 (omega arith)
              ∙ ap grade_at (omega arith),
          length-adjust_steps downgrade_keys answers (adjust_battery pct (grade_at start)).0
                (adjust_battery pct (grade_at start)).1
              ∙ ap (λ (n : ℕ). n + count_true downgrade_keys answers)
                  (length-adjust_battery pct (grade_at start)),
        )

  -- If a forcing question is answered True the grade is Poor, with one adjustment.
  pub adjust_grade-forced :
      (grade key : String) (answers : Dict Value)
      → key_in key forcing_keys ≡ true
      → is_true (lookup key answers) ≡ true
      → ((adjust_grade decimal grade answers).final_grade ≡ "Poor")
        × ((adjust_grade decimal grade answers).adjustment_count ≡ 1)
  unfolding adjust_grade
  adjust_grade-forced grade key answers known h =
      let (k, e) = find_forcing-some forcing_keys key answers known h in
      rw (adjust_grade, e) (refl, refl)
