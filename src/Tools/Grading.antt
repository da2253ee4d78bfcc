-- ===== src/Tools/Grading.antt =====
-- app/tools/valuation_tools.py: `adjust_grade_from_questionnaire`. Grades are texts.
pub mod Laws
mod Tests
use Prim.Native.Char.{Char}
use ekaette.Prelude.{
  ℕ, zero, suc, ◌+◌, min, String, Option, none, some, List, [], ◌∷◌, ◌++◌, str_eq, ltb,
  if◌then◌else◌, length,
}
use ekaette.Dict.{Dict, lookup, key_in}
use ekaette.Tools.Answers.{Value, is_true, parse_battery}

abbrev pub grade_order : List String
grade_order = "Excellent" ∷ "Good" ∷ "Fair" ∷ "Poor" ∷ []

-- `grade_order.index(grade)`, or 2
unfoldable pub grade_index : String → ℕ
grade_index grade =
    if str_eq grade "Excellent"
    then 0
    else if str_eq grade "Good"
    then 1
    else if str_eq grade "Fair"
    then 2
    else if str_eq grade "Poor"
    then 3
    else 2

-- `GRADE_ORDER[i]`, at most 3
unfoldable pub grade_at : ℕ → String
grade_at zero = "Excellent"
grade_at (suc zero) = "Good"
grade_at (suc (suc zero)) = "Fair"
grade_at (suc (suc (suc i))) = "Poor"

-- `_downgrade`
unfoldable pub downgrade : String → ℕ → String
downgrade grade steps = grade_at (min (grade_index grade + steps) 3)

-- The sentences of "adjustments", by what they are about.
pub data Adjustment : Type 0 where
  -- the key that forces Poor
  forced_poor : String → Adjustment
  -- the percentage and the steps
  battery : ℕ → ℕ → Adjustment
  -- the key that costs one step
  one_step : String → Adjustment

pub record Adjusted : Type 0 where
  pub final_grade : String
  pub original_vision_grade : String
  pub adjustments : List Adjustment
  pub adjustment_count : ℕ

abbrev pub forcing_keys : List String
forcing_keys = "does_not_power_on" ∷ "water_damage" ∷ "account_locked" ∷ []

abbrev pub downgrade_keys : List String
downgrade_keys =
    "previous_repair" ∷ "biometric_not_working" ∷ "screen_burn_in" ∷ "buttons_not_functional" ∷ []

-- the first forcing key whose answer is True
unfoldable pub find_forcing : List String → Dict Value → Option String
find_forcing [] answers = none
find_forcing (key ∷ keys) answers =
    if is_true (lookup key answers) then some key else find_forcing keys answers

-- the battery's step, on a grade
unfoldable pub adjust_battery : Option ℕ → String → String × List Adjustment
unfolding downgrade
adjust_battery none grade = (grade, [])
adjust_battery (some pct) grade =
    if ltb pct 60
    then (downgrade grade 2, battery pct 2 ∷ [])
    else if ltb pct 80
    then (downgrade grade 1, battery pct 1 ∷ [])
    else (grade, [])

-- the loop over the other downgrades
unfoldable pub adjust_steps :
    List String → Dict Value → String × List Adjustment → String × List Adjustment
unfolding downgrade
adjust_steps [] answers state = state
adjust_steps (key ∷ keys) answers (grade, adjustments) = adjust_steps keys answers (
    if is_true (lookup key answers)
    then (downgrade grade 1, adjustments ++ one_step key ∷ [])
    else (grade, adjustments))

abbrev pub known_grade : String → String
known_grade grade = if key_in grade grade_order then grade else "Fair"

module _ (decimal : Char → Option ℕ) where
  unfoldable pub adjust_grade : String → Dict Value → Adjusted
  unfolding adjust_battery adjust_steps find_forcing
  adjust_grade vision_grade answers = elim (find_forcing forcing_keys answers) [
    | some key ↦ record {
      final_grade = "Poor";
      original_vision_grade = vision_grade;
      adjustments = forced_poor key ∷ [];
      adjustment_count = 1;
    }
    | none ↦
        let (grade, adjustments) = adjust_steps downgrade_keys answers (
          adjust_battery (parse_battery decimal (lookup "battery_health_pct" answers))
            (known_grade vision_grade)) in
        record {
          final_grade = grade;
          original_vision_grade = vision_grade;
          adjustments = adjustments;
          adjustment_count = length adjustments;
        }
  ]
