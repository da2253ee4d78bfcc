-- ===== src/Tools/Questionnaire.antt =====
-- app/tools/valuation_tools.py: the questions for a device, the reading of raw answers, and the two
-- with the grading as `grade_and_value_tool` runs them. A question's wording is left out.
pub mod Laws
mod Tests
use Prim.Native.Char.{Char}
use ekaette.Prelude.{
  ℕ, String, Bool, true, false, not, Option, none, some, List, [], ◌∷◌, ◌++◌, if◌then◌else◌, strip,
}
use ekaette.Dict.{Dict, lookup, insert}
use ekaette.Tools.Answers.{Value, boolean, coerce_bool, lowers_to}
use ekaette.Tools.Grading.{Adjusted, adjust_grade}

pub data Kind : Type 0 where
  yes_or_no : Kind
  number : Kind

pub record Question : Type 0 where
  pub id : String
  pub kind : Kind
  pub invert : Bool

abbrev pub universal_questions : List Question
universal_questions =
    record { id = "does_not_power_on"; kind = yes_or_no; invert = true }
    ∷ record { id = "water_damage"; kind = yes_or_no; invert = false }
    ∷ record { id = "buttons_not_functional"; kind = yes_or_no; invert = true }
    ∷ record { id = "previous_repair"; kind = yes_or_no; invert = false }
    ∷ []

abbrev pub apple_questions : List Question
apple_questions =
    record { id = "battery_health_pct"; kind = number; invert = false }
    ∷ record { id = "account_locked"; kind = yes_or_no; invert = true }
    ∷ record { id = "biometric_not_working"; kind = yes_or_no; invert = true }
    ∷ []

abbrev pub samsung_questions : List Question
samsung_questions =
    record { id = "screen_burn_in"; kind = yes_or_no; invert = false }
    ∷ record { id = "account_locked"; kind = yes_or_no; invert = true }
    ∷ []

-- `BRAND_QUESTIONS.get(brand.strip().lower(), [])`
unfoldable pub brand_questions : String → List Question
unfolding lowers_to
brand_questions brand =
    if lowers_to (strip brand) "apple"
    then apple_questions
    else if lowers_to (strip brand) "samsung"
    then samsung_questions
    else []

unfoldable pub get_device_questionnaire : String → List Question
get_device_questionnaire device_brand = universal_questions ++ brand_questions device_brand

-- `{q["id"]: … for q in questions}`, with the entries so far
unfoldable pub collect {ℓ} : {V : Type ℓ} → (Question → V) → List Question → Dict V → Dict V
collect of [] entries = entries
collect of (q ∷ questions) entries = collect of questions (insert q.id (of q) entries)

abbrev pub is_set : Option Bool → Bool
is_set (some true) = true
is_set _ = false

-- An answer, coerced and inverted; none is left out.
unfoldable pub normalize_value : Option Kind → Option Bool → Value → Option Value
normalize_value (some number) invert value = some value
normalize_value kind invert value = elim (coerce_bool value) [
  | none ↦ none
  | some b ↦ some (boolean (if is_set invert then not b else b))
]

-- the loop over the raw answers, with the result so far
unfoldable pub normalize_items : Dict Kind → Dict Bool → Dict Value → Dict Value → Dict Value
unfolding normalize_value
normalize_items type_map invert_map [] result = result
normalize_items type_map invert_map ((key, value) ∷ raw_answers) result =
    normalize_items type_map invert_map raw_answers
      (elim (normalize_value (lookup key type_map) (lookup key invert_map) value) [
        | none ↦ result
        | some v ↦ insert key v result
      ])

unfoldable pub normalize_questionnaire_answers : Dict Value → List Question → Dict Value
unfolding normalize_items
normalize_questionnaire_answers raw_answers questions =
    normalize_items (collect (λ q. q.kind) questions []) (collect (λ q. q.invert) questions [])
      raw_answers []

-- `grade_and_value_tool`: the grade, where answers are given
module _ (decimal : Char → Option ℕ) where
  unfoldable pub adjusted_grade : String → Dict Value → String → Adjusted
  adjusted_grade brand parsed_answers grade =
      adjust_grade decimal grade
        (normalize_questionnaire_answers parsed_answers (get_device_questionnaire brand))
