-- ===== src/Tools/Questionnaire/Laws.antt =====
-- What `normalize_questionnaire_answers` of app/tools/valuation_tools.py keeps, and which raw
-- answers make a device Poor.

use ekaette.Prelude.{
  ℕ, String, ◌≡◌, refl, ◌⊎◌, inl, inr, Bool, true, false, ◌||◌, not, Option, none, some, List, [],
  ◌∷◌, ◌++◌, arith, eq_iff, if◌then◌else◌, Bool-cases, Option-cases, strip,
}
use ekaette.Dict.{Dict, lookup, insert, lookup-insert, HasUniqueKeys, key_in}
use ekaette.Tools.Answers.{Value, lowers_to, coerce_bool, is_true}
use ekaette.Tools.Grading.{forcing_keys}
use ekaette.Tools.Grading.Laws.{adjust_grade-forced}
use ekaette.Tools.Questionnaire.{
  universal_questions, Kind, Question, apple_questions, samsung_questions, brand_questions, collect,
  normalize_value, normalize_items, normalize_questionnaire_answers, get_device_questionnaire,
  adjusted_grade, Char, yes_or_no, is_set,
}

-- The normalized form of an answer that may be missing, or else a value from before.
abbrev pub normalized : Option Kind → Option Bool → Option Value → Option Value → Option Value
normalized kind invert none before = before
normalized kind invert (some value) before = elim (normalize_value kind invert value) [
  | none ↦ before
  | some v ↦ some v
]

lookup-normalize_items :
    (type_map : Dict Kind) (invert_map : Dict Bool) (raw result : Dict Value) (key : String)
    → HasUniqueKeys raw
    → lookup key (normalize_items type_map invert_map raw result)
      ≡ normalized
          (lookup key type_map)
          (lookup key invert_map)
          (lookup key raw)
          (lookup key result)
unfolding lookup normalize_items
lookup-normalize_items type_map invert_map [] result key h = refl
lookup-normalize_items type_map invert_map ((k, v) ∷ raw) result key h =
    elim (Option-cases (normalize_value (lookup k type_map) (lookup k invert_map) v)) [
      | inl dropped ↦ ground (
        arith,
        dropped,
        eq_iff k key,
        lookup-normalize_items type_map invert_map raw result key h.1,
      )
      | inr (w, kept) ↦ ground (
        arith,
        kept,
        eq_iff k key,
        lookup-insert k key w result,
        lookup-normalize_items type_map invert_map raw (insert k w result) key h.1,
      )
    ]

-- Each normalized answer is the raw answer to the same question, as it is for a number; for any
-- other question, asked or not, it is read as a Boolean, inverted where the question says so, and
-- left out where it cannot be read.
lookup-normalize_questionnaire_answers :
    (raw : Dict Value) (questions : List Question) (key : String)
    → HasUniqueKeys raw
    → lookup key (normalize_questionnaire_answers raw questions)
      ≡ normalized
          (lookup key (collect (λ q. q.kind) questions []))
          (lookup key (collect (λ q. q.invert) questions []))
          (lookup key raw)
          none
unfolding normalize_questionnaire_answers lookup
lookup-normalize_questionnaire_answers raw questions key h =
    lookup-normalize_items (collect (λ q. q.kind) questions [])
      (collect (λ q. q.invert) questions []) raw [] key h

brand-cases :
    (brand : String)
    → (brand_questions brand ≡ apple_questions)
      ⊎ (brand_questions brand ≡ samsung_questions)
      ⊎ (brand_questions brand ≡ [])
unfolding brand_questions
brand-cases brand = elim (Bool-cases (lowers_to (strip brand) "apple")) [
  | inl apple ↦ inl (rw apple)
  | inr other ↦ elim (Bool-cases (lowers_to (strip brand) "samsung")) [
    | inl samsung ↦ inr (inl (rw (other, samsung)))
    | inr neither ↦ inr (inr (rw (other, neither)))
  ]
]

-- The answers that make a device Poor: it does not hold a charge, it had water damage, or, where
-- the brand's questions ask it, the account is not removed.
abbrev pub poor_answers : String → Dict Bool
poor_answers brand =
    ("does_not_power_on", false)
    ∷ ("water_damage", true)
    ∷ (if lowers_to (strip brand) "apple" || lowers_to (strip brand) "samsung"
        then ("account_locked", false) ∷ []
        else [])

-- What the questions say of a key that forces Poor, against `poor_answers`.
abbrev IsAsked : List Question → String → Bool → Type 0
IsAsked questions key b =
    (key_in key forcing_keys ≡ true)
    × (lookup key (collect (λ q. q.kind) questions []) ≡ some yes_or_no)
    × (is_set (lookup key (collect (λ q. q.invert) questions [])) ≡ not b)

universal-IsAsked :
    (questions : List Question)
    → (questions ≡ apple_questions) ⊎ (questions ≡ samsung_questions) ⊎ (questions ≡ [])
    → IsAsked (universal_questions ++ questions) "does_not_power_on" false
      × IsAsked (universal_questions ++ questions) "water_damage" true
unfolding collect insert lookup
universal-IsAsked questions (inl e) = rw e ((refl, refl, refl), (refl, refl, refl))
universal-IsAsked questions (inr (inl e)) = rw e ((refl, refl, refl), (refl, refl, refl))
universal-IsAsked questions (inr (inr e)) = rw e ((refl, refl, refl), (refl, refl, refl))

account-IsAsked :
    (brand : String)
    → (lowers_to (strip brand) "apple" || lowers_to (strip brand) "samsung") ≡ true
    → IsAsked (get_device_questionnaire brand) "account_locked" false
unfolding get_device_questionnaire brand_questions collect insert lookup
account-IsAsked brand h = elim (Bool-cases (lowers_to (strip brand) "apple")) [
  | inl apple ↦ rw apple (refl, refl, refl)
  | inr other ↦
      let samsung : lowers_to (strip brand) "samsung" ≡ true = ground arith in
      rw (other, samsung) (refl, refl, refl)
]

key-cases :
    (key : String) (b : Bool) (rest : Dict Bool)
    → lookup key (("does_not_power_on", false) ∷ ("water_damage", true) ∷ rest) ≡ some b
    → ((key ≡ "does_not_power_on") × (b ≡ false))
      ⊎ ((key ≡ "water_damage") × (b ≡ true))
      ⊎ (lookup key rest ≡ some b)
unfolding lookup
key-cases key b rest h = ground (arith, eq_iff "does_not_power_on" key, eq_iff "water_damage" key)

account_key :
    (key : String) (b asks : Bool)
    → lookup key (if asks then ("account_locked", false) ∷ [] else []) ≡ some b
    → (asks ≡ true) × (key ≡ "account_locked") × (b ≡ false)
unfolding lookup
account_key key b true h = ground (arith, eq_iff "account_locked" key)
account_key key b false h = cc

poor_answers-IsAsked :
    (brand key : String) (b : Bool)
    → lookup key (poor_answers brand) ≡ some b
    → IsAsked (get_device_questionnaire brand) key b
unfolding get_device_questionnaire
poor_answers-IsAsked brand key b h =
    let asks = lowers_to (strip brand) "apple" || lowers_to (strip brand) "samsung" in
    elim (key-cases key b (if asks then ("account_locked", false) ∷ [] else []) h) [
      | inl (k, v) ↦ rw (k, v) (universal-IsAsked (brand_questions brand) (brand-cases brand)).0
      | inr (inl (k, v)) ↦
          rw (k, v) (universal-IsAsked (brand_questions brand) (brand-cases brand)).1
      | inr (inr more) ↦
          let (asked, k, v) = account_key key b asks more in rw (k, v) (account-IsAsked brand asked)
    ]

normalized-is_true :
    (v : Value) (b : Bool) (invert : Option Bool)
    → coerce_bool v ≡ some b
    → is_set invert ≡ not b
    → is_true (normalized (some yes_or_no) invert (some v) none) ≡ true
unfolding normalize_value
normalized-is_true v true invert read inverted = ground arith
normalized-is_true v false invert read inverted = ground arith

-- A raw answer that makes a device Poor does so for every brand and every grade by vision, also as
-- a text such as "No".
adjusted_grade-poor :
    (decimal : Char → Option ℕ) (brand grade key : String) (raw : Dict Value) (v : Value) (b : Bool)
    → HasUniqueKeys raw
    → lookup key (poor_answers brand) ≡ some b
    → lookup key raw ≡ some v
    → coerce_bool v ≡ some b
    → (adjusted_grade decimal brand raw grade).final_grade ≡ "Poor"
unfolding adjusted_grade
adjusted_grade-poor decimal brand grade key raw v b unique poor answered read =
    let (known, asked, inverted) = poor_answers-IsAsked brand key b poor in
    let questions = get_device_questionnaire brand in
    let truth : is_true (lookup key (normalize_questionnaire_answers raw questions)) ≡ true =
      rw (lookup-normalize_questionnaire_answers raw questions key unique, asked, answered)
        (normalized-is_true v b (lookup key (collect (λ q. q.invert) questions [])) read
          inverted) in
    (adjust_grade-forced decimal grade key (normalize_questionnaire_answers raw questions) known
      truth).0
