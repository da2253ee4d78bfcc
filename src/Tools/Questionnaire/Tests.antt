-- ===== src/Tools/Questionnaire/Tests.antt =====
-- Raw answers to app/tools/valuation_tools.py about an Apple phone.
use Prim.Native.Char.{Char}
use ekaette.Prelude.{ℕ, ◌≡◌, refl, true, Option, none, [], ◌∷◌, strip}
use ekaette.Prelude.Int.{pos}
use ekaette.Dict.{Dict, lookup, insert}
use ekaette.Tools.Answers.{Value, boolean, integer, text, other, coerce_bool}
use ekaette.Tools.Questionnaire.{
  collect, get_device_questionnaire, normalize_questionnaire_answers, brand_questions,
  normalize_value,
}

no_digits : Char → Option ℕ
no_digits c = none

abbrev raw : Dict Value
raw =
    ("battery_health_pct", integer (pos 91))
    ∷ ("account_locked", text " No ")
    ∷ ("water_damage", other)
    ∷ []

kept :
    normalize_questionnaire_answers raw (get_device_questionnaire " apple")
    ≡ ("battery_health_pct", integer (pos 91)) ∷ ("account_locked", boolean true) ∷ []
unfolding normalize_questionnaire_answers get_device_questionnaire brand_questions collect insert
    lookup coerce_bool strip normalize_value
kept = refl
