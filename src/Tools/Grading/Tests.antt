-- ===== src/Tools/Grading/Tests.antt =====
-- Answers to app/tools/valuation_tools.py for a phone that vision graded Good.
use Prim.Native.Char.{Char, code}
use ekaette.Prelude.{
  ℕ, ◌-◌, ◌≡◌, refl, true, ◌&&◌, Option, none, some, [], ◌∷◌, leb, if◌then◌else◌, strip,
}
use ekaette.Prelude.Int.{pos}
use ekaette.Dict.{Dict}
use ekaette.Tools.Answers.{Value, boolean, integer, text, parse_battery}

-- ASCII's digits
decimal : Char → Option ℕ
decimal c = if leb b'0' (code c) && leb (code c) b'9' then some (code c - b'0') else none

abbrev answers : Dict Value
answers =
    ("battery_health_pct", integer (pos 72))
    ∷ ("previous_repair", boolean true)
    ∷ ("screen_burn_in", text "yes")
    ∷ []

battery_text : parse_battery decimal (some (text " 059 ")) ≡ some 59
unfolding parse_battery decimal strip
battery_text = refl

negative_battery : parse_battery decimal (some (text "-5")) ≡ none
unfolding parse_battery decimal strip
negative_battery = refl
