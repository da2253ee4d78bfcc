-- ===== src/Tools/Answers.antt =====
-- app/tools/valuation_tools.py: the values of questionnaire answers, as JSON has them, and what the
-- tools read of them.
use Prim.Native.Char.{Char, code}
use Prim.Native.String.{count}
use mathlib.Core.Option
use ekaette.Prelude.{
  ℕ, ◌+◌, ◌*◌, String, Bool, true, false, ◌&&◌, ◌||◌, Option, none, some, ltb, leb, ◌==◌,
  if◌then◌else◌, strip,
}
use ekaette.Prelude.Int.{ℤ, pos, negated}

-- `other` is None, a list or a dict, which the tools treat alike.
pub data Value : Type 0 where
  boolean : Bool → Value
  integer : ℤ → Value
  float : Value
  text : String → Value
  other : Value

-- `answers.get(key) is True`
abbrev pub is_true : Option Value → Bool
is_true (some (boolean true)) = true
is_true _ = false

abbrev pub lower_code : ℕ → ℕ
lower_code c = if leb 65 c && leb c 90 then c + 32 else c

-- `s.lower() == word`, for the words below: no letter outside ASCII is lowered to a letter of theirs.
unfoldable pub lowers_to : String → String → Bool
lowers_to String.[] String.[] = true
lowers_to String.[] (String.◌∷◌ d word) = false
lowers_to (String.◌∷◌ c s) String.[] = false
lowers_to (String.◌∷◌ c s) (String.◌∷◌ d word) = lower_code (code c) == code d && lowers_to s word

-- `_coerce_bool`
unfoldable pub coerce_bool : Value → Option Bool
unfolding lowers_to
coerce_bool (boolean b) = some b
coerce_bool (text value) =
    let is = lowers_to (strip value) in
    if is "yes" || is "true" || is "1" || is "y"
    then some true
    else if is "no" || is "false" || is "0" || is "n"
    then some false
    else none
coerce_bool _ = none

-- The decimal digits of Unicode, for `\d` and `int`, are the parameter.
module _ (decimal : Char → Option ℕ) where
  -- The number that a text of digits stands for, after a number to its left.
  unfoldable pub digits_value : ℕ → String → Option ℕ
  digits_value before String.[] = some before
  digits_value before (String.◌∷◌ c s) = elim (decimal c) [
    | none ↦ none
    | some d ↦ digits_value (before * 10 + d) s
  ]

  -- At least one digit and, as `int` has it, at most 4300.
  unfoldable pub parse_digits : String → Option ℕ
  unfolding digits_value
  parse_digits s = if count s == 0 || ltb 4300 (count s) then none else digits_value 0 s

  -- `-?\d+`
  unfoldable pub parse_integer : String → Option ℤ
  unfolding parse_digits
  parse_integer String.[] = none
  parse_integer (String.◌∷◌ c s) =
      if code c == b'-'
      then Option.map negated (parse_digits s)
      else Option.map pos (parse_digits (String.◌∷◌ c s))

  abbrev pub percentage : Option ℤ → Option ℕ
  percentage (some (pos n)) = if leb n 100 then some n else none
  percentage _ = none

  -- `_parse_battery`. What `\s` matches is what `strip` removes.
  unfoldable pub parse_battery : Option Value → Option ℕ
  unfolding parse_integer
  parse_battery (some (integer n)) = percentage (some n)
  parse_battery (some (text value)) = percentage (parse_integer (strip value))
  parse_battery _ = none
