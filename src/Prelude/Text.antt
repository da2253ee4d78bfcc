-- ===== src/Prelude/Text.antt =====
-- Texts put together and trimmed, as Python does, and the resolution of its clock.
pub mod Strip
use Prim.Native.Nat.{ℕ, compare, Ordering}
use Prim.Native.Char.{Char, code}
use Prim.Native.String.{String, ◌++◌}
use mathlib.Core.Bool.{Bool, true, false, ◌||◌, ◌&&◌}
use mathlib.Core.Path.{◌≡◌, refl}
use native.Mathlib.Omega.{arith}
use ekaette.Prelude.Tests.{leb, ◌==◌, if◌then◌else◌}

-- f"{a}:{b}"
abbrev pub colon : String → String → String
colon a b = a ++ (":" ++ b)

-- `time.time()` counts seconds in a double. From 2004 to 2038 its values are the multiples of
-- 2 ^ -22 of a second, and adding a whole number of seconds is exact, so times are natural numbers
-- of that unit.
abbrev pub second : ℕ
second = 4194304

-- The characters that `str.strip` removes.
unfoldable pub is_space : Char → Bool
is_space ch =
    let c = code ch in
    (leb 9 c && leb c 13)
    || (leb 28 c && leb c 32)
    || c == 133
    || c == 160
    || c == 5760
    || (leb 8192 c && leb c 8202)
    || c == 8232
    || c == 8233
    || c == 8239
    || c == 8287
    || c == 12288

unfoldable pub lstrip : String → String
lstrip String.[] = String.[]
lstrip (String.◌∷◌ c s) = let rest = lstrip s in if is_space c then rest else String.◌∷◌ c s

-- A character in front of a text whose end is trimmed.
unfoldable pub keep_before : Char → String → String
keep_before c String.[] = if is_space c then String.[] else String.◌∷◌ c String.[]
keep_before c (String.◌∷◌ d s) = String.◌∷◌ c (String.◌∷◌ d s)

unfoldable pub rstrip : String → String
unfolding keep_before
rstrip String.[] = String.[]
rstrip (String.◌∷◌ c s) = keep_before c (rstrip s)

unfoldable pub strip : String → String
unfolding is_space lstrip rstrip
strip s = rstrip (lstrip s)
