-- ===== src/Prelude/Text/Strip.antt =====
-- Trimming twice is trimming once.
use Prim.Native.Char.{Char}
use Prim.Native.String.{String}
use mathlib.Core.Bool.{false}
use mathlib.Core.Path.{◌≡◌, refl, ap, ◌∙◌}
use mathlib.Core.Logic.{inl, inr}
use ekaette.Prelude.Tests.{Bool-cases}
use ekaette.Prelude.Text.{is_space, lstrip, rstrip, keep_before, strip}

-- The text is empty or begins with a character that is no space.
abbrev IsLeftTrimmed : String → Type 0
IsLeftTrimmed String.[] = Unit
IsLeftTrimmed (String.◌∷◌ c s) = is_space c ≡ false

lstrip-IsLeftTrimmed : (s : String) → IsLeftTrimmed (lstrip s)
unfolding lstrip
lstrip-IsLeftTrimmed String.[] = tt
lstrip-IsLeftTrimmed (String.◌∷◌ c s) = elim (Bool-cases (is_space c)) [
  | inl space ↦ rw space (lstrip-IsLeftTrimmed s)
  | inr other ↦ rw other other
]

lstrip_id : (s : String) → IsLeftTrimmed s → lstrip s ≡ s
unfolding lstrip
lstrip_id String.[] h = refl
lstrip_id (String.◌∷◌ c s) h = rw h

keep_before-IsLeftTrimmed :
    (c : Char) (s : String) → is_space c ≡ false → IsLeftTrimmed (keep_before c s)
unfolding keep_before
keep_before-IsLeftTrimmed c String.[] h = rw h h
keep_before-IsLeftTrimmed c (String.◌∷◌ d s) h = h

rstrip-IsLeftTrimmed : (s : String) → IsLeftTrimmed s → IsLeftTrimmed (rstrip s)
unfolding rstrip
rstrip-IsLeftTrimmed String.[] h = tt
rstrip-IsLeftTrimmed (String.◌∷◌ c s) h = keep_before-IsLeftTrimmed c (rstrip s) h

rstrip-keep_before :
    (c : Char) (s : String) → rstrip s ≡ s → rstrip (keep_before c s) ≡ keep_before c s
unfolding rstrip keep_before
rstrip-keep_before c String.[] h = elim (Bool-cases (is_space c)) [
  | inl space ↦ rw space refl
  | inr other ↦ rw other (rw other refl)
]
rstrip-keep_before c (String.◌∷◌ d s) h = ap (keep_before c) h

rstrip-rstrip : (s : String) → rstrip (rstrip s) ≡ rstrip s
unfolding rstrip
rstrip-rstrip String.[] = refl
rstrip-rstrip (String.◌∷◌ c s) = rstrip-keep_before c (rstrip s) (rstrip-rstrip s)

pub strip-strip : (s : String) → strip (strip s) ≡ strip s
unfolding strip
strip-strip s =
    ap rstrip
      (lstrip_id (rstrip (lstrip s)) (rstrip-IsLeftTrimmed (lstrip s) (lstrip-IsLeftTrimmed s)))
    ∙ rstrip-rstrip (lstrip s)
