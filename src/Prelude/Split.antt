-- ===== src/Prelude/Split.antt =====
-- Texts put together and taken apart at characters and at line ends, as Python does.
use Prim.Native.Nat.{ℕ}
use Prim.Native.Char.{Char, code}
use Prim.Native.String.{String}
use mathlib.Core.Bool.{Bool, true, false, not, ◌&&◌}
use native.Mathlib.Omega.{arith}
use mathlib.Core.Option.{Option, none, some}
use mathlib.Core.Option
use mathlib.Core.List.{List, [], ◌∷◌, ◌++◌}
use mathlib.Core.Path.{◌≡◌, refl, ap, ◌∙◌}
use Prim.Native.String.compare.{cons-nil}
use text.Mathlib.Text.{is_eq, ◌==◌ as str_eq}
use ekaette.Prelude.Lists.{All}
use ekaette.Prelude.Tests.{◌==◌, if◌then◌else◌}

-- An f-string, whose constant parts compute.
infixr 68 ◌<>◌
unfoldable pub ◌<>◌ : String → String → String
String.[] <> t = t
String.◌∷◌ c s <> t = String.◌∷◌ c (s <> t)

-- No character of the text has the code.
abbrev pub Avoids : ℕ → String → Type 0
Avoids c String.[] = Unit
Avoids c (String.◌∷◌ d s) = ((code d == c) ≡ false) × Avoids c s

abbrev pub push : Char → String × String → String × String
push c (s, t) = (String.◌∷◌ c s, t)

-- What stands before and after the first character with the code, `s.split(c, 1)`.
unfoldable pub cut : ℕ → String → Option (String × String)
cut c String.[] = none
cut c (String.◌∷◌ d s) =
    let rest = Option.map (push d) (cut c s) in if code d == c then some ("", s) else rest

abbrev pub push_line : Char → List String → List String
push_line c [] = (String.◌∷◌ c String.[]) ∷ []
push_line c (l ∷ ls) = String.◌∷◌ c l ∷ ls

abbrev pub crlf : String
crlf = "\r\n"

-- `s.split("\r\n")`
unfoldable pub lines : String → List String
lines String.[] = "" ∷ []
lines (String.◌∷◌ c String.[]) = (String.◌∷◌ c String.[]) ∷ []
lines (String.◌∷◌ c (String.◌∷◌ d s)) =
    let after = "" ∷ lines s in
    let within = push_line c (lines (String.◌∷◌ d s)) in
    if code c == 13 && code d == 10 then after else within

-- `"\r\n".join(ls)`
unfoldable pub join_lines : List String → String
unfolding ◌<>◌
join_lines [] = ""
join_lines (l ∷ []) = l
join_lines (l ∷ m ∷ ls) = l <> (crlf <> join_lines (m ∷ ls))

pub cut-append :
    (c : ℕ) (a : String) (d : Char) (b : String)
    → Avoids c a
    → (code d == c) ≡ true
    → cut c (a <> String.◌∷◌ d b) ≡ some (a, b)
unfolding cut ◌<>◌
cut-append c String.[] d b h e = rw e refl
cut-append c (String.◌∷◌ x a) d b h e = rw (h.0, cut-append c a d b h.1 e) refl

pub lines-append : (a b : String) → Avoids 13 a → lines (a <> (crlf <> b)) ≡ a ∷ lines b
unfolding lines ◌<>◌
lines-append String.[] b h = refl
lines-append (String.◌∷◌ c String.[]) b h = rw h.0 refl
lines-append (String.◌∷◌ c (String.◌∷◌ d a)) b h =
    rw (h.0, lines-append (String.◌∷◌ d a) b h.1) refl

pub <>-Avoids : (c : ℕ) (a b : String) → Avoids c a → Avoids c b → Avoids c (a <> b)
unfolding ◌<>◌
<>-Avoids c String.[] b h k = k
<>-Avoids c (String.◌∷◌ d a) b h k = (h.0, <>-Avoids c a b h.1 k)

-- Lines that are joined are the lines of the text.
pub lines-join_lines :
    (ls : List String) (m : String) (rest : List String)
    → All (Avoids 13) ls
    → lines (join_lines (ls ++ m ∷ rest)) ≡ ls ++ lines (join_lines (m ∷ rest))
unfolding join_lines
lines-join_lines [] m rest h = refl
lines-join_lines (l ∷ []) m rest h = lines-append l (join_lines (m ∷ rest)) h.0
lines-join_lines (l ∷ k ∷ ls) m rest h =
    lines-append l (join_lines (k ∷ (ls ++ m ∷ rest))) h.0
    ∙ ap (λ ms. l ∷ ms) (lines-join_lines (k ∷ ls) m rest h.1)

unfoldable pub avoids : ℕ → String → Bool
avoids c String.[] = true
avoids c (String.◌∷◌ d s) = not (code d == c) && avoids c s

-- For a constant text, by running the test.
pub avoids-Avoids : (c : ℕ) (s : String) → avoids c s ≡ true → Avoids c s
unfolding avoids
avoids-Avoids c String.[] h = tt
avoids-Avoids c (String.◌∷◌ d s) h = (ground (arith, h), avoids-Avoids c s (ground (arith, h)))

pub <>_assoc : (a b c : String) → (a <> b) <> c ≡ a <> (b <> c)
unfolding ◌<>◌
<>_assoc String.[] b c = refl
<>_assoc (String.◌∷◌ x a) b c = ap (λ s. String.◌∷◌ x s) (<>_assoc a b c)

pub <>-empty : (a : String) → a <> "" ≡ a
unfolding ◌<>◌
<>-empty String.[] = refl
<>-empty (String.◌∷◌ x a) = ap (λ s. String.◌∷◌ x s) (<>-empty a)

-- `s.split(c)`
unfoldable pub split_at : ℕ → String → List String
split_at c String.[] = "" ∷ []
split_at c (String.◌∷◌ d s) =
    let rest = split_at c s in if code d == c then "" ∷ rest else push_line d rest

-- A text that starts with a character is not empty.
pub cons_not_empty : (c : Char) (s : String) → str_eq (String.◌∷◌ c s) "" ≡ false
cons_not_empty c s = λ i. is_eq (cons-nil c s i)
