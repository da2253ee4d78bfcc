-- ===== src/SipBridge/Challenge.antt =====
-- sip_bridge/sip_auth.py: `parse_challenge`, the parameters of a digest header. Its expression
-- `(\w+)=(?:"([^"]+)"|([^,\s]+))` is a search by hand. The letters and digits beyond ASCII are a
-- parameter; what `\s` matches is what `strip` removes.
pub mod Parts
pub mod Params
use Prim.Native.Char.{Char, code}
use ekaette.Prelude.{
  ℕ, zero, suc, ◌-◌, String, Bool, true, false, ◌&&◌, ◌||◌, not, Option, none, some, List, [], ◌∷◌,
  ltb, leb, ◌==◌, if◌then◌else◌, strip,
}
use ekaette.Prelude.Text.{is_space}
use ekaette.Prelude.Split.{◌<>◌}
use ekaette.Tools.Answers.{lower_code, lowers_to}

-- A text's characters that pass the test, from the left, and the rest.
unfoldable pub span : (Char → Bool) → String → String × String
span test String.[] = ("", "")
span test (String.◌∷◌ c s) =
    let (run, rest) = span test s in
    if test c then (String.◌∷◌ c run, rest) else ("", String.◌∷◌ c s)

abbrev pub size : String → ℕ
size String.[] = 0
size (String.◌∷◌ c s) = suc (size s)

abbrev pub not_quote : Char → Bool
not_quote c = not (code c == 34)

abbrev pub not_end : Char → Bool
not_end c = not (code c == b',' || is_space c)

-- The rest of a text after a word, where the text is lowered; no letter outside ASCII is lowered to one of
-- the words below.
unfoldable pub after_lowered : String → String → Option String
after_lowered String.[] s = some s
after_lowered (String.◌∷◌ d word) String.[] = none
after_lowered (String.◌∷◌ d word) (String.◌∷◌ c s) = elim (lower_code (code c) == code d) [
  | true ↦ after_lowered word s
  | false ↦ none
]

-- A key, its value, and how many characters they took.
abbrev pub Match : Type 0
Match = String × String × ℕ

abbrev pub Params : Type 0
Params = List (String × String)

-- `params.get(key)`: the last value under a key that is lowered to this one
unfoldable pub get : String → Params → Option String
unfolding lowers_to
get key [] = none
get key ((k, v) ∷ params) =
    let later = get key params in
    elim later [ some w ↦ some w | none ↦ if lowers_to k key then some v else none ]

abbrev pub if_both : Option String → Option String → Params → Option Params
if_both none other params = none
if_both (some realm) none params = none
if_both (some realm) (some nonce) params = some params

-- none where a parameter is missing
abbrev pub checked : Params → Option Params
checked params = if_both (get "realm" params) (get "nonce" params) params

module _ (unicode_word : Char → Bool) where
  -- `\w`
  unfoldable pub is_word : Char → Bool
  is_word ch =
      let c = code ch in
      if ltb c 128
      then (leb b'0' c && leb c b'9')
        || (leb b'A' c && leb c b'Z')
        || (leb b'a' c && leb c b'z')
        || c == b'_'
      else unicode_word ch

  -- The value up to a comma or a space.
  abbrev pub bare_value : String → String × String → Option Match
  bare_value key (String.[], rest) = none
  bare_value key (String.◌∷◌ c v, rest) =
      some (key, String.◌∷◌ c v, size (key <> ("=" <> String.◌∷◌ c v)))

  -- A value between quotes, if it is not empty and is closed; else a bare one.
  abbrev pub quoted_value : String → String × String → String → Option Match
  quoted_value key (String.◌∷◌ c v, String.◌∷◌ q rest) whole =
      some (key, String.◌∷◌ c v, size (key <> ("=\"" <> (String.◌∷◌ c v <> "\""))))
  quoted_value key (String.◌∷◌ c v, String.[]) whole = bare_value key (span not_end whole)
  quoted_value key (String.[], rest) whole = bare_value key (span not_end whole)

  abbrev pub value_at : String → String → Option Match
  value_at key String.[] = none
  value_at key (String.◌∷◌ c s) =
      if code c == 34
      then quoted_value key (span not_quote s) (String.◌∷◌ c s)
      else bare_value key (span not_end (String.◌∷◌ c s))

  abbrev pub after_key : String × String → Option Match
  after_key (String.[], rest) = none
  after_key (String.◌∷◌ c key, String.[]) = none
  after_key (String.◌∷◌ c key, String.◌∷◌ e rest) =
      if code e == b'=' then value_at (String.◌∷◌ c key) rest else none

  -- The expression's match at the start of a text.
  unfoldable pub match_at : String → Option Match
  unfolding span is_word ◌<>◌ is_space
  match_at s = after_key (span is_word s)

  -- A match and what is found behind it, or what is found behind one character.
  abbrev pub found : Option Match → (ℕ → Params) → Params
  found none later = later 0
  found (some (key, value, n)) later = (key, value) ∷ later (n - 1)

  -- `finditer`, past the characters that are skipped
  unfoldable pub find_params : ℕ → String → Params
  unfolding match_at
  find_params skip String.[] = []
  find_params (suc skip) (String.◌∷◌ c s) = find_params skip s
  find_params zero (String.◌∷◌ c s) = found (match_at (String.◌∷◌ c s)) (λ skip. find_params skip s)

  abbrev pub name_char : Char → Bool
  name_char c = is_word c || code c == b'-'

  abbrev pub after_colon : String → String → String
  after_colon whole String.[] = whole
  after_colon whole (String.◌∷◌ c s) =
      let rest = (span is_space s).1 in if code c == b':' then rest else whole

  abbrev pub after_name : String → String × String → String
  after_name whole (String.[], rest) = whole
  after_name whole (String.◌∷◌ c name, rest) = after_colon whole (span is_space rest).1

  -- The text without a header's name, `^[\w-]+\s*:\s*`.
  unfoldable pub drop_name : String → String
  unfolding span is_word is_space
  drop_name s = after_name s (span name_char s)

  abbrev pub params_in : Option String → Option Params
  params_in none = none
  params_in (some value) = checked (find_params 0 (strip value))

  -- none is the AuthParseError
  unfoldable pub parse_challenge : String → Option Params
  unfolding drop_name after_lowered find_params get
  parse_challenge header = params_in (after_lowered "digest" (drop_name (strip header)))

abbrev pub or_md5 : Option String → String
or_md5 none = "MD5"
or_md5 (some algorithm) = algorithm

-- `params.setdefault("algorithm", "MD5")`
abbrev pub algorithm_of : Params → String
algorithm_of params = or_md5 (get "algorithm" params)
