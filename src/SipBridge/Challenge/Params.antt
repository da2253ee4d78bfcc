-- ===== src/SipBridge/Challenge/Params.antt =====
-- The search of sip_bridge/sip_auth.py finds the parameters that are written.
use Prim.Native.Char.{Char, code}
use ekaette.Prelude.{
  suc, ◌-◌, String, ◌≡◌, refl, sym, ap, ◌∙◌, Bool, false, some, List, [], ◌∷◌, map, arith, ◌==◌,
  All,
}
use ekaette.Prelude.Split.{◌<>◌, <>_assoc, <>-empty}
use ekaette.SipBridge.Challenge.{span, size, not_quote, not_end, is_word, match_at, find_params}
use ekaette.SipBridge.Challenge.Parts.{
  Part, quoted, bare, pair_of, part_text, join_parts, Passes, IsNonempty, IsQuotable, IsToken,
}

-- The text ends, or goes on with a character that fails the test.
abbrev Stops : (Char → Bool) → String → Type 0
Stops test String.[] = Unit
Stops test (String.◌∷◌ c s) = test c ≡ false

pub span-<> :
    (test : Char → Bool) (a b : String) → Passes test a → Stops test b → span test (a <> b) ≡ (a, b)
unfolding span ◌<>◌
span-<> test String.[] String.[] h k = refl
span-<> test String.[] (String.◌∷◌ c b) h k = rw k refl
span-<> test (String.◌∷◌ c a) b h k = rw (h.0, span-<> test a b h.1 k) refl

module _ (unicode_word : Char → Bool) where
  abbrev pub IsKey : String → Type 0
  IsKey key = IsNonempty key × Passes (is_word unicode_word) key

  abbrev pub IsPart : Part → Type 0
  IsPart (quoted key value) = IsKey key × IsQuotable value
  IsPart (bare key value) = IsKey key × IsToken value

  match_at-quoted :
      (key value b : String)
      → IsKey key
      → IsQuotable value
      → match_at unicode_word (key <> ("=\"" <> (value <> ("\"" <> b))))
        ≡ some (key, value, size (key <> ("=\"" <> (value <> "\""))))
  unfolding match_at ◌<>◌
  match_at-quoted String.[] value b h v = absurd h.0
  match_at-quoted (String.◌∷◌ c key) String.[] b h v = absurd v.some_text
  match_at-quoted (String.◌∷◌ c key) (String.◌∷◌ d value) b h v =
      rw
        (span-<> (is_word unicode_word) (String.◌∷◌ c key)
          ("=\"" <> (String.◌∷◌ d value <> ("\"" <> b))) h.1 refl)
        (rw (span-<> not_quote (String.◌∷◌ d value) ("\"" <> b) v.no_quote refl) refl)

  match_at-bare :
      (key value b : String)
      → IsKey key
      → IsToken value
      → Stops not_end b
      → match_at unicode_word (key <> ("=" <> (value <> b)))
        ≡ some (key, value, size (key <> ("=" <> value)))
  unfolding match_at ◌<>◌
  match_at-bare String.[] value b h v stop = absurd h.0
  match_at-bare (String.◌∷◌ c key) String.[] b h v stop = absurd v.some_text
  match_at-bare (String.◌∷◌ c key) (String.◌∷◌ d value) b h v stop =
      rw
        (span-<> (is_word unicode_word) (String.◌∷◌ c key) ("=" <> (String.◌∷◌ d value <> b)) h.1
          refl)
        (let unquoted : (code d == 34) ≡ false = ground (arith, v.unquoted.0) in
          rw (unquoted, span-<> not_end (String.◌∷◌ d value) b v.no_end stop) refl)

  find_params-skip :
      (a b : String) → find_params unicode_word (size a) (a <> b) ≡ find_params unicode_word 0 b
  unfolding find_params ◌<>◌
  find_params-skip String.[] b = refl
  find_params-skip (String.◌∷◌ c a) b = find_params-skip a b

  find_params-match :
      (a b key value : String)
      → IsNonempty a
      → match_at unicode_word (a <> b) ≡ some (key, value, size a)
      → find_params unicode_word 0 (a <> b) ≡ (key, value) ∷ find_params unicode_word 0 b
  unfolding find_params ◌<>◌
  find_params-match String.[] b key value h e = absurd h
  find_params-match (String.◌∷◌ c a) b key value h e =
      let less : suc (size a) - 1 ≡ size a = omega arith in rw (e, less, find_params-skip a b) refl

  find_params-separator :
      (b : String) → find_params unicode_word 0 (", " <> b) ≡ find_params unicode_word 0 b
  unfolding find_params match_at is_word span ◌<>◌
  find_params-separator b = refl

  quoted_text :
      (key value b : String)
      → part_text (quoted key value) <> b ≡ key <> ("=\"" <> (value <> ("\"" <> b)))
  unfolding part_text ◌<>◌
  quoted_text key value b =
      <>_assoc key ("=\"" <> (value <> "\"")) b
      ∙ ap (λ s. key <> ("=\"" <> s)) (<>_assoc value "\"" b)

  bare_text :
      (key value b : String) → part_text (bare key value) <> b ≡ key <> ("=" <> (value <> b))
  unfolding part_text ◌<>◌
  bare_text key value b = <>_assoc key ("=" <> value) b

  <>-IsNonempty : (a b : String) → IsNonempty a → IsNonempty (a <> b)
  unfolding ◌<>◌
  <>-IsNonempty String.[] b h = absurd h
  <>-IsNonempty (String.◌∷◌ c a) b h = tt

  find_params-part :
      (p : Part) (b : String)
      → IsPart p
      → Stops not_end b
      → find_params unicode_word 0 (part_text p <> b) ≡ pair_of p ∷ find_params unicode_word 0 b
  unfolding part_text
  find_params-part (quoted key value) b h stop =
      find_params-match (part_text (quoted key value)) b key value (<>-IsNonempty key _ h.0.0)
        (ap (match_at unicode_word) (quoted_text key value b) ∙ match_at-quoted key value b h.0 h.1)
  find_params-part (bare key value) b h stop =
      find_params-match (part_text (bare key value)) b key value (<>-IsNonempty key _ h.0.0) (
        ap (match_at unicode_word) (bare_text key value b) ∙ match_at-bare key value b h.0 h.1 stop)

  -- The parameters of a header are found as they were written, in their order.
  pub find_params-join_parts :
      (ps : List Part) → All IsPart ps → find_params unicode_word 0 (join_parts ps) ≡ map pair_of ps
  unfolding join_parts find_params ◌<>◌
  find_params-join_parts [] h = refl
  find_params-join_parts (p ∷ []) h =
      ap (find_params unicode_word 0) (sym (<>-empty (part_text p))) ∙ find_params-part p "" h.0 tt
  find_params-join_parts (p ∷ q ∷ ps) h =
      find_params-part p (", " <> join_parts (q ∷ ps)) h.0 refl
      ∙ ap (λ found. pair_of p ∷ found)
          (find_params-separator (join_parts (q ∷ ps)) ∙ find_params-join_parts (q ∷ ps) h.1)
