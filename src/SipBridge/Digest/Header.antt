-- ===== src/SipBridge/Digest/Header.antt =====
-- The parameters of a header of sip_bridge/sip_auth.py, once `parse_challenge` has cut it.
use Prim.Native.Char.{Char}
use ekaette.Prelude.{
  ℕ, String, ◌≡◌, refl, ap, ◌∙◌, inl, inr, Bool, false, some, List, [], ◌∷◌, map, arith, ◌==◌,
  Bool-cases, All, strip,
}
use ekaette.Prelude.Text.{is_space, lstrip, rstrip, keep_before}
use ekaette.Prelude.Split.{◌<>◌}
use ekaette.SipBridge.Challenge.{
  not_end, is_word, drop_name, after_lowered, find_params, checked, params_in, parse_challenge,
}
use ekaette.SipBridge.Challenge.Parts.{
  Part, quoted, bare, pair_of, part_text, join_parts, Passes, IsNonempty,
}
use ekaette.SipBridge.Challenge.Params.{IsPart, find_params-join_parts}
use ekaette.SipBridge.Digest.{auth_name, challenge_name}

-- A text that ends in no space.
abbrev IsRightTrimmed : String → Type 0
IsRightTrimmed s = (rstrip s ≡ s) × IsNonempty s

<>-IsRightTrimmed : (a b : String) → IsRightTrimmed b → IsRightTrimmed (a <> b)
unfolding rstrip keep_before ◌<>◌
<>-IsRightTrimmed String.[] b h = h
<>-IsRightTrimmed (String.◌∷◌ c String.[]) String.[] h = absurd h.1
<>-IsRightTrimmed (String.◌∷◌ c String.[]) (String.◌∷◌ d b) h = (rw h.0 refl, tt)
<>-IsRightTrimmed (String.◌∷◌ c (String.◌∷◌ d a)) b h =
    (rw (<>-IsRightTrimmed (String.◌∷◌ d a) b h).0 refl, tt)

quote_end : IsRightTrimmed "\""
unfolding rstrip is_space
quote_end = (refl, tt)

token_end : (v : String) → IsNonempty v → Passes not_end v → IsRightTrimmed v
unfolding rstrip keep_before
token_end String.[] h p = absurd h
token_end (String.◌∷◌ c String.[]) h p =
    let no_space : is_space c ≡ false = ground (arith, p.0) in (rw no_space refl, tt)
token_end (String.◌∷◌ c (String.◌∷◌ d v)) h p = (rw (token_end (String.◌∷◌ d v) tt p.1).0 refl, tt)

module _ (unicode_word : Char → Bool) where
  part_text-IsRightTrimmed : (p : Part) → IsPart unicode_word p → IsRightTrimmed (part_text p)
  unfolding part_text
  part_text-IsRightTrimmed (quoted key value) h =
      <>-IsRightTrimmed key _ (<>-IsRightTrimmed "=\"" _ (<>-IsRightTrimmed value "\"" quote_end))
  part_text-IsRightTrimmed (bare key value) h =
      <>-IsRightTrimmed key _
        (<>-IsRightTrimmed "=" value (token_end value h.1.some_text h.1.no_end))

  join_parts-IsRightTrimmed :
      (p : Part) (ps : List Part)
      → All (IsPart unicode_word) (p ∷ ps)
      → IsRightTrimmed (join_parts (p ∷ ps))
  unfolding join_parts
  join_parts-IsRightTrimmed p [] h = part_text-IsRightTrimmed p h.0
  join_parts-IsRightTrimmed p (q ∷ ps) h =
      <>-IsRightTrimmed (part_text p) _
        (<>-IsRightTrimmed ", " _ (join_parts-IsRightTrimmed q ps h.1))

  -- What is left of a header with this name, from its parameters on.
  Cuts : String → String → Type 0
  Cuts name params =
      (strip (name <> (": Digest " <> params)) ≡ name <> (": Digest " <> params))
      × (drop_name unicode_word (name <> (": Digest " <> params)) ≡ "Digest " <> params)

  whole-IsRightTrimmed :
      (name params : String)
      → IsRightTrimmed params
      → rstrip (name <> (": Digest " <> params)) ≡ name <> (": Digest " <> params)
  whole-IsRightTrimmed name params h =
      (<>-IsRightTrimmed name _ (<>-IsRightTrimmed ": Digest " params h)).0

  auth_name-Cuts :
      (status_code : ℕ) (params : String)
      → IsRightTrimmed params
      → Cuts (auth_name status_code) params
  unfolding Cuts strip drop_name is_word ◌<>◌
  auth_name-Cuts status_code params h = elim (Bool-cases (status_code == 407)) [
    | inl proxy ↦ rw proxy (whole-IsRightTrimmed "Proxy-Authorization" params h, refl)
    | inr www ↦ rw www (whole-IsRightTrimmed "Authorization" params h, refl)
  ]

  challenge_name-Cuts :
      (status_code : ℕ) (params : String)
      → IsRightTrimmed params
      → Cuts (challenge_name status_code) params
  unfolding Cuts strip drop_name is_word ◌<>◌
  challenge_name-Cuts status_code params h = elim (Bool-cases (status_code == 407)) [
    | inl proxy ↦ rw proxy (whole-IsRightTrimmed "Proxy-Authenticate" params h, refl)
    | inr www ↦ rw www (whole-IsRightTrimmed "WWW-Authenticate" params h, refl)
  ]

  -- The value behind the scheme.
  digest_value :
      (params : String) → after_lowered "digest" ("Digest " <> params) ≡ some (" " <> params)
  unfolding after_lowered ◌<>◌
  digest_value params = refl

  strip-value :
      (params : String)
      → lstrip params ≡ params
      → IsRightTrimmed params
      → strip (" " <> params) ≡ params
  unfolding strip lstrip is_space ◌<>◌
  strip-value params l r = rw l r.0

  parse-whole :
      (whole params : String)
      → strip whole ≡ whole
      → drop_name unicode_word whole ≡ "Digest " <> params
      → lstrip params ≡ params
      → IsRightTrimmed params
      → parse_challenge unicode_word whole ≡ checked (find_params unicode_word 0 params)
  unfolding parse_challenge
  parse-whole whole params e dropped l r =
      rw (e, dropped)
        (ap (params_in unicode_word) (digest_value params)
          ∙ ap (λ s. checked (find_params unicode_word 0 s)) (strip-value params l r))

  -- A header whose first part begins with no space is parsed to its parts, as far as they are checked.
  pub parse_challenge-auth_name :
      (status_code : ℕ) (p : Part) (ps : List Part)
      → All (IsPart unicode_word) (p ∷ ps)
      → lstrip (join_parts (p ∷ ps)) ≡ join_parts (p ∷ ps)
      → parse_challenge unicode_word (auth_name status_code <> (": Digest " <> join_parts (p ∷ ps)))
        ≡ checked (map pair_of (p ∷ ps))
  unfolding Cuts
  parse_challenge-auth_name status_code p ps h l =
      let trimmed = join_parts-IsRightTrimmed p ps h in
      parse-whole _ _ (auth_name-Cuts status_code _ trimmed).0
        (auth_name-Cuts status_code _ trimmed).1 l trimmed
      ∙ ap (checked) (find_params-join_parts unicode_word (p ∷ ps) h)

  pub parse_challenge-challenge_name :
      (status_code : ℕ) (p : Part) (ps : List Part)
      → All (IsPart unicode_word) (p ∷ ps)
      → lstrip (join_parts (p ∷ ps)) ≡ join_parts (p ∷ ps)
      → parse_challenge unicode_word
          (challenge_name status_code <> (": Digest " <> join_parts (p ∷ ps)))
        ≡ checked (map pair_of (p ∷ ps))
  unfolding Cuts
  parse_challenge-challenge_name status_code p ps h l =
      let trimmed = join_parts-IsRightTrimmed p ps h in
      parse-whole _ _ (challenge_name-Cuts status_code _ trimmed).0
        (challenge_name-Cuts status_code _ trimmed).1 l trimmed
      ∙ ap (checked) (find_params-join_parts unicode_word (p ∷ ps) h)

  strip-value_line :
      (params : String) → IsRightTrimmed params → strip ("Digest " <> params) ≡ "Digest " <> params
  unfolding strip lstrip is_space ◌<>◌
  strip-value_line params h = (<>-IsRightTrimmed "Digest " params h).0

  -- The value of such a header, without its name.
  pub parse_challenge-value :
      (p : Part) (ps : List Part)
      → All (IsPart unicode_word) (p ∷ ps)
      → lstrip (join_parts (p ∷ ps)) ≡ join_parts (p ∷ ps)
      → drop_name unicode_word ("Digest " <> join_parts (p ∷ ps)) ≡ "Digest " <> join_parts (p ∷ ps)
      → parse_challenge unicode_word ("Digest " <> join_parts (p ∷ ps))
        ≡ checked (map pair_of (p ∷ ps))
  parse_challenge-value p ps h l named =
      let trimmed = join_parts-IsRightTrimmed p ps h in
      parse-whole _ _ (strip-value_line _ trimmed) named l trimmed
      ∙ ap (checked) (find_params-join_parts unicode_word (p ∷ ps) h)
