-- ===== src/Public/WsAuth/SingleUse.antt =====
-- A token of app/api/v1/public/ws_auth.py that was used, and what comes after.
use ekaette.Prelude.{
  ℕ, suc, ◌+◌, ◌≤◌, ◌<◌, String, ◌≡◌, refl, ap, ◌∙◌, ◌⊎◌, inl, inr, ◌||◌, Option, none, some, List,
  [], ◌∷◌, arith, str_eq, Bool-cases, Option-cases, length, All,
}
use ekaette.Prelude.Split.{split_at}
use ekaette.Dict.{HasUniqueKeys}
use mathlib.Core.Option.{none-ne-some}
use mathlib.Core.Path.{subst, sym}
use ekaette.Public.WsAuth.{
  signed_payload, WsTokenClaims, UsedJtis, max_used_jtis, check_ws_token, consume_if,
  validate_ws_token,
}
use ekaette.Public.WsAuth.Used.{
  Holds, consume_if-Holds, accepted_first, inserted-Holds, checked_fact, used_again, or_claims,
}

-- A token that comes, and the two readings of the clock.
pub record Attempt : Type 0 where
  pub token : String
  pub user_id : String
  pub now : ℕ
  pub later : ℕ

still_live : (exp now later : ℕ) → now ≤ exp → (exp < now) ⊎ (later ≤ exp) → later ≤ exp
still_live exp now later live (inl past) = omega (arith, live, past)
still_live exp now later live (inr fine) = fine

attempts_live :
    (now exp : ℕ) (attempts : List Attempt)
    → now ≤ exp
    → All (λ a. a.later ≤ now) attempts
    → All (λ a. a.later ≤ exp) attempts
attempts_live now exp [] live h = tt
attempts_live now exp (a ∷ attempts) live h =
    (omega (arith, live, h.0), attempts_live now exp attempts live h.1)

module _ (hmac : String → String → String) (encode64 : String → String)
    (decode64 : String → Option String) (write_json : WsTokenClaims → String)
    (read_json : String → Option WsTokenClaims) (secret : String) where
  unfoldable pub after_all : List Attempt → UsedJtis → UsedJtis
  unfolding validate_ws_token
  after_all [] used = used
  after_all (a ∷ attempts) used =
      after_all attempts
        (validate_ws_token hmac encode64 decode64 write_json read_json secret a.token a.user_id
          a.now a.later used).1

  after_all-Holds :
      (jti : String) (exp n : ℕ) (attempts : List Attempt) (used : UsedJtis)
      → All (λ a. a.later ≤ exp) attempts
      → n + length attempts ≤ max_used_jtis
      → Holds jti exp n used
      → Holds jti exp (n + length attempts) (after_all attempts used)
  unfolding after_all validate_ws_token
  after_all-Holds jti exp n [] used live few h = subst (λ m. Holds jti exp m used) (omega arith) h
  after_all-Holds jti exp n (a ∷ attempts) used live few h =
      subst (λ m. Holds jti exp m (after_all (a ∷ attempts) used)) (omega arith)
        (after_all-Holds jti exp (suc n) attempts _ live.1 (omega (arith, few)) (
          consume_if-Holds jti exp n
            (check_ws_token hmac encode64 decode64 write_json read_json secret a.token a.user_id
              a.now)
            a.later used live.0 (omega (arith, few)) h))

  check_fact :
      (claims : WsTokenClaims) (token user_id : String) (now : ℕ)
      → check_ws_token hmac encode64 decode64 write_json read_json secret token user_id now
        ≡ some claims
      → (signed_payload hmac encode64 decode64 write_json read_json secret (split_at b'.' token)
          ≡ some claims)
        × (now ≤ claims.exp)
  unfolding check_ws_token
  check_fact claims token user_id now h = elim (Bool-cases (str_eq secret "" || str_eq token "")) [
    | inl off ↦ absurd (none-ne-some claims (rw off at h))
    | inr on ↦ checked_fact claims user_id now _ (rw on at h)
  ]

  -- A token that was accepted is not accepted again, for whatever user and whatever tokens came in between, if
  -- the readings of the clock for these came before the check, if it is not just between the check and the
  -- pruning that the token expires, and if the used tokens that are kept and those in between are
  -- fewer than 10000, so that the cap drops none.
  pub validate_ws_token-single_use :
      (token user_id user_id' : String) (now later now' later' : ℕ) (claims : WsTokenClaims)
      (attempts : List Attempt) (used : UsedJtis)
      → HasUniqueKeys used
      → length used + length attempts < max_used_jtis
      → (validate_ws_token hmac encode64 decode64 write_json read_json secret token user_id now
          later used).0
        ≡ some claims
      → All (λ a. a.later ≤ now') attempts
      → (claims.exp < now') ⊎ (later' ≤ claims.exp)
      → (validate_ws_token hmac encode64 decode64 write_json read_json secret token user_id' now'
          later'
          (after_all attempts
            (validate_ws_token hmac encode64 decode64 write_json read_json secret token user_id now
              later used).1)).0
        ≡ none
  unfolding validate_ws_token
  validate_ws_token-single_use token user_id user_id' now later now' later' claims attempts used
        unique few accepted before moment =
      let check = check_ws_token hmac encode64 decode64 write_json read_json secret token in
      let first = accepted_first claims (check user_id now) later used accepted in
      elim (Option-cases (check user_id' now')) [
        | inl refused ↦ rw refused refl
        | inr (c, again) ↦
            let fact = check_fact c token user_id' now' again in
            let same : c ≡ claims =
              ap (or_claims c) (sym fact.0 ∙ (check_fact claims token user_id now first.0).0) in
            let live : now' ≤ claims.exp = subst (λ c. now' ≤ c.exp) same fact.1 in
            let held : Holds claims.jti claims.exp (suc (length used))
                (consume_if (check user_id now) later used).1 =
              rw first.0 (
                inserted-Holds claims later used (length used) unique (omega arith)
                  (omega (arith, few)) first.1) in
            rw again (
              used_again claims c later' (suc (length used) + length attempts) _ same
                (still_live claims.exp now' later' live moment) (omega (arith, few))
                (after_all-Holds claims.jti claims.exp (suc (length used)) attempts _
                  (attempts_live now' claims.exp attempts live before) (omega (arith, few)) held))
      ]
