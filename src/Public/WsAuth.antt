-- ===== src/Public/WsAuth.antt =====
-- app/api/v1/public/ws_auth.py: the tokens of the web socket, each for one use. The keyed hash, base64 and the
-- JSON of a payload are parameters; the payload is the record that `create_ws_token` writes. A token is
-- checked at one reading of the clock, and the used ones are pruned at a later reading.
pub mod Used
pub mod SingleUse
mod Tests
use ekaette.Prelude.{
  ℕ, zero, suc, ◌+◌, ◌-◌, ◌*◌, String, Bool, false, ◌||◌, not, Option, none, some, List, [], ◌∷◌,
  str_eq, ltb, if◌then◌else◌, length, second,
}
use ekaette.Prelude.Split.{◌<>◌, split_at}
use ekaette.Dict.{Dict, lookup, insert, erase, keys_where, erase_all}

pub record WsTokenClaims : Type 0 where
  pub sub : String
  pub tenant_id : String
  pub company_id : String
  pub exp : ℕ
  pub jti : String
  pub caller_phone : String

-- The expiry of each token that was used, by its id.
abbrev pub UsedJtis : Type 0
UsedJtis = Dict ℕ

abbrev pub max_used_jtis : ℕ
max_used_jtis = 10000

-- the first key with the least expiry
unfoldable pub first_to_expire : String → ℕ → UsedJtis → String
first_to_expire jti exp [] = jti
first_to_expire jti exp ((j, e) ∷ used) =
    let earlier = first_to_expire j e used in
    let later = first_to_expire jti exp used in if ltb e exp then earlier else later

unfoldable pub drop_oldest : ℕ → UsedJtis → UsedJtis
unfolding first_to_expire erase
drop_oldest zero used = used
drop_oldest (suc n) [] = []
drop_oldest (suc n) ((jti, exp) ∷ used) =
    drop_oldest n (erase (first_to_expire jti exp used) ((jti, exp) ∷ used))

unfoldable pub drop_expired : ℕ → UsedJtis → UsedJtis
unfolding keys_where erase_all
drop_expired now used = erase_all (keys_where (λ exp. ltb exp now) used) used

-- the safety cap
unfoldable pub cap : UsedJtis → UsedJtis
unfolding drop_oldest
cap used =
    if ltb max_used_jtis (length used) then drop_oldest (length used - max_used_jtis) used else used

unfoldable pub prune_used_jtis : ℕ → UsedJtis → UsedJtis
unfolding drop_expired cap
prune_used_jtis now used = cap (drop_expired now used)

abbrev pub use_once : WsTokenClaims → Option ℕ → UsedJtis → Option WsTokenClaims × UsedJtis
use_once claims none used = (some claims, insert claims.jti claims.exp used)
use_once claims (some exp) used = (none, used)

-- the use of a token that was checked
unfoldable pub consume : WsTokenClaims → ℕ → UsedJtis → Option WsTokenClaims × UsedJtis
unfolding prune_used_jtis lookup insert
consume claims later used =
    use_once claims (lookup claims.jti (prune_used_jtis later used)) (prune_used_jtis later used)

abbrev pub checked_claims : String → ℕ → Option WsTokenClaims → Option WsTokenClaims
checked_claims expected_user_id now none = none
checked_claims expected_user_id now (some claims) =
    if ltb claims.exp now || not (str_eq claims.sub expected_user_id) || str_eq claims.jti ""
    then none
    else some claims

abbrev pub consume_if : Option WsTokenClaims → ℕ → UsedJtis → Option WsTokenClaims × UsedJtis
consume_if none later used = (none, used)
consume_if (some claims) later used = consume claims later used

abbrev pub is_signature : String → Option String → Bool
is_signature expected none = false
is_signature expected (some actual) = str_eq expected actual

module _ (hmac : String → String → String) (encode64 : String → String)
    (decode64 : String → Option String) (write_json : WsTokenClaims → String)
    (read_json : String → Option WsTokenClaims) (secret : String) where
  abbrev pub read_payload : Option String → Option WsTokenClaims
  read_payload none = none
  read_payload (some text) = read_json text

  -- the payload of a token with three parts, where its signature is right
  abbrev pub signed_payload : List String → Option WsTokenClaims
  signed_payload (header ∷ payload ∷ signature ∷ []) =
      if is_signature (hmac secret (header <> ("." <> payload))) (decode64 signature)
      then read_payload (decode64 payload)
      else none
  signed_payload _ = none

  -- What a token is checked to, before it is used.
  unfoldable pub check_ws_token : String → String → ℕ → Option WsTokenClaims
  unfolding split_at ◌<>◌
  check_ws_token token expected_user_id now =
      if str_eq secret "" || str_eq token ""
      then none
      else checked_claims expected_user_id now (signed_payload (split_at b'.' token))

  unfoldable pub validate_ws_token :
      String → String → ℕ → ℕ → UsedJtis → Option WsTokenClaims × UsedJtis
  unfolding check_ws_token consume
  validate_ws_token token expected_user_id now later used =
      consume_if (check_ws_token token expected_user_id now) later used

  abbrev pub token_header : String
  token_header = encode64 "{\"alg\": \"HS256\", \"typ\": \"WS\"}"

  abbrev pub sign : String → String
  sign signing_input = signing_input <> ("." <> encode64 (hmac secret signing_input))

  -- with the id that is drawn; none is the ValueError of a missing secret
  unfoldable pub create_ws_token :
      String → String → String → ℕ → String → ℕ → String → Option String
  unfolding ◌<>◌
  create_ws_token user_id tenant_id company_id ttl_seconds caller_phone now jti =
      let claims : WsTokenClaims = record {
        sub = user_id;
        tenant_id = tenant_id;
        company_id = company_id;
        exp = now + ttl_seconds * second;
        jti = jti;
        caller_phone = caller_phone;
      } in
      if str_eq secret ""
      then none
      else some (sign (token_header <> ("." <> encode64 (write_json claims))))
