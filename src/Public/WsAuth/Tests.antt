-- ===== src/Public/WsAuth/Tests.antt =====
-- A token of app/api/v1/public/ws_auth.py, with no encoding and its payload known.
use ekaette.Prelude.{String, ◌≡◌, refl, inr, Option, none, some, [], ◌∷◌, arith}
use ekaette.Dict.{lookup, erase_all, keys_where}
use ekaette.Prelude.Split.{◌<>◌}
use ekaette.Public.WsAuth.{WsTokenClaims, validate_ws_token, create_ws_token}
use ekaette.Public.WsAuth.SingleUse.{Attempt, after_all, validate_ws_token-single_use}

keyed : String → String → String
keyed secret text = secret

same : String → String
same s = s

decoded : String → Option String
decoded s = some s

abbrev claims : WsTokenClaims
claims = record {
  sub = "u";
  tenant_id = "t";
  company_id = "k";
  exp = 4194304;
  jti = "j";
  caller_phone = "";
}

written : WsTokenClaims → String
written c = "p"

payload : String → Option WsTokenClaims
payload s = some claims

abbrev token : String
token = "h.p.z"

created :
    create_ws_token keyed same decoded written payload "z" "u" "t" "k" 1 "" 0 "j"
    ≡ some "{\"alg\": \"HS256\", \"typ\": \"WS\"}.p.z"
unfolding create_ws_token keyed same written ◌<>◌
created = refl

-- The token expires between its check and the pruning: it is accepted again.
expiring :
    (validate_ws_token keyed same decoded written payload "z" token "u" 4194304 4194305
      (("j", 4194304) ∷ [])).0
    ≡ some claims
unfolding validate_ws_token keyed same decoded payload ◌<>◌ lookup erase_all keys_where
expiring = refl

abbrev other : Attempt
other = record { token = "x"; user_id = "u"; now = 5; later = 6 }

validate_ws_token-single_use_example :
    (validate_ws_token keyed same decoded written payload "z" token "v" 7 8 (
      after_all keyed same decoded written payload "z"
        (other ∷ [])
        (validate_ws_token keyed same decoded written payload "z" token "u" 3 4 []).1)).0
    ≡ none
unfolding validate_ws_token keyed decoded payload ◌<>◌ lookup erase_all keys_where
validate_ws_token-single_use_example =
    validate_ws_token-single_use keyed same decoded written payload "z" token "u" "v" 3 4 7 8 claims
      (other ∷ []) [] tt (omega arith) refl (omega arith, tt) (inr (omega arith))
