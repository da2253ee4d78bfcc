-- ===== src/SipBridge/Digest.antt =====
-- sip_bridge/sip_auth.py: the digests of a SIP client, and their verification. The hashes are
-- parameters, and so are the letters and digits beyond ASCII.
pub mod Header
pub mod Reads
pub mod Carried
pub mod RoundTrip
pub mod Sessions
pub mod Tests
use Prim.Native.Char.{Char, code}
use ekaette.Prelude.{
  ℕ, ◌-◌, String, Bool, true, false, ◌&&◌, ◌||◌, not, Option, none, some, List, [], ◌∷◌, ◌++◌,
  str_eq, leb, ◌==◌, if◌then◌else◌, colon, strip,
}
use ekaette.Prelude.Split.{◌<>◌, split_at}
use ekaette.Dict.{key_in}
use ekaette.At.ServiceAuth.{compare_digest}
use ekaette.SipBridge.Challenge.{Params, get, algorithm_of, parse_challenge}
use ekaette.SipBridge.Challenge.Parts.{Part, quoted, bare, join_parts}

infixl 5 ◌>>=◌
abbrev pub ◌>>=◌ {ℓ κ} : {A : Type ℓ} {B : Type κ} → Option A → (A → Option B) → Option B
none >>= f = none
some a >>= f = f a

-- The codes of `s.upper()`, where they may be those of the words below: the long s, and the sharp s, which
-- becomes two letters.
unfoldable pub upper_codes : String → List ℕ
upper_codes String.[] = []
upper_codes (String.◌∷◌ ch s) =
    let rest = upper_codes s in
    let c = code ch in
    if c == 223
    then b'S' ∷ b'S' ∷ rest
    else (if c == 383 then b'S' else if leb b'a' c && leb c b'z' then c - 32 else c) ∷ rest

unfoldable pub are_codes : String → List ℕ → Bool
are_codes String.[] [] = true
are_codes String.[] (c ∷ codes) = false
are_codes (String.◌∷◌ d word) [] = false
are_codes (String.◌∷◌ d word) (c ∷ codes) = code d == c && are_codes word codes

unfoldable pub end_in : String → List ℕ → Bool
unfolding are_codes
end_in word [] = are_codes word []
end_in word (c ∷ codes) = are_codes word (c ∷ codes) || end_in word codes

-- `algorithm.upper().endswith("-SESS")`
unfoldable pub is_session : String → Bool
unfolding upper_codes end_in
is_session algorithm = end_in "-SESS" (upper_codes algorithm)

-- `[t.strip() for t in tokens]`
unfoldable pub stripped : List String → List String
unfolding strip
stripped [] = []
stripped (t ∷ ts) = strip t ∷ stripped ts

abbrev pub first_token : List String → Option String
first_token [] = none
first_token (t ∷ ts) = some t

unfoldable pub choose_qop : List String → Option String
choose_qop tokens =
    if key_in "auth" tokens
    then some "auth"
    else if key_in "auth-int" tokens
    then some "auth-int"
    else first_token tokens

unfoldable pub select_qop : Option String → Option String
unfolding choose_qop stripped split_at
select_qop none = none
select_qop (some qop) = choose_qop (stripped (split_at b',' qop))

-- What a response is computed from.
pub record DigestInput : Type 0 where
  pub username : String
  pub realm : String
  pub password : String
  pub nonce : String
  pub method : String
  pub uri : String
  pub algorithm : String
  pub qop : Option String
  pub nc : Option String
  pub cnonce : Option String

-- `selected_qop and selected_qop in ("auth", "auth-int")`
abbrev pub is_offered : Option String → Bool
is_offered none = false
is_offered (some qop) = str_eq qop "auth" || str_eq qop "auth-int"

abbrev pub both : Option String → Option String → Option (String × String)
both (some nc) (some cnonce) = some (nc, cnonce)
both (some nc) none = none
both none client_nonce = none

abbrev pub or_empty : Option String → String
or_empty none = ""
or_empty (some s) = s

-- `if s:`
abbrev pub is_text : Option String → Bool
is_text none = false
is_text (some s) = not (str_eq s "")

abbrev pub auth_name : ℕ → String
auth_name status_code = if status_code == 407 then "Proxy-Authorization" else "Authorization"

-- What a header's parameters and the expected credentials give to the digest.
unfoldable pub input_of : String → String → String → Params → DigestInput
unfolding get select_qop
input_of username password method params = record {
  username = username;
  realm = or_empty (get "realm" params);
  password = password;
  nonce = or_empty (get "nonce" params);
  method = method;
  uri = or_empty (get "uri" params);
  algorithm = algorithm_of params;
  qop = select_qop (get "qop" params);
  nc = get "nc" params;
  cnonce = get "cnonce" params;
}

abbrev pub check_response : Option String → Option String → Option Bool
check_response none provided = some false
check_response (some expected) none = some false
check_response (some expected) (some provided) = compare_digest expected provided

abbrev pub check_username : Option Bool → Option Bool → Option Bool
check_username none response = none
check_username (some false) response = some false
check_username (some true) response = response

abbrev pub qop_parts : Option String → String → List Part
qop_parts selected cnonce =
    if is_text selected
    then bare "qop" (or_empty selected) ∷ bare "nc" "00000001" ∷ quoted "cnonce" cnonce ∷ []
    else []

abbrev pub opaque_parts : Option String → List Part
opaque_parts opaque = if is_text opaque then quoted "opaque" (or_empty opaque) ∷ [] else []

-- The parts of a client's header behind the user name, and all of them.
abbrev pub later_parts : DigestInput → Option String → String → Option String → String → List Part
later_parts d selected cnonce opaque response =
    quoted "realm" d.realm
    ∷ quoted "nonce" d.nonce
    ∷ quoted "uri" d.uri
    ∷ quoted "response" response
    ∷ bare "algorithm" d.algorithm
    ∷ (qop_parts selected cnonce ++ opaque_parts opaque)

abbrev pub header_parts : DigestInput → Option String → String → Option String → String → List Part
header_parts d selected cnonce opaque response =
    quoted "username" d.username ∷ later_parts d selected cnonce opaque response

-- The input of a client, with the qop that is selected and the random cnonce where one is drawn.
abbrev pub drawn : DigestInput → Option String → String → DigestInput
drawn d selected cnonce =
    let draws = is_text selected || is_session d.algorithm in
    record d {
      qop = selected;
      nc = if draws then some "00000001" else none;
      cnonce = if draws then some cnonce else none;
    }

-- none is the ValueError where a nonce is missing
abbrev pub with_nonces :
    Option (String × String) → (String → String → Option String) → Option String
with_nonces none f = none
with_nonces (some (nc, cnonce)) f = f nc cnonce

-- `algorithm.upper() in ("MD5", "MD5-SESS")`
unfoldable pub is_md5 : String → Bool
unfolding upper_codes are_codes
is_md5 algorithm =
    are_codes "MD5" (upper_codes algorithm) || are_codes "MD5-SESS" (upper_codes algorithm)

unfoldable pub is_sha256 : String → Bool
unfolding upper_codes are_codes
is_sha256 algorithm =
    are_codes "SHA-256" (upper_codes algorithm) || are_codes "SHA-256-SESS" (upper_codes algorithm)

module _ (md5 sha256 : String → String) where
  -- none is the ValueError
  unfoldable pub hash : String → String → Option String
  unfolding is_md5 is_sha256
  hash text algorithm =
      if is_md5 algorithm
      then some (md5 text)
      else if is_sha256 algorithm
      then some (sha256 text)
      else none

  -- HA1, with the nonces where the algorithm is one of a session
  unfoldable pub session_key : DigestInput → String → Option String
  unfolding hash is_session
  session_key d ha1 =
      if is_session d.algorithm
      then with_nonces (both d.nc d.cnonce)
          (λ nc cnonce. hash (colon ha1 (colon d.nonce cnonce)) d.algorithm)
      else some ha1

  unfoldable pub final_hash : DigestInput → String → String → Option String → Option String
  unfolding hash
  final_hash d ha1 ha2 selected_qop =
      if is_offered selected_qop
      then with_nonces (both d.nc d.cnonce) (λ nc cnonce.
        hash
          (colon ha1 (colon d.nonce (colon nc (colon cnonce (colon (or_empty selected_qop) ha2)))))
          d.algorithm)
      else hash (colon ha1 (colon d.nonce ha2)) d.algorithm

  -- with the qop that is selected
  unfoldable pub respond : DigestInput → Option String → Option String
  unfolding session_key hash final_hash
  respond d selected_qop = do
    ha1 ← hash (colon d.username (colon d.realm d.password)) d.algorithm
    key ← session_key d ha1
    ha2 ← hash (colon d.method d.uri) d.algorithm
    final_hash d key ha2 selected_qop

  unfoldable pub compute_digest_response : DigestInput → Option String
  unfolding respond select_qop
  compute_digest_response d = respond d (select_qop d.qop)

  abbrev pub verify_named : String → String → String → Params → Option String → Option Bool
  verify_named username password method params none = some false
  verify_named username password method params (some provided) =
      check_username (compare_digest provided username) (
        check_response (compute_digest_response (input_of username password method params))
          (get "response" params))

  abbrev pub verify_params : String → String → String → Option Params → Option Bool
  verify_params username password method none = some false
  verify_params username password method (some params) =
      verify_named username password method params (get "username" params)

  -- none where `compare_digest` raises
  unfoldable pub verify_digest : (Char → Bool) → String → String → String → String → Option Bool
  unfolding parse_challenge get compute_digest_response input_of compare_digest
  verify_digest unicode_word auth_value username password method =
      verify_params username password method (parse_challenge unicode_word auth_value)

  unfoldable pub build_auth_header : ℕ → DigestInput → Option String → String → Option String
  unfolding select_qop is_session compute_digest_response join_parts ◌<>◌
  build_auth_header status_code d opaque cnonce = do
    response ← compute_digest_response (drawn d (select_qop d.qop) cnonce)
    some (
        auth_name status_code
        <> (": Digest " <> join_parts (header_parts d (select_qop d.qop) cnonce opaque response)))

abbrev pub challenge_name : ℕ → String
challenge_name status_code = if status_code == 407 then "Proxy-Authenticate" else "WWW-Authenticate"

abbrev pub challenge_parts : String → String → String → String → List Part
challenge_parts realm algorithm qop nonce =
    quoted "realm" realm ∷ quoted "nonce" nonce ∷ bare "algorithm" algorithm ∷ quoted "qop" qop ∷ []

-- with the nonce that is generated
unfoldable pub build_challenge_header : ℕ → String → String → String → String → String
unfolding join_parts ◌<>◌
build_challenge_header status_code realm algorithm qop nonce =
    challenge_name status_code
    <> (": Digest " <> join_parts (challenge_parts realm algorithm qop nonce))
