-- ===== src/SipBridge/Digest/Reads.antt =====
-- What a server of sip_bridge/sip_auth.py reads of a client's header, and what it computes from it.

use ekaette.Prelude.{
  ℕ, String, ◌≡◌, refl, ap, ◌∙◌, ◌⊎◌, inl, inr, true, false, Option, none, some, List, ◌++◌, map,
  arith, eq_refl, Bool-cases, Option-cases,
}
use ekaette.At.ServiceAuth.{is_ascii, compare_digest}
use ekaette.SipBridge.Challenge.{or_md5, Params, get, checked}
use ekaette.SipBridge.Challenge.Parts.{Part, pair_of}
use ekaette.Prelude.Split.{◌<>◌}
use ekaette.SipBridge.Challenge.Parts.{join_parts}
use ekaette.SipBridge.Digest.{
  build_auth_header, auth_name, DigestInput, select_qop, is_session, respond, session_key,
  final_hash, compute_digest_response, input_of, drawn, check_response, verify_params, header_parts,
  qop_parts, opaque_parts, is_text, or_empty,
}

pub compare_digest_self : (s : String) → is_ascii s ≡ true → compare_digest s s ≡ some true
unfolding compare_digest
compare_digest_self s h = rw (h, eq_refl s) refl

-- What the server reads is what the client computed with.
pub record Reads (d : DigestInput) (response : String) (params : Params) : Type 0 where
  pub username : get "username" params ≡ some d.username
  pub realm : get "realm" params ≡ some d.realm
  pub nonce : get "nonce" params ≡ some d.nonce
  pub uri : get "uri" params ≡ some d.uri
  pub algorithm : get "algorithm" params ≡ some d.algorithm
  pub response_read : get "response" params ≡ some response
  pub qop : get "qop" params ≡ d.qop
  pub nc : get "nc" params ≡ d.nc
  pub cnonce : get "cnonce" params ≡ d.cnonce

input_of-Reads :
    (d : DigestInput) (response : String) (params : Params)
    → Reads d response params
    → input_of d.username d.password d.method params ≡ record d { qop = select_qop d.qop }
unfolding input_of
input_of-Reads d response params r = λ i. record {
  username = d.username;
  realm = or_empty (r.realm i);
  password = d.password;
  nonce = or_empty (r.nonce i);
  method = d.method;
  uri = or_empty (r.uri i);
  algorithm = or_md5 (r.algorithm i);
  qop = select_qop (r.qop i);
  nc = r.nc i;
  cnonce = r.cnonce i;
}

module _ (md5 sha256 : String → String) where
  -- The server computes the response that the client computed.
  pub verify_params-Reads :
      (d : DigestInput) (response : String) (params : Params)
      → Reads d response params
      → compute_digest_response md5 sha256 d ≡ some response
      → select_qop (select_qop d.qop) ≡ select_qop d.qop
      → is_ascii d.username ≡ true
      → is_ascii response ≡ true
      → verify_params md5 sha256 d.username d.password d.method (some params) ≡ some true
  unfolding compute_digest_response respond session_key final_hash
  verify_params-Reads d response params r computed again ascii digits =
      let input = input_of-Reads d response params r in
      let same : compute_digest_response md5 sha256 (record d { qop = select_qop d.qop })
          ≡ some response =
        ap (respond md5 sha256 d) again ∙ computed in
      rw (r.username, compare_digest_self d.username ascii, r.response_read)
        (ap (λ e. check_response (compute_digest_response md5 sha256 e) (some response)) input
          ∙ ap (λ e. check_response e (some response)) same
          ∙ compare_digest_self response digits)

-- What ends a header, behind the algorithm.
abbrev pub extra_parts : Option String → String → Option String → List Part
extra_parts selected cnonce opaque = qop_parts selected cnonce ++ opaque_parts opaque

abbrev pub params_of : DigestInput → Option String → String → Option String → String → Params
params_of d selected cnonce opaque response =
    map pair_of (header_parts d selected cnonce opaque response)

pub header-Reads :
    (d : DigestInput) (q : Option String) (cnonce response : String) (opaque : Option String)
    → (is_text q ≡ true) ⊎ ((q ≡ none) × (is_session d.algorithm ≡ false))
    → Reads (drawn d q cnonce) response (params_of d q cnonce opaque response)
unfolding get
header-Reads d none cnonce response opaque (inl h) = absurd (cc h)
header-Reads d (some q) cnonce response opaque (inr h) = absurd (cc h.0)
header-Reads d (some q) cnonce response opaque (inl h) = elim (Bool-cases (is_text opaque)) [
  | inl o ↦
      rw (h, o)
        (record {
          username = refl;
          realm = refl;
          nonce = refl;
          uri = refl;
          algorithm = refl;
          response_read = refl;
          qop = refl;
          nc = refl;
          cnonce = refl;
        })
  | inr o ↦
      rw (h, o)
        (record {
          username = refl;
          realm = refl;
          nonce = refl;
          uri = refl;
          algorithm = refl;
          response_read = refl;
          qop = refl;
          nc = refl;
          cnonce = refl;
        })
]
header-Reads d none cnonce response opaque (inr (e, h)) = elim (Bool-cases (is_text opaque)) [
  | inl o ↦
      rw (h, o)
        (record {
          username = refl;
          realm = refl;
          nonce = refl;
          uri = refl;
          algorithm = refl;
          response_read = refl;
          qop = refl;
          nc = refl;
          cnonce = refl;
        })
  | inr o ↦
      rw (h, o)
        (record {
          username = refl;
          realm = refl;
          nonce = refl;
          uri = refl;
          algorithm = refl;
          response_read = refl;
          qop = refl;
          nc = refl;
          cnonce = refl;
        })
]

pub checked-Reads :
    (d : DigestInput) (response : String) (params : Params)
    → Reads d response params
    → checked params ≡ some params
checked-Reads d response params r = rw (r.realm, r.nonce) refl

-- A header that was built has a response that was computed.
pub built_header :
    (md5 sha256 : String → String) (status_code : ℕ) (d : DigestInput) (opaque : Option String)
    (cnonce header : String)
    → build_auth_header md5 sha256 status_code d opaque cnonce ≡ some header
    → (response : String) × (compute_digest_response md5 sha256 (drawn d (select_qop d.qop) cnonce)
        ≡ some response)
      × (auth_name status_code
            <> (": Digest "
                <> join_parts (header_parts d (select_qop d.qop) cnonce opaque response))
          ≡ header)
unfolding build_auth_header
built_header md5 sha256 status_code d opaque cnonce header built =
    elim (Option-cases (compute_digest_response md5 sha256 (drawn d (select_qop d.qop) cnonce))) [
      | inl failed ↦ absurd (ground (arith, failed, built))
      | inr (response, computed) ↦ (response, computed, ground (arith, computed, built))
    ]
