-- ===== src/SipBridge/Digest/Sessions.antt =====
-- A header of sip_bridge/sip_auth.py whose digest uses a nonce that the header does not carry.
use Prim.Native.Char.{Char}
use ekaette.Prelude.{
  ℕ, String, ◌≡◌, refl, ap, ◌∙◌, inl, inr, Bool, true, false, Option, none, some, Bool-cases,
  Option-cases, colon,
}
use ekaette.Prelude.Text.{is_space, lstrip}
use ekaette.Prelude.Split.{◌<>◌}
use ekaette.At.ServiceAuth.{is_ascii}
use mathlib.Core.Path.{subst}
use ekaette.SipBridge.Challenge.{or_md5, Params, get, checked}
use ekaette.SipBridge.Challenge.Parts.{quoted, join_parts, part_text}
use ekaette.SipBridge.Digest.{
  DigestInput, select_qop, is_session, is_text, hash, session_key, respond, check_response,
  compute_digest_response, input_of, drawn, verify_digest, verify_params, later_parts, header_parts,
  build_auth_header, auth_name,
}
use ekaette.SipBridge.Digest.Reads.{params_of, compare_digest_self, built_header}
use ekaette.SipBridge.Digest.Header.{parse_challenge-auth_name}
use ekaette.SipBridge.Digest.Carried.{IsCarried, IsDigest, IsOpaque, header_parts-IsPart}
use ekaette.SipBridge.Digest.RoundTrip.{IsResponse, compute-IsResponse}

-- What a server reads of a header without a qop.
record ReadsBare (d : DigestInput) (params : Params) : Type 0 where
  username : get "username" params ≡ some d.username
  checks : checked params ≡ some params
  algorithm : get "algorithm" params ≡ some d.algorithm
  nc : get "nc" params ≡ none

bare-ReadsBare :
    (d : DigestInput) (cnonce response : String) (opaque : Option String)
    → ReadsBare d (params_of d none cnonce opaque response)
unfolding get
bare-ReadsBare d cnonce response opaque = elim (Bool-cases (is_text opaque)) [
  | inl o ↦ rw o (record { username = refl; checks = refl; algorithm = refl; nc = refl })
  | inr o ↦ rw o (record { username = refl; checks = refl; algorithm = refl; nc = refl })
]

module _ (md5 sha256 : String → String) where
  no_key :
      (d : DigestInput) (ha1 : String)
      → is_session d.algorithm ≡ true
      → d.nc ≡ none
      → session_key md5 sha256 d ha1 ≡ none
  unfolding session_key
  no_key d ha1 session e = rw (session, e) refl

  no_response :
      (d : DigestInput)
      → is_session d.algorithm ≡ true
      → d.nc ≡ none
      → compute_digest_response md5 sha256 d ≡ none
  unfolding compute_digest_response respond
  no_response d session e =
      elim (Option-cases
        (hash md5 sha256 (colon d.username (colon d.realm d.password)) d.algorithm)) [
          | inl failed ↦ rw failed refl
          | inr (ha1, hashed) ↦ rw (hashed, no_key d ha1 session e) refl
        ]

  verify_params-ReadsBare :
      (d : DigestInput) (params : Params)
      → ReadsBare d params
      → is_ascii d.username ≡ true
      → is_session d.algorithm ≡ true
      → verify_params md5 sha256 d.username d.password d.method (some params) ≡ some false
  unfolding input_of
  verify_params-ReadsBare d params r ascii session =
      let is_one : is_session (or_md5 (get "algorithm" params)) ≡ true =
        ap (λ o. is_session (or_md5 o)) r.algorithm ∙ session in
      rw (r.username, compare_digest_self d.username ascii)
        (ap (λ o. check_response o (get "response" params))
          (no_response (input_of d.username d.password d.method params) is_one r.nc))

  sent-refused :
      (unicode_word : Char → Bool) (status_code : ℕ) (d : DigestInput) (opaque : Option String)
      (cnonce response : String)
      → IsDigest md5
      → IsDigest sha256
      → IsCarried d cnonce
      → IsOpaque opaque
      → is_session d.algorithm ≡ true
      → compute_digest_response md5 sha256 (drawn d none cnonce) ≡ some response
      → verify_digest md5 sha256 unicode_word
          (auth_name status_code
            <> (": Digest " <> join_parts (header_parts d none cnonce opaque response)))
          d.username
          d.password
          d.method
        ≡ some false
  unfolding verify_digest join_parts part_text lstrip is_space ◌<>◌
  sent-refused unicode_word status_code d opaque cnonce response h5 h256 c o session computed =
      let digest : IsResponse md5 sha256 unicode_word h5 h256 (some response) =
        subst (IsResponse md5 sha256 unicode_word h5 h256) computed
          (compute-IsResponse md5 sha256 unicode_word h5 h256 (drawn d none cnonce)) in
      let parts = header_parts-IsPart unicode_word d none cnonce response opaque c digest.0 tt o in
      let reads = bare-ReadsBare d cnonce response opaque in
      ap (verify_params md5 sha256 d.username d.password d.method) (
        parse_challenge-auth_name unicode_word status_code (quoted "username" d.username)
          (later_parts d none cnonce opaque response) parts refl
        ∙ reads.checks)
      ∙ verify_params-ReadsBare d (params_of d none cnonce opaque response) reads c.ascii session

  -- Where the challenge selects no qop and the algorithm is one of a session, the header that the client
  -- builds is refused, whatever the password: its digest is made with a random nonce that the header does
  -- not carry. Its texts can be carried, and the hashes give digits.
  pub verify_digest-session_without_qop :
      (unicode_word : Char → Bool) (status_code : ℕ) (d : DigestInput) (opaque : Option String)
      (cnonce header : String)
      → IsDigest md5
      → IsDigest sha256
      → IsCarried d cnonce
      → IsOpaque opaque
      → select_qop d.qop ≡ none
      → is_session d.algorithm ≡ true
      → build_auth_header md5 sha256 status_code d opaque cnonce ≡ some header
      → verify_digest md5 sha256 unicode_word header d.username d.password d.method ≡ some false
  verify_digest-session_without_qop unicode_word status_code d opaque cnonce header h5 h256 c o e
        session built =
      let (response, computed, sent) =
        built_header md5 sha256 status_code d opaque cnonce header built in
      subst
        (λ h. verify_digest md5 sha256 unicode_word h d.username d.password d.method ≡ some false)
        (rw e at sent)
        (sent-refused unicode_word status_code d opaque cnonce response h5 h256 c o session
          (rw e at computed))
