-- ===== src/SipBridge/Digest/RoundTrip.antt =====
-- The client's header of sip_bridge/sip_auth.py passes the server's check, and the server's challenge
-- is read by the client.
use Prim.Native.Char.{Char}
use ekaette.Prelude.{
  ℕ, String, ◌≡◌, refl, ap, ◌∙◌, ◌⊎◌, inl, inr, Bool, true, false, Option, none, some,
  if◌then◌else◌, Bool-cases, colon, strip,
}
use mathlib.Core.Path.{subst}
use ekaette.Prelude.Text.{is_space, lstrip}
use ekaette.Prelude.Split.{◌<>◌}
use ekaette.At.ServiceAuth.{is_ascii}
use ekaette.SipBridge.Challenge.{not_end, not_quote}
use ekaette.SipBridge.Challenge.Parts.{quoted, IsQuotable, join_parts, part_text, IsToken}
use ekaette.SipBridge.Digest.{
  DigestInput, select_qop, hash, respond, session_key, final_hash, compute_digest_response,
  is_offered, both, with_nonces, is_md5, is_sha256, ◌>>=◌, verify_digest, is_text,
  build_auth_header, is_session, drawn, auth_name, header_parts, verify_params, later_parts,
}
use ekaette.SipBridge.Digest.Carried.{
  IsDigest, IsCarried, IsQop, IsOpaque, all_pass, header_parts-IsPart, all_pass-Passes,
}
use ekaette.SipBridge.Digest.Reads.{
  built_header, header-Reads, checked-Reads, verify_params-Reads, params_of,
}
use ekaette.SipBridge.Digest.Header.{parse_challenge-auth_name}

module _ (md5 sha256 : String → String) (unicode_word : Char → Bool) (h5 : IsDigest md5)
    (h256 : IsDigest sha256) where
  -- Every response is a digest.
  abbrev pub IsResponse : Option String → Type 0
  IsResponse none = Unit
  IsResponse (some r) = IsQuotable r × (is_ascii r ≡ true)

  if_IsResponse :
      (test : Bool) (x y : Option String)
      → IsResponse x
      → IsResponse y
      → IsResponse (if test then x else y)
  if_IsResponse true x y h k = h
  if_IsResponse false x y h k = k

  hash-IsResponse : (text algorithm : String) → IsResponse (hash md5 sha256 text algorithm)
  unfolding hash
  hash-IsResponse text algorithm =
      if_IsResponse (is_md5 algorithm) (some (md5 text))
        (if is_sha256 algorithm then some (sha256 text) else none) (h5.quotable text, h5.ascii text)
        (if_IsResponse (is_sha256 algorithm) (some (sha256 text)) none
          (h256.quotable text, h256.ascii text) tt)

  bind-IsResponse :
      {A : Type 0} (o : Option A) (f : A → Option String)
      → ((a : A) → IsResponse (f a))
      → IsResponse (o >>= f)
  bind-IsResponse none f h = tt
  bind-IsResponse (some a) f h = h a

  with_nonces-IsResponse :
      (o : Option (String × String)) (f : String → String → Option String)
      → ((nc c : String) → IsResponse (f nc c))
      → IsResponse (with_nonces o f)
  with_nonces-IsResponse none f h = tt
  with_nonces-IsResponse (some (nc, c)) f h = h nc c

  final_hash-IsResponse :
      (d : DigestInput) (ha1 ha2 : String) (q : Option String)
      → IsResponse (final_hash md5 sha256 d ha1 ha2 q)
  unfolding final_hash
  final_hash-IsResponse d ha1 ha2 q = elim (Bool-cases (is_offered q)) [
    | inl offered ↦
        rw offered
          (with_nonces-IsResponse (both d.nc d.cnonce) _ (λ nc c. hash-IsResponse _ d.algorithm))
    | inr other ↦ rw other (hash-IsResponse _ d.algorithm)
  ]

  pub compute-IsResponse : (d : DigestInput) → IsResponse (compute_digest_response md5 sha256 d)
  unfolding compute_digest_response respond
  compute-IsResponse d =
      bind-IsResponse (hash md5 sha256 (colon d.username (colon d.realm d.password)) d.algorithm) _
        (λ ha1. bind-IsResponse (session_key md5 sha256 d ha1) _ (λ key.
          bind-IsResponse (hash md5 sha256 (colon d.method d.uri) d.algorithm) _
            (λ ha2. final_hash-IsResponse d key ha2 (select_qop d.qop))))

  -- A header with the response to these texts passes.
  sent-verifies :
      (status_code : ℕ) (d : DigestInput) (q : Option String) (cnonce response : String)
      (opaque : Option String)
      → IsCarried d cnonce
      → IsQop q
      → IsOpaque opaque
      → (is_text q ≡ true) ⊎ ((q ≡ none) × (is_session d.algorithm ≡ false))
      → select_qop q ≡ q
      → compute_digest_response md5 sha256 (drawn d q cnonce) ≡ some response
      → verify_digest md5 sha256 unicode_word
          (auth_name status_code
            <> (": Digest " <> join_parts (header_parts d q cnonce opaque response)))
          d.username
          d.password
          d.method
        ≡ some true
  unfolding verify_digest join_parts part_text lstrip is_space ◌<>◌
  sent-verifies status_code d q cnonce response opaque carried token op draws idem computed =
      let digest : IsResponse (some response) =
        subst IsResponse computed (compute-IsResponse (drawn d q cnonce)) in
      let parts =
        header_parts-IsPart unicode_word d q cnonce response opaque carried digest.0 token op in
      let reads = header-Reads d q cnonce response opaque draws in
      ap (verify_params md5 sha256 d.username d.password d.method) (
        parse_challenge-auth_name unicode_word status_code (quoted "username" d.username)
          (later_parts d q cnonce opaque response) parts refl
        ∙ checked-Reads (drawn d q cnonce) response (params_of d q cnonce opaque response) reads)
      ∙ verify_params-Reads md5 sha256 (drawn d q cnonce) response
          (params_of d q cnonce opaque response) reads computed (ap select_qop idem) carried.ascii
          digest.1

  auth_lem : select_qop (some "auth") ≡ some "auth"
  unfolding select_qop strip
  auth_lem = refl

  no_qop : select_qop none ≡ none
  unfolding select_qop
  no_qop = refl

  auth_int : select_qop (some "auth-int") ≡ some "auth-int"
  unfolding select_qop strip
  auth_int = refl

  auth-IsToken : IsToken "auth"
  unfolding all_pass is_space
  auth-IsToken = record {
    some_text = tt;
    no_end = all_pass-Passes not_end "auth" refl;
    unquoted = all_pass-Passes not_quote "auth" refl;
  }

  auth_int-IsToken : IsToken "auth-int"
  unfolding all_pass is_space
  auth_int-IsToken = record {
    some_text = tt;
    no_end = all_pass-Passes not_end "auth-int" refl;
    unquoted = all_pass-Passes not_quote "auth-int" refl;
  }

  -- The qop that is selected: one of the two that are known, or none, where the algorithm needs none.
  abbrev pub IsOffered : DigestInput → Option String → Type 0
  IsOffered d q =
      (q ≡ some "auth") ⊎ (q ≡ some "auth-int") ⊎ ((q ≡ none) × (is_session d.algorithm ≡ false))

  selected-verifies :
      (status_code : ℕ) (d : DigestInput) (q : Option String) (cnonce response : String)
      (opaque : Option String)
      → IsCarried d cnonce
      → IsOpaque opaque
      → IsOffered d q
      → compute_digest_response md5 sha256 (drawn d q cnonce) ≡ some response
      → verify_digest md5 sha256 unicode_word
          (auth_name status_code
            <> (": Digest " <> join_parts (header_parts d q cnonce opaque response)))
          d.username
          d.password
          d.method
        ≡ some true
  selected-verifies status_code d q cnonce response opaque c o (inl e) h =
      sent-verifies status_code d q cnonce response opaque c (rw e auth-IsToken) o (inl (rw e refl))
        (rw e auth_lem) h
  selected-verifies status_code d q cnonce response opaque c o (inr (inl e)) h =
      sent-verifies status_code d q cnonce response opaque c (rw e auth_int-IsToken) o
        (inl (rw e refl)) (rw e auth_int) h
  selected-verifies status_code d q cnonce response opaque c o (inr (inr e)) h =
      sent-verifies status_code d q cnonce response opaque c (rw e.0 tt) o (inr e) (rw e.0 no_qop) h

  -- The header that a client builds passes the check for its user name, password and method, if its texts
  -- can be carried and the qop that it selects is auth, auth-int, or none with an algorithm that is not
  -- one of a session; the hashes give digits.
  pub verify_digest-build_auth_header :
      (status_code : ℕ) (d : DigestInput) (opaque : Option String) (cnonce header : String)
      → IsCarried d cnonce
      → IsOpaque opaque
      → IsOffered d (select_qop d.qop)
      → build_auth_header md5 sha256 status_code d opaque cnonce ≡ some header
      → verify_digest md5 sha256 unicode_word header d.username d.password d.method ≡ some true
  verify_digest-build_auth_header status_code d opaque cnonce header c o offered built =
      let (response, computed, sent) =
        built_header md5 sha256 status_code d opaque cnonce header built in
      subst
        (λ h. verify_digest md5 sha256 unicode_word h d.username d.password d.method ≡ some true)
        sent
        (selected-verifies status_code d (select_qop d.qop) cnonce response opaque c o offered
          computed)
