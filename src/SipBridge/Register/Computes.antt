-- ===== src/SipBridge/Register/Computes.antt =====
-- The responses of sip_bridge/sip_auth.py that can be computed, whatever the hashes are.

use ekaette.Prelude.{
  ℕ, String, ◌≡◌, refl, ap, ◌∙◌, ◌⊎◌, inl, inr, Bool, true, false, Option, some, if◌then◌else◌,
  Bool-cases, colon,
}
use ekaette.SipBridge.Digest.{
  ◌>>=◌, final_hash, drawn, is_text, build_auth_header, DigestInput, select_qop, is_md5, is_sha256,
  hash, respond, both, session_key, is_session, is_offered, compute_digest_response,
}

-- Something is computed.
abbrev pub Computes : Option String → Type 0
Computes o = (a : String) × (o ≡ some a)

module _ (md5 sha256 : String → String) where
  hash-Computes :
      (text algorithm : String)
      → (is_md5 algorithm ≡ true) ⊎ (is_sha256 algorithm ≡ true)
      → Computes (hash md5 sha256 text algorithm)
  unfolding hash
  hash-Computes text algorithm (inl h) = (md5 text, rw h refl)
  hash-Computes text algorithm (inr h) = elim (Bool-cases (is_md5 algorithm)) [
    | inl five ↦ (md5 text, rw five refl)
    | inr other ↦ (sha256 text, rw (other, h) refl)
  ]

  bind-Computes :
      {A : Type 0} (o : Option A) (f : A → Option String)
      → (a : A) × (o ≡ some a)
      → ((a : A) → Computes (f a))
      → Computes (o >>= f)
  bind-Computes o f (a, e) h = ((h a).0, ap (λ o. o >>= f) e ∙ (h a).1)

  if-Computes :
      (test : Bool) (x y : Option String)
      → Computes x
      → Computes y
      → Computes (if test then x else y)
  if-Computes true x y h k = h
  if-Computes false x y h k = k

  -- With both nonces there is a response.
  respond-Computes :
      (d : DigestInput) (q : Option String) (nc cnonce : String)
      → (is_md5 d.algorithm ≡ true) ⊎ (is_sha256 d.algorithm ≡ true)
      → both d.nc d.cnonce ≡ some (nc, cnonce)
      → Computes (respond md5 sha256 d q)
  unfolding respond session_key final_hash
  respond-Computes d q nc cnonce h e =
      let all = λ (text : String). hash-Computes text d.algorithm h in
      bind-Computes (hash md5 sha256 (colon d.username (colon d.realm d.password)) d.algorithm) _
        (all _)
        (λ ha1.
          bind-Computes (session_key md5 sha256 d ha1) _
            (if-Computes (is_session d.algorithm) _ (some ha1) (rw e (all _)) (ha1, refl))
            (λ key.
              bind-Computes (hash md5 sha256 (colon d.method d.uri) d.algorithm) _ (all _)
                (λ ha2. if-Computes (is_offered q) _ _ (rw e (all _)) (all _))))

  drawn-Computes :
      (d : DigestInput) (q : Option String) (cnonce : String)
      → (is_md5 d.algorithm ≡ true) ⊎ (is_sha256 d.algorithm ≡ true)
      → is_text q ≡ true
      → Computes (compute_digest_response md5 sha256 (drawn d q cnonce))
  unfolding compute_digest_response
  drawn-Computes d q cnonce h t =
      respond-Computes (drawn d q cnonce) (select_qop q) "00000001" cnonce h (rw t refl)

  pub build_auth_header-Computes :
      (status_code : ℕ) (d : DigestInput) (opaque : Option String) (cnonce : String)
      → (is_md5 d.algorithm ≡ true) ⊎ (is_sha256 d.algorithm ≡ true)
      → is_text (select_qop d.qop) ≡ true
      → Computes (build_auth_header md5 sha256 status_code d opaque cnonce)
  unfolding build_auth_header
  build_auth_header-Computes status_code d opaque cnonce h t =
      bind-Computes (compute_digest_response md5 sha256 (drawn d (select_qop d.qop) cnonce)) _
        (drawn-Computes d (select_qop d.qop) cnonce h t) (λ response. (_, refl))

pub selects_text :
    (qop : Option String)
    → (select_qop qop ≡ some "auth") ⊎ (select_qop qop ≡ some "auth-int")
    → is_text (select_qop qop) ≡ true
selects_text qop (inl e) = rw e refl
selects_text qop (inr e) = rw e refl
