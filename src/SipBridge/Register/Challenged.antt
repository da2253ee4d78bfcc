-- ===== src/SipBridge/Register/Challenged.antt =====
-- The answer that the client of sip_bridge/sip_register.py gives to a challenge of sip_bridge/sip_auth.py.
use ekaette.SipBridge.Register.Computes.{build_auth_header-Computes, selects_text}
use ekaette.SipBridge.Register.Sent.{
  Carries, send_register-Sends, build_register_message-Carries, verify_digest-some_text,
}
use Prim.Native.Char.{Char}
use ekaette.At.ServiceAuth.{is_ascii}
use ekaette.Prelude.{
  ℕ, ◌+◌, String, ◌≡◌, refl, ap, ◌∙◌, ◌⊎◌, inl, inr, Bool, true, Option, none, some, [], ◌∷◌, map,
  if◌then◌else◌, All,
}
use ekaette.Prelude.Int.{pos, ℤ}
use ekaette.Prelude.Split.{cons_not_empty, ◌<>◌}
use ekaette.Prelude.Text.{lstrip, is_space}
use ekaette.SipBridge.Challenge.{is_word, drop_name, Params, get, parse_challenge}
use ekaette.SipBridge.Challenge.Params.{IsPart}
use ekaette.SipBridge.Challenge.Parts.{
  bare, pair_of, part_text, quoted, IsQuotable, IsToken, join_parts,
}
use ekaette.SipBridge.Dialog.{SipResponse, header_of, parse_sip_response}
use ekaette.SipBridge.Digest.{challenge_parts, verify_digest, select_qop, is_md5, is_sha256}
use ekaette.SipBridge.Digest.Carried.{IsDigest, IsCarried, all_pass, word-IsKey}
use ekaette.SipBridge.Digest.Header.{parse_challenge-value}
use ekaette.SipBridge.Digest.RoundTrip.{verify_digest-build_auth_header}
use ekaette.SipBridge.Register.{
  handle_status, handle_response, answer_params, send_signed, SipRegistrar, Register, send_register,
  respond_to_challenge, SipConfig, user_part, signed, Address, resolve_registrar,
}

-- Texts of a challenge that a header carries, and that a client can answer.
pub record IsChallenge (realm algorithm qop nonce : String) : Type 0 where
  pub realm_quotable : IsQuotable realm
  pub algorithm_token : IsToken algorithm
  pub qop_quotable : IsQuotable qop
  pub nonce_quotable : IsQuotable nonce
  pub hashed : (is_md5 algorithm ≡ true) ⊎ (is_sha256 algorithm ≡ true)
  pub selects : (select_qop (some qop) ≡ some "auth") ⊎ (select_qop (some qop) ≡ some "auth-int")

-- Settings that a header carries.
pub record IsClient (config : SipConfig) : Type 0 where
  pub username : IsQuotable (user_part config.sip_username)
  pub ascii : is_ascii (user_part config.sip_username) ≡ true
  pub uri : IsQuotable ("sip:" <> config.sip_registrar)

-- A response with a challenge of this value.
abbrev pub Challenges : SipResponse → String → Type 0
Challenges r value =
    ((r.status_code ≡ pos 401) × (header_of "WWW-Authenticate" r.headers ≡ value))
    ⊎ ((r.status_code ≡ pos 407) × (header_of "Proxy-Authenticate" r.headers ≡ value))

-- What the client reads of a challenge.
abbrev challenge_params : String → String → String → String → Params
challenge_params realm algorithm qop nonce = map pair_of (challenge_parts realm algorithm qop nonce)

module _ (unicode_word : Char → Bool) where
  challenge_parts-IsPart :
      (realm algorithm qop nonce : String)
      → IsChallenge realm algorithm qop nonce
      → All (IsPart unicode_word) (challenge_parts realm algorithm qop nonce)
  unfolding all_pass is_word
  challenge_parts-IsPart realm algorithm qop nonce c = (
    (word-IsKey unicode_word "realm" tt refl, c.realm_quotable),
    (
      (word-IsKey unicode_word "nonce" tt refl, c.nonce_quotable),
      (
        (word-IsKey unicode_word "algorithm" tt refl, c.algorithm_token),
        ((word-IsKey unicode_word "qop" tt refl, c.qop_quotable), tt),
      ),
    ),
  )

  parse_challenge-challenge_parts :
      (realm algorithm qop nonce : String)
      → IsChallenge realm algorithm qop nonce
      → parse_challenge unicode_word
          ("Digest " <> join_parts (challenge_parts realm algorithm qop nonce))
        ≡ some (challenge_params realm algorithm qop nonce)
  unfolding join_parts part_text lstrip is_space drop_name is_word get ◌<>◌
  parse_challenge-challenge_parts realm algorithm qop nonce c =
      parse_challenge-value unicode_word (quoted "realm" realm)
        (quoted "nonce" nonce ∷ bare "algorithm" algorithm ∷ quoted "qop" qop ∷ [])
        (challenge_parts-IsPart realm algorithm qop nonce c) refl refl

module _ (md5 sha256 : String → String) (unicode_word : Char → Bool) (read_int : String → Option ℤ)
    (config : SipConfig) (h5 : IsDigest md5) (h256 : IsDigest sha256) where
  signed-IsCarried :
      (realm algorithm qop nonce cnonce : String)
      → IsChallenge realm algorithm qop nonce
      → IsClient config
      → IsQuotable cnonce
      → IsCarried (signed config (challenge_params realm algorithm qop nonce)) cnonce
  unfolding signed get
  signed-IsCarried realm algorithm qop nonce cnonce c client q = record {
    username = client.username;
    ascii = client.ascii;
    realm = c.realm_quotable;
    nonce = c.nonce_quotable;
    uri = client.uri;
    algorithm = c.algorithm_token;
    drawn_nonce = q;
  }

  -- What the client calls with a header, and that the header passes.
  IsSigned : SipRegistrar → Option String → Option (Option Register × SipRegistrar) → Type 0
  unfolding verify_digest send_register user_part
  IsSigned s ip answer =
      (header : String) × (answer ≡ some (send_register config ip (some header) s))
      × (verify_digest md5 sha256 unicode_word header (user_part config.sip_username)
            config.sip_password "REGISTER"
          ≡ some true)

  respond_to_challenge-IsSigned :
      (status_code : ℕ) (ip : Option String) (cnonce realm algorithm qop nonce : String)
      (s : SipRegistrar)
      → IsChallenge realm algorithm qop nonce
      → IsClient config
      → IsQuotable cnonce
      → IsSigned s ip (
          respond_to_challenge md5 sha256 unicode_word read_int config status_code ip cnonce
            ("Digest " <> join_parts (challenge_parts realm algorithm qop nonce))
            s)
  unfolding IsSigned respond_to_challenge signed get ◌<>◌
  respond_to_challenge-IsSigned status_code ip cnonce realm algorithm qop nonce s c client q =
      let value = "Digest " <> join_parts (challenge_parts realm algorithm qop nonce) in
      let not_empty =
        ap
          (λ t.
            if t
            then some (none, s)
            else answer_params md5 sha256 unicode_word read_int config status_code ip cnonce
                (parse_challenge unicode_word value) s)
          (cons_not_empty "D"
            ("igest " <> join_parts (challenge_parts realm algorithm qop nonce))) in
      let d = signed config (challenge_params realm algorithm qop nonce) in
      let (header, built) =
        build_auth_header-Computes md5 sha256 status_code d none cnonce c.hashed
          (selects_text d.qop c.selects) in
      (
        header,
        not_empty
            ∙ ap
                (λ o.
                  answer_params md5 sha256 unicode_word read_int config status_code ip cnonce o s)
                (parse_challenge-challenge_parts unicode_word realm algorithm qop nonce c)
            ∙ ap (send_signed md5 sha256 unicode_word read_int config ip s) built,
        verify_digest-build_auth_header md5 sha256 unicode_word h5 h256 status_code d none cnonce
            header (signed-IsCarried realm algorithm qop nonce cnonce c client q) tt
            (elim c.selects [ inl e ↦ inl e | inr e ↦ inr (inl e) ]) built,
      )

  challenged-IsSigned :
      (r : SipResponse) (value : String) (ip : Option String) (cnonce : String) (s : SipRegistrar)
      → Challenges r value
      → ((status_code : ℕ)
          → IsSigned s ip (
              respond_to_challenge md5 sha256 unicode_word read_int config status_code ip cnonce
                value s))
      → IsSigned s ip (handle_status md5 sha256 unicode_word read_int config r ip cnonce s)
  unfolding handle_status
  challenged-IsSigned r value ip cnonce s (inl (status, found)) answered =
      rw (status, found) (answered 401)
  challenged-IsSigned r value ip cnonce s (inr (status, found)) answered =
      rw (status, found) (answered 407)

  handle_response-IsSigned :
      (message : String) (ip : Option String) (cnonce realm algorithm qop nonce : String)
      (s : SipRegistrar) (r : SipResponse)
      → parse_sip_response read_int message ≡ some r
      → Challenges r ("Digest " <> join_parts (challenge_parts realm algorithm qop nonce))
      → IsChallenge realm algorithm qop nonce
      → IsClient config
      → IsQuotable cnonce
      → IsSigned s ip (handle_response md5 sha256 unicode_word read_int config message ip cnonce s)
  unfolding handle_response
  handle_response-IsSigned message ip cnonce realm algorithm qop nonce s r parsed challenges c
        client q =
      rw parsed (
        challenged-IsSigned r _ ip cnonce s challenges (λ status_code.
          respond_to_challenge-IsSigned status_code ip cnonce realm algorithm qop nonce s c client
            q))

  -- A REGISTER goes to the address, and `verify_digest` accepts the header that it carries.
  pub IsAnswered : SipRegistrar → Address → Option (Option Register × SipRegistrar) → Type 0
  IsAnswered s addr answer =
      (request : Register) × (after : SipRegistrar) × (header : String) × (answer
        ≡ some (some request, after))
      × (request.target ≡ addr)
      × (request.call_id ≡ s.call_id)
      × (request.cseq ≡ s.cseq)
      × (after.cseq ≡ s.cseq + 1)
      × (request.expires ≡ config.sip_register_interval)
      × (request.auth_header ≡ some header)
      × Carries config header request
      × (verify_digest md5 sha256 unicode_word header (user_part config.sip_username)
            config.sip_password "REGISTER"
          ≡ some true)

  -- A response that is a challenge (a 401 or a 407, with the value that `build_challenge_header`
  -- writes behind the name) is answered by a REGISTER to the registrar's address, if there is a
  -- transport and the address is known or found. It has the client's call id and sequence number and,
  -- on a line of its own, a header that `verify_digest` accepts for the user part of the configured
  -- name, the password and the method. The algorithm is a known one, the qop selects auth or auth-int,
  -- the texts can be carried, and the hashes give digits.
  pub handle_response-IsAnswered :
      (message : String) (ip : Option String) (cnonce realm algorithm qop nonce : String)
      (s : SipRegistrar) (r : SipResponse) (addr : Address)
      → parse_sip_response read_int message ≡ some r
      → Challenges r ("Digest " <> join_parts (challenge_parts realm algorithm qop nonce))
      → IsChallenge realm algorithm qop nonce
      → IsClient config
      → IsQuotable cnonce
      → s.has_transport ≡ true
      → (resolve_registrar ip s).0 ≡ some addr
      → IsAnswered s addr
          (handle_response md5 sha256 unicode_word read_int config message ip cnonce s)
  unfolding IsSigned IsAnswered
  handle_response-IsAnswered message ip cnonce realm algorithm qop nonce s r addr parsed challenges
        c client q ready resolved =
      let (header, answered, passed) =
        handle_response-IsSigned message ip cnonce realm algorithm qop nonce s r parsed challenges c
          client q in
      let (request, after, sent, target, call_id, cseq, next, expires, carried) =
        send_register-Sends config s addr ip header ready resolved in
      (
        request,
        after,
        header,
        answered ∙ ap some sent,
        target,
        call_id,
        cseq,
        next,
        expires,
        carried,
        build_register_message-Carries config header request carried (
            verify_digest-some_text md5 sha256 unicode_word header (user_part config.sip_username)
              config.sip_password passed),
        passed,
      )
