-- ===== src/SipBridge/Register/Sent.antt =====
-- What the client of sip_bridge/sip_register.py sends, and the text of it.
use Prim.Native.Char.{Char}
use ekaette.Prelude.{
  ℕ, ◌+◌, String, ◌≡◌, refl, ap, ◌∙◌, Bool, true, false, Option, none, some, List, [], ◌∷◌, ◌++◌,
  if◌then◌else◌, strip,
}
use ekaette.Prelude.Split.{join_lines}
use ekaette.SipBridge.Challenge.{drop_name, parse_challenge, after_lowered, span}
use ekaette.SipBridge.Digest.{verify_digest}
use ekaette.SipBridge.Register.{
  SipRegistrar, Register, send_register, SipConfig, Address, auth_lines, register_lines,
  build_register_message, resolve_registrar, send_expiring, sent_to, address_or,
}

module _ (config : SipConfig) where
  -- The text of a REGISTER has the header on a line of its own, before the content length.
  pub Carries : String → Register → Type 0
  Carries header request =
      (decimal : ℕ → String) (branch tag : String)
      → build_register_message decimal config branch tag request
        ≡ join_lines (
            register_lines decimal config branch tag request
            ++ header ∷ "Content-Length: 0" ∷ "" ∷ "" ∷ [])

  pub build_register_message-Carries :
      (header : String) (request : Register)
      → request.auth_header ≡ some header
      → auth_lines (some header) ≡ header ∷ []
      → Carries header request
  unfolding Carries build_register_message
  build_register_message-Carries header request has one decimal branch tag =
      ap
        (λ (lines : List String). join_lines (
          register_lines decimal config branch tag request
          ++ (lines ++ "Content-Length: 0" ∷ "" ∷ "" ∷ [])))
        (ap auth_lines has ∙ one)

  -- What is sent with a header to an address that is there.
  abbrev pub Sends : SipRegistrar → Address → String → Option Register × SipRegistrar → Type 0
  Sends s addr header sent =
      (request : Register) × (after : SipRegistrar) × (sent ≡ (some request, after))
      × (request.target ≡ addr)
      × (request.call_id ≡ s.call_id)
      × (request.cseq ≡ s.cseq)
      × (after.cseq ≡ s.cseq + 1)
      × (request.expires ≡ config.sip_register_interval)
      × (request.auth_header ≡ some header)

  address_or-keeps :
      (known : Option Address) (ip : Option String) (s : SipRegistrar)
      → ((address_or known ip s).1.call_id ≡ s.call_id) × ((address_or known ip s).1.cseq ≡ s.cseq)
  address_or-keeps (some addr) ip s = (refl, refl)
  address_or-keeps none none s = (refl, refl)
  address_or-keeps none (some ip) s = (refl, refl)

  sent_to-Sends :
      (s : SipRegistrar) (addr : Address) (header : String) (found : Option Address × SipRegistrar)
      → found.0 ≡ some addr
      → (found.1.call_id ≡ s.call_id) × (found.1.cseq ≡ s.cseq)
      → Sends s addr header (sent_to config.sip_register_interval (some header) found)
  sent_to-Sends s addr header (none, t) e (call_id, cseq) = cc
  sent_to-Sends s addr header (some a, t) e (call_id, cseq) =
      (_, _, refl, cc, call_id, cseq, ap (λ n. n + 1) cseq, refl, refl)

  Sends-if :
      (s : SipRegistrar) (addr : Address) (header : String) (b : Bool)
      (x y : Option Register × SipRegistrar)
      → b ≡ true
      → Sends s addr header x
      → Sends s addr header (if b then x else y)
  Sends-if s addr header true x y e h = h
  Sends-if s addr header false x y e h = cc

  pub send_register-Sends :
      (s : SipRegistrar) (addr : Address) (ip : Option String) (header : String)
      → s.has_transport ≡ true
      → (resolve_registrar ip s).0 ≡ some addr
      → Sends s addr header (send_register config ip (some header) s)
  unfolding send_register send_expiring resolve_registrar
  send_register-Sends s addr ip header ready resolved =
      Sends-if s addr header s.has_transport _ (none, s) ready
        (sent_to-Sends s addr header (address_or s.registrar_addr ip s) resolved
          (address_or-keeps s.registrar_addr ip s))

module _ (md5 sha256 : String → String) (unicode_word : Char → Bool) where
  pub verify_digest-some_text :
      (header username password : String)
      → verify_digest md5 sha256 unicode_word header username password "REGISTER" ≡ some true
      → auth_lines (some header) ≡ header ∷ []
  unfolding verify_digest parse_challenge drop_name strip after_lowered span
  verify_digest-some_text String.[] username password passed = cc
  verify_digest-some_text (String.◌∷◌ c t) username password passed = refl
