-- ===== src/SipBridge/Register/Sequence.antt =====
-- The requests that the client of sip_bridge/sip_register.py sends over its life: at the start and at each
-- round of `_registration_loop`, on the responses that it gets, and at the stop of sip_bridge/server.py.
use Prim.Native.Char.{Char}
use ekaette.Prelude.{
  ℕ, ◌+◌, String, ◌≡◌, refl, Bool, true, false, Option, none, some, List, [], ◌∷◌, str_eq,
  if◌then◌else◌,
}
use mathlib.Core.Path.{transport, sym}
use ekaette.Prelude.Int.{ℤ}
use ekaette.SipBridge.Dialog.{SipResponse, header_of, parse_sip_response}
use ekaette.SipBridge.Challenge.{Params, parse_challenge}
use ekaette.SipBridge.Register.{
  SipConfig, Address, SipRegistrar, Register, should_register, resolve_registrar, sent_to,
  send_expiring, send_register, send_unregister, answer_params, respond_to_challenge, handle_status,
  handle_parsed, handle_response, address_or, send_signed, is_status,
}

-- With what the name lookup gives, and for a response the cnonce that is drawn.
pub data SipEvent : Type 0 where
  round : Option String → SipEvent
  response : String → Option String → String → SipEvent
  stop : Option String → SipEvent

-- The address is the one that is known, if one is.
abbrev pub IsTarget : Option Address → Address → Type 0
IsTarget none target = Unit
IsTarget (some addr) target = target ≡ addr

-- Requests of one call, numbered one by one from `n`, to one address.
abbrev pub IsSequence : String → ℕ → Option Address → List Register → Type 0
IsSequence call_id n addr [] = Unit
IsSequence call_id n addr (r ∷ rs) =
    ((r.call_id ≡ call_id) × (r.cseq ≡ n) × IsTarget addr r.target)
    × IsSequence call_id (n + 1) (some r.target) rs

-- What a step sends and leaves.
pub data Moves (s : SipRegistrar) : Option Register × SipRegistrar → Type 0 where
  silent :
      (t : SipRegistrar)
      → t.call_id ≡ s.call_id
      → t.cseq ≡ s.cseq
      → t.registrar_addr ≡ s.registrar_addr
      → Moves s (none, t)
  sends :
      (r : Register) (t : SipRegistrar)
      → (r.call_id ≡ s.call_id) × (r.cseq ≡ s.cseq) × IsTarget s.registrar_addr r.target
      → t.call_id ≡ s.call_id
      → t.cseq ≡ s.cseq + 1
      → t.registrar_addr ≡ some r.target
      → Moves s (some r, t)

Moves-refl : (s : SipRegistrar) → Moves s (none, s)
Moves-refl s = silent s refl refl refl

sent_to-known :
    (expires : ℕ) (auth : Option String) (addr : Address) (s : SipRegistrar)
    → s.registrar_addr ≡ some addr
    → Moves s (sent_to expires auth (some addr, s))
sent_to-known expires auth addr s e = sends _ _ (refl, refl, rw e refl) refl refl e

address-Moves :
    (expires : ℕ) (ip auth : Option String) (s : SipRegistrar) (known : Option Address)
    → s.registrar_addr ≡ known
    → Moves s (sent_to expires auth (address_or known ip s))
address-Moves expires ip auth s (some addr) e = sends _ _ (refl, refl, rw e refl) refl refl e
address-Moves expires none auth s none e = Moves-refl s
address-Moves expires (some ip) auth s none e =
    sends _ _ (refl, refl, transport (λ i. IsTarget (sym e i) (ip, 5060)) tt) refl refl refl

sent_if-Moves :
    (s : SipRegistrar) (test : Bool) (m : Option Register × SipRegistrar)
    → Moves s m
    → Moves s (if test then m else (none, s))
sent_if-Moves s true m h = h
sent_if-Moves s false m h = Moves-refl s

send_expiring-Moves :
    (expires : ℕ) (ip auth : Option String) (s : SipRegistrar)
    → Moves s (send_expiring expires ip auth s)
unfolding send_expiring resolve_registrar
send_expiring-Moves expires ip auth s =
    sent_if-Moves s s.has_transport _ (address-Moves expires ip auth s s.registrar_addr refl)

-- What is sent and left, where raising leaves the state.
abbrev pub kept :
    SipRegistrar → Option (Option Register × SipRegistrar) → Option Register × SipRegistrar
kept s none = (none, s)
kept s (some sent) = sent

-- What a handler that may raise sends and leaves.
data Stays (s : SipRegistrar) : Option (Option Register × SipRegistrar) → Type 0 where
  raises : Stays s none
  moves : {m : Option Register × SipRegistrar} → Moves s m → Stays s (some m)

kept-Moves :
    (s : SipRegistrar) (x : Option (Option Register × SipRegistrar))
    → Stays s x
    → Moves s (kept s x)
kept-Moves s _ raises = Moves-refl s
kept-Moves s _ (moves h) = h

if-Stays :
    (s : SipRegistrar) (test : Bool) (x y : Option (Option Register × SipRegistrar))
    → Stays s x
    → Stays s y
    → Stays s (if test then x else y)
if-Stays s true x y h k = h
if-Stays s false x y h k = k

abbrev put : Option Register → List Register → List Register
put none rest = rest
put (some r) rest = r ∷ rest

module _ (md5 sha256 : String → String) (unicode_word : Char → Bool) (read_int : String → Option ℤ)
    (config : SipConfig) where
  send_signed-Stays :
      (ip : Option String) (s : SipRegistrar) (header : Option String)
      → Stays s (send_signed md5 sha256 unicode_word read_int config ip s header)
  unfolding send_register
  send_signed-Stays ip s none = raises
  send_signed-Stays ip s (some header) =
      moves (send_expiring-Moves config.sip_register_interval ip (some header) s)

  answer_params-Stays :
      (status_code : ℕ) (ip : Option String) (cnonce : String) (params : Option Params)
      (s : SipRegistrar)
      → Stays s
          (answer_params md5 sha256 unicode_word read_int config status_code ip cnonce params s)
  answer_params-Stays status_code ip cnonce none s = moves (Moves-refl s)
  answer_params-Stays status_code ip cnonce (some params) s = send_signed-Stays ip s _

  respond_to_challenge-Stays :
      (status_code : ℕ) (ip : Option String) (cnonce challenge : String) (s : SipRegistrar)
      → Stays s (
          respond_to_challenge md5 sha256 unicode_word read_int config status_code ip cnonce
            challenge s)
  unfolding respond_to_challenge
  respond_to_challenge-Stays status_code ip cnonce challenge s =
      if-Stays s (str_eq challenge "") _ _ (moves (Moves-refl s))
        (answer_params-Stays status_code ip cnonce (parse_challenge unicode_word challenge) s)

  handle_status-Stays :
      (r : SipResponse) (ip : Option String) (cnonce : String) (s : SipRegistrar)
      → Stays s (handle_status md5 sha256 unicode_word read_int config r ip cnonce s)
  unfolding handle_status
  handle_status-Stays r ip cnonce s =
      if-Stays s (is_status 200 r.status_code) _ _
        (moves (silent (record s { registered = true }) refl refl refl))
        (if-Stays s (is_status 401 r.status_code) _ _
          (respond_to_challenge-Stays 401 ip cnonce (header_of "WWW-Authenticate" r.headers) s)
          (if-Stays s (is_status 407 r.status_code) _ _
            (respond_to_challenge-Stays 407 ip cnonce (header_of "Proxy-Authenticate" r.headers) s)
            (moves (Moves-refl s))))

  handle_parsed-Stays :
      (r : Option SipResponse) (ip : Option String) (cnonce : String) (s : SipRegistrar)
      → Stays s (handle_parsed md5 sha256 unicode_word read_int config r ip cnonce s)
  handle_parsed-Stays none ip cnonce s = raises
  handle_parsed-Stays (some r) ip cnonce s = handle_status-Stays r ip cnonce s

  -- What `start` and `_registration_loop` do.
  unfoldable pub refresh : Option String → SipRegistrar → Option Register × SipRegistrar
  unfolding send_register
  refresh ip s = if should_register config then send_register config ip none s else (none, s)

  -- What `stop` does.
  unfoldable pub unregister : Option String → SipRegistrar → Option Register × SipRegistrar
  unfolding send_unregister
  unregister ip s = if s.registered then send_unregister ip s else (none, s)

  -- `datagram_received` goes on where a response raises.
  unfoldable pub received :
      String → Option String → String → SipRegistrar → Option Register × SipRegistrar
  unfolding handle_response
  received message ip cnonce s =
      kept s (handle_response md5 sha256 unicode_word read_int config message ip cnonce s)

  unfoldable pub step : SipEvent → SipRegistrar → Option Register × SipRegistrar
  unfolding refresh unregister received
  step (round ip) s = refresh ip s
  step (response message ip cnonce) s = received message ip cnonce s
  step (stop ip) s = unregister ip s

  step-Moves : (e : SipEvent) (s : SipRegistrar) → Moves s (step e s)
  unfolding step refresh unregister received send_register send_unregister handle_response
  step-Moves (round ip) s =
      sent_if-Moves s (should_register config) _
        (send_expiring-Moves config.sip_register_interval ip none s)
  step-Moves (response message ip cnonce) s =
      kept-Moves s _ (handle_parsed-Stays (parse_sip_response read_int message) ip cnonce s)
  step-Moves (stop ip) s = sent_if-Moves s s.registered _ (send_expiring-Moves 0 ip none s)

  -- The requests that go out over the events.
  unfoldable pub all_sent : List SipEvent → SipRegistrar → List Register
  unfolding step
  all_sent [] s = []
  all_sent (e ∷ es) s = let (sent, t) = step e s in put sent (all_sent es t)

  after-Moves :
      (s : SipRegistrar) (m : Option Register × SipRegistrar) (rest : List Register)
      → Moves s m
      → IsSequence m.1.call_id m.1.cseq m.1.registrar_addr rest
      → IsSequence s.call_id s.cseq s.registrar_addr (put m.0 rest)
  after-Moves s m rest (silent t c q a) h = transport (λ i. IsSequence (c i) (q i) (a i) rest) h
  after-Moves s m rest (sends r t (c, q, a) c1 q1 a1) h =
      ((c, q, a), transport (λ i. IsSequence (c1 i) (q1 i) (a1 i) rest) h)

  -- The requests that the client sends over any events at its server, from any state, have its call id and
  -- the numbers from its own one by one, and go to the address that is known, or to the one
  -- that the first of them finds.
  pub all_sent-IsSequence :
      (es : List SipEvent) (s : SipRegistrar)
      → IsSequence s.call_id s.cseq s.registrar_addr (all_sent es s)
  unfolding all_sent
  all_sent-IsSequence [] s = tt
  all_sent-IsSequence (e ∷ es) s =
      after-Moves s (step e s) _ (step-Moves e s) (all_sent-IsSequence es (step e s).1)
