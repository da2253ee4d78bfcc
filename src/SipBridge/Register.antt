-- ===== src/SipBridge/Register.antt =====
-- sip_bridge/sip_register.py: the client that registers at a SIP registrar. A datagram is the request that
-- it is the text of, `register_message`; the name lookup's answer and the random texts are arguments.
pub mod Computes
pub mod Sent
pub mod Sequence
pub mod Challenged
pub mod Tests
use Prim.Native.Char.{Char}
use ekaette.Prelude.{
  ℕ, ◌+◌, String, Bool, true, ◌&&◌, not, Option, none, some, List, [], ◌∷◌, ◌++◌, str_eq,
  if◌then◌else◌,
}
use ekaette.Prelude.Int.{ℤ, pos, negsuc, leb_ℤ}
use ekaette.Prelude.Split.{◌<>◌, cut, join_lines}
use ekaette.Dict.{Dict, lookup}
use ekaette.SipBridge.Dialog.{SipResponse, parse_sip_response, before_first, header_of}
use ekaette.SipBridge.Challenge.{Params, get, algorithm_of, parse_challenge}
use ekaette.SipBridge.Digest.{DigestInput, or_empty, build_auth_header}

-- The settings of `BridgeConfig` that the client reads.
pub record SipConfig : Type 0 where
  pub sip_registrar : String
  pub sip_username : String
  pub sip_password : String
  pub sip_public_ip : String
  pub sip_port : ℕ
  pub sip_register_interval : ℕ

abbrev pub Address : Type 0
Address = String × ℕ

pub record SipRegistrar : Type 0 where
  pub registered : Bool
  pub has_transport : Bool
  pub call_id : String
  pub cseq : ℕ
  pub registrar_addr : Option Address

-- A REGISTER request, and where it goes.
pub record Register : Type 0 where
  pub target : Address
  pub call_id : String
  pub cseq : ℕ
  pub expires : ℕ
  pub auth_header : Option String

-- `username.split("@", 1)[0]`
unfoldable pub user_part : String → String
unfolding cut
user_part username = before_first (cut b'@' username) username

abbrev pub auth_lines : Option String → List String
auth_lines none = []
auth_lines (some String.[]) = []
auth_lines (some (String.◌∷◌ c s)) = String.◌∷◌ c s ∷ []

module _ (decimal : ℕ → String) where
  -- the lines before those of the authorization
  abbrev pub register_lines : SipConfig → String → String → Register → List String
  register_lines config branch tag r =
      let port = decimal config.sip_port in
      let contact =
        user_part config.sip_username <> ("@" <> (config.sip_public_ip <> (":" <> port))) in
      "REGISTER sip:" <> (config.sip_registrar <> " SIP/2.0")
      ∷ "Via: SIP/2.0/UDP "
        <> (config.sip_public_ip <> (":" <> (port <> (";branch=z9hG4bK" <> branch))))
      ∷ "Max-Forwards: 70"
      ∷ "From: <sip:" <> (config.sip_username <> (">;tag=" <> tag))
      ∷ "To: <sip:" <> (config.sip_username <> ">")
      ∷ "Call-ID: " <> r.call_id
      ∷ "CSeq: " <> (decimal r.cseq <> " REGISTER")
      ∷ "Contact: <sip:" <> (contact <> ">")
      ∷ "Expires: " <> decimal r.expires
      ∷ "User-Agent: Ekaette-SIP-Bridge/1.0"
      ∷ "Allow: INVITE, ACK, BYE, CANCEL, OPTIONS"
      ∷ []

  unfoldable pub build_register_message : SipConfig → String → String → Register → String
  unfolding user_part join_lines ◌<>◌
  build_register_message config branch tag r = join_lines (
      register_lines config branch tag r
      ++ (auth_lines r.auth_header ++ "Content-Length: 0" ∷ "" ∷ "" ∷ []))

abbrev pub should_register : SipConfig → Bool
should_register config = not (str_eq config.sip_username "") && not (str_eq config.sip_password "")

abbrev pub keep_address : Option String → SipRegistrar → Option Address × SipRegistrar
keep_address none s = (none, s)
keep_address (some ip) s = (some (ip, 5060), record s { registrar_addr = some (ip, 5060) })

abbrev pub address_or :
    Option Address → Option String → SipRegistrar → Option Address × SipRegistrar
address_or (some addr) ip s = (some addr, s)
address_or none ip s = keep_address ip s

-- with what the name lookup gives
unfoldable pub resolve_registrar : Option String → SipRegistrar → Option Address × SipRegistrar
resolve_registrar ip s = address_or s.registrar_addr ip s

abbrev pub sent_to :
    ℕ → Option String → Option Address × SipRegistrar → Option Register × SipRegistrar
sent_to expires auth_header (none, s) = (none, s)
sent_to expires auth_header (some addr, s) = (
  some (record {
    target = addr;
    call_id = s.call_id;
    cseq = s.cseq;
    expires = expires;
    auth_header = auth_header;
  }),
  record s { cseq = s.cseq + 1 },
)

-- `send_register` and `send_unregister`, which differ in the expiry
unfoldable pub send_expiring :
    ℕ → Option String → Option String → SipRegistrar → Option Register × SipRegistrar
unfolding resolve_registrar
send_expiring expires ip auth_header s =
    if s.has_transport then sent_to expires auth_header (resolve_registrar ip s) else (none, s)

unfoldable pub send_register :
    SipConfig → Option String → Option String → SipRegistrar → Option Register × SipRegistrar
unfolding send_expiring
send_register config ip auth_header s = send_expiring config.sip_register_interval ip auth_header s

unfoldable pub send_unregister : Option String → SipRegistrar → Option Register × SipRegistrar
unfolding send_expiring
send_unregister ip s = send_expiring 0 ip none s

abbrev pub is_status : ℕ → ℤ → Bool
is_status n status_code = leb_ℤ status_code (pos n) && leb_ℤ (pos n) status_code

-- What the client signs a challenge's parameters with.
unfoldable pub signed : SipConfig → Params → DigestInput
unfolding user_part get ◌<>◌
signed config params = record {
  username = user_part config.sip_username;
  realm = or_empty (get "realm" params);
  password = config.sip_password;
  nonce = or_empty (get "nonce" params);
  method = "REGISTER";
  uri = "sip:" <> config.sip_registrar;
  algorithm = algorithm_of params;
  qop = get "qop" params;
  nc = none;
  cnonce = none;
}

module _ (md5 sha256 : String → String) (unicode_word : Char → Bool) (read_int : String → Option ℤ)
    (config : SipConfig) where
  abbrev pub send_signed :
      Option String → SipRegistrar → Option String → Option (Option Register × SipRegistrar)
  send_signed ip s none = none
  send_signed ip s (some header) = some (send_register config ip (some header) s)

  -- none where the digest cannot be computed, which raises
  abbrev pub answer_params :
      ℕ
      → Option String
      → String
      → Option Params
      → SipRegistrar
      → Option (Option Register × SipRegistrar)
  answer_params status_code ip cnonce none s = some (none, s)
  answer_params status_code ip cnonce (some params) s =
      send_signed ip s (
        build_auth_header md5 sha256 status_code (signed config params) (get "opaque" params)
          cnonce)

  unfoldable pub respond_to_challenge :
      ℕ → Option String → String → String → SipRegistrar → Option (Option Register × SipRegistrar)
  unfolding parse_challenge build_auth_header signed send_register get
  respond_to_challenge status_code ip cnonce challenge s =
      if str_eq challenge ""
      then some (none, s)
      else answer_params status_code ip cnonce (parse_challenge unicode_word challenge) s

  unfoldable pub handle_status :
      SipResponse → Option String → String → SipRegistrar → Option (Option Register × SipRegistrar)
  unfolding respond_to_challenge lookup
  handle_status r ip cnonce s =
      if is_status 200 r.status_code
      then some (none, record s { registered = true })
      else if is_status 401 r.status_code
      then respond_to_challenge 401 ip cnonce (header_of "WWW-Authenticate" r.headers) s
      else if is_status 407 r.status_code
      then respond_to_challenge 407 ip cnonce (header_of "Proxy-Authenticate" r.headers) s
      else some (none, s)

  abbrev pub handle_parsed :
      Option SipResponse
      → Option String
      → String
      → SipRegistrar
      → Option (Option Register × SipRegistrar)
  handle_parsed none ip cnonce s = none
  handle_parsed (some r) ip cnonce s = handle_status r ip cnonce s

  -- none where it raises, which `datagram_received` of sip_bridge/server.py logs
  unfoldable pub handle_response :
      String → Option String → String → SipRegistrar → Option (Option Register × SipRegistrar)
  unfolding handle_status parse_sip_response
  handle_response message ip cnonce s =
      handle_parsed (parse_sip_response read_int message) ip cnonce s
