-- ===== src/SipBridge/Caller.antt =====
-- sip_bridge/server.py: who calls, and the session of a call. The keyed hash, the hash and the library of
-- phone numbers are parameters.
use Prim.Native.Char.{Char, code}
use ekaette.Prelude.{
  ℕ, String, Bool, ◌&&◌, not, Option, none, some, str_eq, leb, ◌==◌, if◌then◌else◌, colon,
}
use ekaette.Prelude.Split.{◌<>◌}
use ekaette.Shared.PhoneIdentity.{first, canonical_phone_user_id}
use ekaette.SipBridge.Challenge.{span, size}
use ekaette.SipBridge.Dialog.Sdp.{is_digit}
use ekaette.SipBridge.Register.{SipConfig, Address}

pub record Gateway : Type 0 where
  pub user_id : String
  pub session_id : String

pub record CallSession : Type 0 where
  pub call_id : String
  pub remote_rtp_addr : Option Address
  pub local_rtp_port : ℕ
  pub caller_phone : String
  pub gateway_client : Option Gateway

-- The settings of `BridgeConfig` that the server reads beside those of the registration.
pub record CallConfig : Type 0 where
  pub sip : SipConfig
  pub tenant_id : String
  pub company_id : String
  pub default_phone_region : String
  pub gateway_mode : Bool
  pub gateway_ws_url : String
  pub gateway_ws_secret : String

module _ (digit_value : Char → Option ℕ) where
  -- `[\d]{7,15}` at the start of a text
  unfoldable pub digits_at : String → Option String
  unfolding span first
  digits_at s =
      let (run, rest) = span (is_digit digit_value) s in
      if leb 7 (size run) then some (first 15 run) else none

  abbrev pub with_plus : Option String → Option String
  with_plus none = none
  with_plus (some run) = some ("+" <> run)

  -- `[\+]?[\d]{7,15}`
  unfoldable pub phone_at : String → Option String
  unfolding digits_at ◌<>◌
  phone_at String.[] = none
  phone_at (String.◌∷◌ c s) =
      if code c == b'+' then with_plus (digits_at s) else digits_at (String.◌∷◌ c s)

  -- the first phone number in a header, or ""
  unfoldable pub caller_phone_in : String → String
  unfolding phone_at
  caller_phone_in String.[] = ""
  caller_phone_in (String.◌∷◌ c s) =
      let later = caller_phone_in s in
      elim (phone_at (String.◌∷◌ c s)) [ none ↦ later | some phone ↦ phone ]

module _ (digit_value : Char → Option ℕ) (sha256 hmac : String → String)
    (e164 : String → String → Option String) (config : CallConfig) where
  unfoldable pub anonymous_id : String → String
  unfolding first ◌<>◌
  anonymous_id call_id =
      "sip-anon-"
      <> first 16 (sha256 (colon config.tenant_id (colon config.company_id (colon "call" call_id))))

  abbrev pub or_anonymous : String → Option String → String
  or_anonymous call_id none = anonymous_id call_id
  or_anonymous call_id (some user_id) = user_id

  unfoldable pub gateway_of : String → String → Gateway
  unfolding canonical_phone_user_id anonymous_id first ◌<>◌
  gateway_of call_id caller_phone = record {
    user_id = or_anonymous call_id (
        canonical_phone_user_id e164 hmac config.tenant_id config.company_id caller_phone
          config.default_phone_region);
    session_id =
        "sip-"
        <> first 24
            (sha256 (colon config.tenant_id (colon config.company_id (colon "session" call_id))));
  }

  abbrev pub new_session : String → Option Address → ℕ → String → Option Gateway → CallSession
  new_session call_id remote_rtp_addr local_rtp_port caller_phone gateway_client = record {
    call_id = call_id;
    remote_rtp_addr = remote_rtp_addr;
    local_rtp_port = local_rtp_port;
    caller_phone = caller_phone;
    gateway_client = gateway_client;
  }

  -- The session of a call; none is the ValueError.
  unfoldable pub session_of : String → Option Address → ℕ → String → Option CallSession
  unfolding caller_phone_in gateway_of
  session_of call_id remote_rtp_addr local_rtp_port from_header =
      let phone = caller_phone_in digit_value from_header in
      if config.gateway_mode && not (str_eq config.gateway_ws_url "")
      then if str_eq config.gateway_ws_secret ""
        then none
        else some (
            new_session call_id remote_rtp_addr local_rtp_port phone
              (some (gateway_of call_id phone)))
      else some (new_session call_id remote_rtp_addr local_rtp_port phone none)
