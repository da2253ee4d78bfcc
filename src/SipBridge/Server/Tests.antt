-- ===== src/SipBridge/Server/Tests.antt =====
-- A call to sip_bridge/server.py, and the same call id again.
use Prim.Native.Char.{Char, code}
use ekaette.Prelude.{
  ℕ, ◌-◌, String, ◌≡◌, refl, true, ◌&&◌, Option, none, some, List, [], ◌∷◌, leb, if◌then◌else◌, All,
  strip,
}
use ekaette.Dict.{Dict, lookup, insert, erase}
use ekaette.SipBridge.Register.{Address}
use ekaette.SipBridge.Register.Tests.{config}
use ekaette.SipBridge.Dialog.Sdp.{parse_sdp_g711}
use ekaette.SipBridge.Caller.{CallConfig, CallSession, session_of, caller_phone_in}
use ekaette.SipBridge.Server.{SipServer, handle_invite, on_done, stop_sessions, remote_address}
use ekaette.SipBridge.Server.Tracked.{IsShut}
use ekaette.SipBridge.Server.Stopped.{
  ServerEvent, datagram, done, step, after_all, NoReuse, stop_sessions-IsShut,
}
use ekaette.SipBridge.Server.Escaped.{IsEscaped, IsNew, handle_invite-escapes}

same : String → String
same s = s

one : ℕ → String
one n = "1"

no_number : String → String → Option String
no_number raw region = none

-- ASCII's digits
ascii_digit : Char → Option ℕ
ascii_digit c = if leb b'0' (code c) && leb (code c) b'9' then some (code c - b'0') else none

abbrev call_config : CallConfig
call_config = record {
  sip = config;
  tenant_id = "t";
  company_id = "k";
  default_phone_region = "NG";
  gateway_mode = true;
  gateway_ws_url = "w";
  gateway_ws_secret = "z";
}

abbrev fresh : SipServer
fresh = record { has_transport = true; active_sessions = []; tasks = []; shut = []; created = 0 }

abbrev peer : Address
peer = ("9", 5060)

abbrev invite : ServerEvent
invite = datagram ("a", "b") 10000 "INVITE x\r\nCall-ID: c\r\nfrom: +2348012345678\r\n\r\n" peer

abbrev bye : ServerEvent
bye = datagram ("a", "b") 10000 "BYE x\r\nCall-ID: c\r\n\r\n" peer

parsed_sdp :
    parse_sdp_g711 ascii_digit
      "c=IN IP4 10.0.0.9\r\nm=audio 5004 RTP/AVP 0 101\r\na=rtpmap:101 telephone-event/8000\r\n"
    ≡ record {
      media_ip = "10.0.0.9";
      media_port = 5004;
      pcmu_payload_type = 0;
      dtmf_payload_type = some 101;
    }
unfolding parse_sdp_g711 ascii_digit
parsed_sdp = refl

called : caller_phone_in ascii_digit "\"A\" <sip:+2348012345678@h>" ≡ "+2348012345678"
unfolding caller_phone_in ascii_digit
called = refl

abbrev events : List ServerEvent
events = invite ∷ bye ∷ invite ∷ done 0 "c" ∷ []

-- The second session, which nothing shuts.
left :
    (after_all one ascii_digit same same no_number call_config events fresh).tasks ≡ (1, "c") ∷ []
unfolding after_all lookup insert erase strip
left = refl

abbrev kept_events : List ServerEvent
kept_events = invite ∷ bye ∷ done 0 "c" ∷ invite ∷ []

kept_events-NoReuse : NoReuse one ascii_digit same same no_number call_config kept_events fresh
unfolding step lookup insert erase strip
kept_events-NoReuse = (tt, ((tt, tt), ((tt, tt), (tt, (tt, tt)))))

stop_sessions-IsShut_example :
    All
      (IsShut
        (stop_sessions
          (after_all one ascii_digit same same no_number call_config kept_events fresh)).shut)
      (after_all one ascii_digit same same no_number call_config kept_events fresh).tasks
stop_sessions-IsShut_example =
    stop_sessions-IsShut one ascii_digit same same no_number call_config kept_events fresh tt
      kept_events-NoReuse

-- Between the BYE and the end of the first task.
abbrev ended : SipServer
ended = record {
  has_transport = true;
  active_sessions = [];
  tasks = (0, "c") ∷ [];
  shut = 0 ∷ [];
  created = 1;
}

ended-IsNew : IsNew ended 0
ended-IsNew = record { other = refl; not_active = refl; not_shut = refl }

abbrev headers : Dict String
headers = ("Call-ID", "c") ∷ []

abbrev session : CallSession
session = record {
  call_id = "c";
  remote_rtp_addr = none;
  local_rtp_port = 10000;
  caller_phone = "";
  gateway_client =
      some (record { user_id = "sip-anon-t:k:call:c"; session_id = "sip-t:k:session:c" });
}

handle_invite-escapes_example : IsEscaped 1 "c" (
    on_done 0 "c"
      (handle_invite one ascii_digit same same no_number call_config
        ("a", "b")
        10000
        headers
        ""
        peer
        ended).1)
unfolding lookup session_of same remote_address strip
handle_invite-escapes_example =
    handle_invite-escapes one ascii_digit same same no_number call_config ("a", "b") 10000 headers
      "" peer ended 0 session refl refl refl ended-IsNew refl
