-- ===== src/SipBridge/Server.antt =====
-- sip_bridge/server.py: the calls of the SIP server. The sessions that run are numbered; a number that is
-- shut is one whose `shutdown` was called. A datagram that is sent is its text and where it goes. The
-- random tags and port are arguments; the hashes and the library of phone numbers are parameters.
pub mod Tracked
pub mod Stopped
pub mod Escaped
mod Tests
use Prim.Native.Char.{Char, code}
use ekaette.Prelude.{
  ℕ, suc, String, Bool, true, false, ◌&&◌, ◌||◌, not, Option, none, some, List, [], ◌∷◌, ◌++◌,
  str_eq, ◌==◌, if◌then◌else◌, strip,
}
use ekaette.Prelude.Split.{◌<>◌, cut, lines}
use ekaette.Dict.{Dict, lookup, insert, erase}
use ekaette.At.Webhooks.{starts_with}
use ekaette.Shared.PhoneIdentity.{first, canonical_phone_user_id}
use ekaette.SipBridge.Challenge.{span, size, after_lowered}
use ekaette.SipBridge.Dialog.{
  SipRequest, parse_sip_request, build_sip_response, build_sdp_answer, header_of, before_first,
}
use ekaette.SipBridge.Dialog.Sdp.{SdpInfo, parse_sdp_g711, is_digit}
use ekaette.SipBridge.Caller.{CallSession, CallConfig, session_of}
use ekaette.SipBridge.Register.{Address, user_part}

-- `active_sessions` gives the number of a call's session; `tasks` are those that run, each with the call id
-- that it is started for.
pub record SipServer : Type 0 where
  pub has_transport : Bool
  pub active_sessions : Dict (ℕ × CallSession)
  pub tasks : List (ℕ × String)
  pub shut : List ℕ
  pub created : ℕ

abbrev pub Sent : Type 0
Sent = List (String × Address)

-- `headers.get(name) or headers.get(other, "")`
unfoldable pub either_header : String → String → Dict String → String
unfolding lookup
either_header name other headers =
    if str_eq (header_of name headers) "" then header_of other headers else header_of name headers

unfoldable pub coerce_dialog_headers : Dict String → Dict String
unfolding either_header
coerce_dialog_headers headers =
    ("Via", either_header "Via" "via" headers)
    ∷ ("From", either_header "From" "from" headers)
    ∷ ("To", either_header "To" "to" headers)
    ∷ ("Call-ID", either_header "Call-ID" "call-id" headers)
    ∷ ("CSeq", either_header "CSeq" "cseq" headers)
    ∷ []

abbrev pub first_line_of : List String → String
first_line_of [] = ""
first_line_of (line ∷ ls) = line

abbrev pub value_of : Option (String × String) → String
value_of none = ""
value_of (some (name, value)) = strip value

-- the first line that is a Call-ID header, or ""
unfoldable pub find_call_id : List String → String
unfolding after_lowered cut
find_call_id [] = ""
find_call_id (line ∷ ls) =
    let later = find_call_id ls in
    elim (after_lowered "call-id:" line) [ none ↦ later | some rest ↦ value_of (cut b':' line) ]

-- A session that is created is put in the table, and its task is started.
unfoldable pub start_session : String → Option CallSession → SipServer → SipServer
unfolding insert
start_session call_id none s = s
start_session call_id (some session) s = record s {
  active_sessions = insert call_id (s.created, session) s.active_sessions;
  tasks = (s.created, call_id) ∷ s.tasks;
  created = suc s.created;
}

abbrev pub shut_down : Option (ℕ × CallSession) → List ℕ → List ℕ
shut_down none shut = shut
shut_down (some (n, session)) shut = n ∷ shut

unfoldable pub end_call : String → SipServer → SipServer
unfolding lookup erase
end_call call_id s = record s {
  active_sessions = erase call_id s.active_sessions;
  shut = shut_down (lookup call_id s.active_sessions) s.shut;
}

abbrev pub is_active : Option (ℕ × CallSession) → Bool
is_active none = false
is_active (some session) = true

abbrev pub media_address : SdpInfo → Option Address
media_address info =
    if str_eq info.media_ip "" || info.media_port == 0
    then none
    else some (info.media_ip, info.media_port)

module _ (digit_value : Char → Option ℕ) where
  -- the media's address, of a body that is there
  unfoldable pub remote_address : String → Option Address
  unfolding parse_sdp_g711
  remote_address body =
      if str_eq body "" then none else media_address (parse_sdp_g711 digit_value body)

module _ (decimal : ℕ → String) (digit_value : Char → Option ℕ) (sha256 hmac : String → String)
    (e164 : String → String → Option String) (config : CallConfig) where
  unfoldable pub contact_uri : String
  unfolding user_part ◌<>◌
  contact_uri =
      "<sip:"
      <> (user_part config.sip.sip_username
          <> ("@" <> (config.sip.sip_public_ip <> (":" <> (decimal config.sip.sip_port <> ">")))))

  -- 100 and 200, with their random tags
  unfoldable pub invite_responses : String × String → ℕ → Dict String → Address → Sent
  unfolding build_sip_response build_sdp_answer contact_uri
  invite_responses (tag, tag') port headers addr =
      (build_sip_response decimal tag 100 "Trying" headers none contact_uri, addr)
      ∷ (
        build_sip_response decimal tag' 200 "OK" headers
            (some (build_sdp_answer decimal config.sip.sip_public_ip port)) contact_uri,
        addr,
      )
      ∷ []

  unfoldable pub handle_invite :
      String × String → ℕ → Dict String → String → Address → SipServer → Sent × SipServer
  unfolding lookup session_of start_session remote_address invite_responses
  handle_invite tags port headers body addr s =
      let call_id = header_of "Call-ID" headers in
      if str_eq call_id "" || is_active (lookup call_id s.active_sessions) || not s.has_transport
      then ([], s)
      else (
        invite_responses tags port headers addr,
        start_session call_id
            (session_of digit_value sha256 hmac e164 config call_id
              (remote_address digit_value body) port (header_of "From" headers))
            s,
      )

  abbrev pub or_found : String → String → String
  or_found message call_id = if str_eq call_id "" then find_call_id (lines message) else call_id

  unfoldable pub handle_bye : String → Dict String → String → Address → SipServer → Sent × SipServer
  unfolding end_call find_call_id lines build_sip_response contact_uri
  handle_bye tag headers message addr s =
      let call_id = or_found message (header_of "Call-ID" headers) in
      (
        if s.has_transport
            then (build_sip_response decimal tag 200 "OK" headers none contact_uri, addr) ∷ []
            else [],
        if str_eq call_id "" then s else end_call call_id s,
      )

  -- A request; responses go to the registration.
  unfoldable pub datagram_received :
      String × String → ℕ → String → Address → SipServer → Sent × SipServer
  unfolding handle_invite handle_bye parse_sip_request coerce_dialog_headers lines starts_with
  datagram_received tags port message addr s =
      let request = parse_sip_request message in
      let headers = coerce_dialog_headers request.headers in
      let first_line = first_line_of (lines message) in
      if starts_with "SIP/2.0" first_line
      then ([], s)
      else if starts_with "INVITE" first_line
      then handle_invite tags port headers request.body addr s
      else if starts_with "BYE" first_line
      then handle_bye tags.0 headers message addr s
      else ([], s)

abbrev pub is_task : ℕ → String → ℕ × String → Bool
is_task n call_id (m, d) = m == n && str_eq d call_id

-- A task that runs ends: its callback drops the call id that it was started for.
unfoldable pub drop_task : ℕ → String → List (ℕ × String) → List (ℕ × String)
drop_task n call_id [] = []
drop_task n call_id (t ∷ ts) =
    let rest = drop_task n call_id ts in if is_task n call_id t then ts else t ∷ rest

unfoldable pub on_done : ℕ → String → SipServer → SipServer
unfolding erase drop_task
on_done n call_id s = record s {
  active_sessions = erase call_id s.active_sessions;
  tasks = drop_task n call_id s.tasks;
}

abbrev pub numbers_of : Dict (ℕ × CallSession) → List ℕ
numbers_of [] = []
numbers_of ((call_id, (n, session)) ∷ d) = n ∷ numbers_of d

-- `stop` shuts every session of the table.
unfoldable pub stop_sessions : SipServer → SipServer
stop_sessions s = record s { shut = numbers_of s.active_sessions ++ s.shut }
