-- ===== src/SipBridge/Server/Stopped.antt =====
-- The life of sip_bridge/server.py from datagram to datagram, and its stop.
use Prim.Native.Char.{Char}
use ekaette.Prelude.{
  ℕ, String, inl, inr, Bool, true, false, ◌||◌, not, Option, List, [], ◌∷◌, str_eq, if◌then◌else◌,
  Bool-cases, All,
}
use ekaette.Dict.{Dict, lookup}
use ekaette.At.Webhooks.{starts_with}
use ekaette.Prelude.Split.{lines}
use ekaette.SipBridge.Dialog.{header_of, parse_sip_request}
use ekaette.SipBridge.Register.{Address}
use ekaette.SipBridge.Caller.{CallConfig, CallSession}
use ekaette.SipBridge.Server.{
  SipServer, Sent, datagram_received, handle_invite, handle_bye, start_session, end_call, on_done,
  is_active, first_line_of, coerce_dialog_headers, stop_sessions,
}
use ekaette.SipBridge.Server.Tracked.{
  is_running, IsTracked, Distinct, IsShut, start_session-IsTracked, end_call-IsTracked, done-Tracks,
  stopped-IsShut,
}

-- What a handler sends and leaves.
data Changes (s : SipServer) : Sent × SipServer → Type 0 where
  same : (sent : Sent) → Changes s (sent, s)
  starts :
      (sent : Sent) (call_id : String) (o : Option CallSession)
      → Changes s (sent, start_session call_id o s)
  ends : (sent : Sent) (call_id : String) → Changes s (sent, end_call call_id s)

if-Changes :
    (s : SipServer) (test : Bool) (x y : Sent × SipServer)
    → Changes s x
    → Changes s y
    → Changes s (if test then x else y)
if-Changes s true x y h k = h
if-Changes s false x y h k = k

end_unless-Changes :
    (s : SipServer) (sent : Sent) (test : Bool) (call_id : String)
    → Changes s (sent, if test then s else end_call call_id s)
end_unless-Changes s sent true call_id = same sent
end_unless-Changes s sent false call_id = ends sent call_id

Changes-IsTracked :
    (s : SipServer) (x : Sent × SipServer)
    → Changes s x
    → IsTracked s
    → Distinct x.1.tasks
    → IsTracked x.1
Changes-IsTracked s _ (same sent) h d = h
Changes-IsTracked s _ (starts sent call_id o) h d = start_session-IsTracked call_id o s h d
Changes-IsTracked s _ (ends sent call_id) h d = end_call-IsTracked call_id s h

-- What the server gets, and the end of a task.
pub data ServerEvent : Type 0 where
  datagram : String × String → ℕ → String → Address → ServerEvent
  done : ℕ → String → ServerEvent

module _ (decimal : ℕ → String) (digit_value : Char → Option ℕ) (sha256 hmac : String → String)
    (e164 : String → String → Option String) (config : CallConfig) where
  -- Only a task that runs ends.
  unfoldable pub step : ServerEvent → SipServer → SipServer
  unfolding datagram_received on_done
  step (datagram tags port message addr) s =
      (datagram_received decimal digit_value sha256 hmac e164 config tags port message addr s).1
  step (done n call_id) s = if is_running n call_id s.tasks then on_done n call_id s else s

  unfoldable pub after_all : List ServerEvent → SipServer → SipServer
  unfolding step
  after_all [] s = s
  after_all (e ∷ es) s = after_all es (step e s)

  -- At no time do two tasks run for one call id.
  abbrev pub NoReuse : List ServerEvent → SipServer → Type 0
  NoReuse [] s = Distinct s.tasks
  NoReuse (e ∷ es) s = Distinct s.tasks × NoReuse es (step e s)

  NoReuse-Distinct : (es : List ServerEvent) (s : SipServer) → NoReuse es s → Distinct s.tasks
  NoReuse-Distinct [] s h = h
  NoReuse-Distinct (e ∷ es) s h = h.0

  handle_invite-Changes :
      (tags : String × String) (port : ℕ) (headers : Dict String) (body : String) (addr : Address)
      (s : SipServer)
      → Changes s
          (handle_invite decimal digit_value sha256 hmac e164 config tags port headers body addr s)
  unfolding handle_invite
  handle_invite-Changes tags port headers body addr s =
      if-Changes s
        (str_eq (header_of "Call-ID" headers) ""
          || is_active (lookup (header_of "Call-ID" headers) s.active_sessions)
          || not s.has_transport)
        _ _ (same _) (starts _ _ _)

  handle_bye-Changes :
      (tag : String) (headers : Dict String) (message : String) (addr : Address) (s : SipServer)
      → Changes s
          (handle_bye decimal digit_value sha256 hmac e164 config tag headers message addr s)
  unfolding handle_bye
  handle_bye-Changes tag headers message addr s = end_unless-Changes s _ _ _

  received-Changes :
      (tags : String × String) (port : ℕ) (message : String) (addr : Address) (s : SipServer)
      → Changes s
          (datagram_received decimal digit_value sha256 hmac e164 config tags port message addr s)
  unfolding datagram_received
  received-Changes tags port message addr s =
      let first_line = first_line_of (lines message) in
      let headers = coerce_dialog_headers (parse_sip_request message).headers in
      if-Changes s (starts_with "SIP/2.0" first_line) _ _ (same _) (
        if-Changes s (starts_with "INVITE" first_line) _ _
          (handle_invite-Changes tags port headers (parse_sip_request message).body addr s)
          (if-Changes s (starts_with "BYE" first_line) _ _
            (handle_bye-Changes tags.0 headers message addr s) (same _)))

  step-IsTracked :
      (e : ServerEvent) (s : SipServer)
      → IsTracked s
      → Distinct s.tasks
      → Distinct (step e s).tasks
      → IsTracked (step e s)
  unfolding step on_done
  step-IsTracked (datagram tags port message addr) s h before d =
      Changes-IsTracked s _ (received-Changes tags port message addr s) h d
  step-IsTracked (done n call_id) s h before d = elim (Bool-cases (is_running n call_id s.tasks)) [
    | inl r ↦ rw r (done-Tracks n call_id s.active_sessions s.shut s.tasks h before r)
    | inr ended ↦ rw ended h
  ]

  after_all-IsTracked :
      (es : List ServerEvent) (s : SipServer)
      → IsTracked s
      → NoReuse es s
      → IsTracked (after_all es s)
  unfolding after_all
  after_all-IsTracked [] s h r = h
  after_all-IsTracked (e ∷ es) s h r =
      after_all-IsTracked es (step e s)
        (step-IsTracked e s h r.0 (NoReuse-Distinct es (step e s) r.1)) r.1

  -- From a server whose table leads to every session that runs, whatever datagrams it gets and whichever
  -- tasks end, if at no time two tasks run for one call id then `stop` shuts every session that
  -- still runs.
  pub stop_sessions-IsShut :
      (es : List ServerEvent) (s : SipServer)
      → IsTracked s
      → NoReuse es s
      → All (IsShut (stop_sessions (after_all es s)).shut) (after_all es s).tasks
  unfolding stop_sessions
  stop_sessions-IsShut es s h r =
      let end = after_all es s in
      stopped-IsShut end.active_sessions end.shut end.tasks (after_all-IsTracked es s h r)
