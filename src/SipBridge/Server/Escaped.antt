-- ===== src/SipBridge/Server/Escaped.antt =====
-- A call id of sip_bridge/server.py that is used again while its first task still runs.
use Prim.Native.Char.{Char}
use ekaette.Prelude.{
  ℕ, String, ◌≡◌, refl, inl, inr, true, false, Option, none, some, [], ◌∷◌, arith, str_eq, eq_refl,
  ◌==◌, Bool-cases,
}
use ekaette.Dict.{Dict, lookup, erase, insert, lookup-erase}
use ekaette.SipBridge.Register.{Address}
use ekaette.SipBridge.Dialog.{header_of}
use ekaette.SipBridge.Caller.{CallConfig, CallSession, session_of}
use ekaette.SipBridge.Server.{
  SipServer, handle_invite, remote_address, on_done, numbers_of, stop_sessions, drop_task,
  start_session,
}
use ekaette.SipBridge.Server.Tracked.{is_running, n_in, n_in-append}

-- The next number is that of no session.
pub record IsNew (s : SipServer) (n : ℕ) : Type 0 where
  pub other : (s.created == n) ≡ false
  pub not_active : n_in s.created (numbers_of s.active_sessions) ≡ false
  pub not_shut : n_in s.created s.shut ≡ false

-- The session of a task that runs, which neither the table nor `stop` reaches.
abbrev pub IsEscaped : ℕ → String → SipServer → Type 0
IsEscaped n call_id s =
    (is_running n call_id s.tasks ≡ true)
    × (lookup call_id s.active_sessions ≡ none)
    × (n_in n (stop_sessions s).shut ≡ false)

erase-no_number :
    (n : ℕ) (call_id : String) (d : Dict (ℕ × CallSession))
    → n_in n (numbers_of d) ≡ false
    → n_in n (numbers_of (erase call_id d)) ≡ false
unfolding erase
erase-no_number n call_id [] h = refl
erase-no_number n call_id ((k, (m, session)) ∷ d) h = ground (arith, h, erase-no_number n call_id d)

erase-insert-no_number :
    (n : ℕ) (call_id : String) (new : ℕ × CallSession) (d : Dict (ℕ × CallSession))
    → n_in n (numbers_of d) ≡ false
    → n_in n (numbers_of (erase call_id (insert call_id new d))) ≡ false
unfolding erase insert
erase-insert-no_number n call_id new [] h = rw (eq_refl call_id) refl
erase-insert-no_number n call_id (m', session') ((k, (m, session)) ∷ d) h =
    elim (Bool-cases (str_eq k call_id)) [
      | inl same ↦ rw (same, same) (erase-no_number n call_id d (ground (arith, h)))
      | inr other ↦
          rw (other, other) (ground (arith, h, erase-insert-no_number n call_id (m', session') d))
    ]

started-IsEscaped :
    (n : ℕ) (call_id : String) (session : CallSession) (s : SipServer)
    → IsNew s n
    → IsEscaped s.created call_id (on_done n call_id (start_session call_id (some session) s))
unfolding on_done start_session drop_task stop_sessions
started-IsEscaped n call_id session s new = (
  rw new.other (ground (arith, eq_refl call_id)),
  rw
      (
        lookup-erase call_id call_id (insert call_id (s.created, session) s.active_sessions),
        eq_refl call_id,
      )
      refl,
  rw
      (
        n_in-append s.created
            (numbers_of (erase call_id (insert call_id (s.created, session) s.active_sessions)))
            s.shut,
        erase-insert-no_number s.created call_id (s.created, session) s.active_sessions
            new.not_active,
        new.not_shut,
      )
      refl,
)

module _ (decimal : ℕ → String) (digit_value : Char → Option ℕ) (sha256 hmac : String → String)
    (e164 : String → String → Option String) (config : CallConfig) where
  -- Where the table has no session for the call id of an INVITE, as after a BYE, and a session is made for it,
  -- the end of a task n that was started before for the same call id drops the new session from the
  -- table: its task runs, and `stop` does not shut it.
  pub handle_invite-escapes :
      (tags : String × String) (port : ℕ) (headers : Dict String) (body : String) (addr : Address)
      (s : SipServer) (n : ℕ) (session : CallSession)
      → str_eq (header_of "Call-ID" headers) "" ≡ false
      → lookup (header_of "Call-ID" headers) s.active_sessions ≡ none
      → s.has_transport ≡ true
      → IsNew s n
      → session_of digit_value sha256 hmac e164 config
          (header_of "Call-ID" headers)
          (remote_address digit_value body)
          port
          (header_of "From" headers)
        ≡ some session
      → IsEscaped s.created (header_of "Call-ID" headers) (
          on_done n
            (header_of "Call-ID" headers)
            (handle_invite decimal digit_value sha256 hmac e164 config tags port headers body addr
              s).1)
  unfolding handle_invite on_done stop_sessions
  handle_invite-escapes tags port headers body addr s n session some_id absent transport new made =
      rw (some_id, absent, transport, made)
        (started-IsEscaped n (header_of "Call-ID" headers) session s new)
