-- ===== src/Agents/Guards/Trace.antt =====
-- A session of app/agents/callbacks.py as the callbacks that the agent framework makes, in order.
use mathlib.Core.Path.{subst}
use ekaette.Prelude.{ℕ, String, ◌≡◌, refl, Option, none, some, List, [], ◌∷◌, All}
use ekaette.Prelude.Int.{ℤ}
use ekaette.Dict.{Dict}
use ekaette.Agents.Policy.{StateValue, resolve_enabled_agents_from_state}
use ekaette.Agents.Dedup.{DedupState}
use ekaette.Agents.Messages.{Json, Fields, Session, on_tool_error_emit}
use ekaette.Agents.Messages.Results.{after_tool_emit_messages}
use ekaette.Agents.Messages.Numbering.{
  Keeps, Keeps-refl, OptionKeeps, after_tool_emit_messages-Keeps, tool_error-Keeps,
}
use ekaette.Agents.Guards.{
  AgentAnswer, runs, skipped, refused, before_agent_isolation_guard_and_dedup,
  before_tool_capability_guard_and_log,
}
use ekaette.Agents.Guards.Isolation.{
  MayRun, MayCall, before_agent-Keeps, before_agent-MayRun, before_tool-MayCall,
}

pub data Callback : Type 0 where
  before_agent : String → String → ℕ → Callback
  before_tool : String → Dict StateValue → Callback
  after_tool : String → Option Fields → Callback
  tool_error : String → Callback

-- What a callback lets run.
pub data Let : Type 0 where
  nothing : Let
  agent : String → Let
  tool : String → Dict StateValue → Let

abbrev let_agent : String → AgentAnswer → Let
let_agent name runs = agent name
let_agent name skipped = nothing
let_agent name (refused content) = nothing

abbrev let_tool : String → Dict StateValue → Option Fields → Let
let_tool name args none = tool name args
let_tool name args (some blocked) = nothing

-- A callback that raises leaves the state.
abbrev or_before : Session → Option Session → Session
or_before s none = s
or_before s (some after) = after

-- What a policy and a state permit to be let run.
abbrev pub IsPermitted : Dict StateValue → Let → Type 0
IsPermitted entries nothing = Unit
IsPermitted entries (agent name) = MayRun (resolve_enabled_agents_from_state entries) name
IsPermitted entries (tool name args) = MayCall entries name args

or_before-Keeps : (s : Session) (o : Option Session) → OptionKeeps s o → Keeps s (or_before s o)
unfolding OptionKeeps
or_before-Keeps s none h = Keeps-refl s
or_before-Keeps s (some after) h = h

let_agent-IsPermitted :
    (entries : Dict StateValue) (name : String) (answer : AgentAnswer)
    → (answer ≡ runs → MayRun (resolve_enabled_agents_from_state entries) name)
    → IsPermitted entries (let_agent name answer)
let_agent-IsPermitted entries name runs h = h refl
let_agent-IsPermitted entries name skipped h = tt
let_agent-IsPermitted entries name (refused content) h = tt

let_tool-IsPermitted :
    (entries args : Dict StateValue) (name : String) (o : Option Fields)
    → (o ≡ none → MayCall entries name args)
    → IsPermitted entries (let_tool name args o)
let_tool-IsPermitted entries args name none h = h refl
let_tool-IsPermitted entries args name (some blocked) h = tt

module _ (hash : String → String) (show : Json → String) (read_int : String → Option ℤ) where
  unfoldable pub step : Callback → Session × DedupState → Let × (Session × DedupState)
  step (before_agent name fingerprint now) (s, dedup) =
      let answered = before_agent_isolation_guard_and_dedup hash name fingerprint now (s, dedup) in
      (let_agent name answered.0, answered.1)
  step (before_tool name args) (s, dedup) =
      (let_tool name args (before_tool_capability_guard_and_log name args s.entries), (s, dedup))
  step (after_tool name result) (s, dedup) =
      (nothing, (or_before s (after_tool_emit_messages show read_int name result s), dedup))
  step (tool_error name) (s, dedup) = (nothing, (on_tool_error_emit show name s, dedup))

  pub step-Keeps :
      (c : Callback) (s : Session) (dedup : DedupState) → Keeps s (step c (s, dedup)).1.0
  unfolding step
  step-Keeps (before_agent name fingerprint now) s dedup =
      before_agent-Keeps hash name fingerprint now s dedup
  step-Keeps (before_tool name args) s dedup = Keeps-refl s
  step-Keeps (after_tool name result) s dedup =
      or_before-Keeps s _ (after_tool_emit_messages-Keeps show read_int name result s)
  step-Keeps (tool_error name) s dedup = tool_error-Keeps show read_int name s

  step-IsPermitted :
      (c : Callback) (s : Session) (dedup : DedupState)
      → IsPermitted s.entries (step c (s, dedup)).0
  unfolding step
  step-IsPermitted (before_agent name fingerprint now) s dedup =
      let_agent-IsPermitted s.entries name
        (before_agent_isolation_guard_and_dedup hash name fingerprint now (s, dedup)).0
        (before_agent-MayRun hash name fingerprint now s dedup)
  step-IsPermitted (before_tool name args) s dedup =
      let_tool-IsPermitted s.entries args name
        (before_tool_capability_guard_and_log name args s.entries)
        (before_tool-MayCall name args s.entries)
  step-IsPermitted (after_tool name result) s dedup = tt
  step-IsPermitted (tool_error name) s dedup = tt

  -- What the callbacks of a session let run.
  unfoldable pub all_let : List Callback → Session × DedupState → List Let
  unfolding step
  all_let [] state = []
  all_let (c ∷ cs) state = (step c state).0 ∷ all_let cs (step c state).1

  -- Whatever callbacks a session makes, and whatever came before, each agent that is let run is the
  -- root agent or one that the session's state enables, and each tool call that is let run transfers
  -- to no agent that is not enabled and needs no capability that is missing from the state's list.
  pub all_let-IsPermitted :
      (callbacks : List Callback) (s : Session) (dedup : DedupState)
      → All (IsPermitted s.entries) (all_let callbacks (s, dedup))
  unfolding all_let
  all_let-IsPermitted [] s dedup = tt
  all_let-IsPermitted (c ∷ cs) s dedup =
      let (after, dedup') = (step c (s, dedup)).1 in
      (
        step-IsPermitted c s dedup,
        subst (λ entries. All (IsPermitted entries) (all_let cs (after, dedup')))
            (step-Keeps c s dedup).0 (all_let-IsPermitted cs after dedup'),
      )
