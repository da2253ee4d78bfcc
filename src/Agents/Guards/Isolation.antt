-- ===== src/Agents/Guards/Isolation.antt =====
-- What the guards of app/agents/callbacks.py let through, and what they leave of the state.
use ekaette.Prelude.{
  ℕ, String, ◌≡◌, refl, inl, inr, true, ◌||◌, Option, none, some, List, arith, str_eq, Bool-cases,
}
use ekaette.Dict.{Dict, lookup}
use ekaette.Agents.Policy.{StateValue, resolve_enabled_agents_from_state}
use ekaette.Agents.Dedup.{DedupState, root_agent_name}
use ekaette.Agents.Messages.{Fields, Session}
use ekaette.Agents.Messages.Numbering.{Keeps, Keeps-refl, queue_server_message-Keeps}
use ekaette.Agents.Guards.{
  runs, is_enabled, has_capability, tool_capability_map, before_agent_isolation_guard,
  before_agent_isolation_guard_and_dedup, tool_transfer_target_agent_name,
  before_tool_agent_transfer_guard, before_tool_capability_guard,
  before_tool_capability_guard_and_log, after_guard,
}

-- An agent that a session with these enabled agents may run.
abbrev pub MayRun : Option (List String) → String → Type 0
MayRun enabled agent = (str_eq agent root_agent_name || is_enabled enabled agent) ≡ true

-- A tool call that a session may make: it transfers to no agent that is not enabled, and needs no
-- capability that is not listed.
pub record MayCall (state : Dict StateValue) (tool_name : String) (args : Dict StateValue)
    : Type 0 where
  pub target_enabled :
      (target : String)
      → tool_transfer_target_agent_name tool_name args ≡ some target
      → is_enabled (resolve_enabled_agents_from_state state) target ≡ true
  pub capability_listed :
      (required : String)
      → lookup tool_name tool_capability_map ≡ some required
      → has_capability required (lookup "app:capabilities" state) ≡ true

before_agent_isolation_guard-Keeps :
    (agent : String) (s : Session) → Keeps s (before_agent_isolation_guard agent s).1
unfolding before_agent_isolation_guard
before_agent_isolation_guard-Keeps agent s =
    elim (Bool-cases (
      str_eq agent root_agent_name
      || is_enabled (resolve_enabled_agents_from_state s.entries) agent)) [
        | inl may ↦ rw may (Keeps-refl s)
        | inr may_not ↦ rw may_not (queue_server_message-Keeps _ s)
      ]

before_agent_isolation_guard-MayRun :
    (agent : String) (s : Session)
    → (before_agent_isolation_guard agent s).0 ≡ none
    → MayRun (resolve_enabled_agents_from_state s.entries) agent
unfolding before_agent_isolation_guard
before_agent_isolation_guard-MayRun agent s h =
    elim (Bool-cases (
      str_eq agent root_agent_name
      || is_enabled (resolve_enabled_agents_from_state s.entries) agent)) [
        | inl may ↦ may
        | inr may_not ↦ ground (arith, may_not, h)
      ]

module _ (hash : String → String) where
  after_guard-state :
      (agent fingerprint : String) (now : ℕ) (p : Option String × Session) (dedup : DedupState)
      → (after_guard hash agent fingerprint now p dedup).1.0 ≡ p.1
  after_guard-state agent fingerprint now (none, s) dedup = refl
  after_guard-state agent fingerprint now (some content, s) dedup = refl

  after_guard-runs :
      (agent fingerprint : String) (now : ℕ) (p : Option String × Session) (dedup : DedupState)
      → (after_guard hash agent fingerprint now p dedup).0 ≡ runs
      → p.0 ≡ none
  after_guard-runs agent fingerprint now (none, s) dedup h = refl
  after_guard-runs agent fingerprint now (some content, s) dedup h = absurd (cc h)

  pub before_agent-Keeps :
      (agent fingerprint : String) (now : ℕ) (s : Session) (dedup : DedupState)
      → Keeps s (before_agent_isolation_guard_and_dedup hash agent fingerprint now (s, dedup)).1.0
  unfolding before_agent_isolation_guard_and_dedup
  before_agent-Keeps agent fingerprint now s dedup =
      rw (after_guard-state agent fingerprint now (before_agent_isolation_guard agent s) dedup)
        (before_agent_isolation_guard-Keeps agent s)

  pub before_agent-MayRun :
      (agent fingerprint : String) (now : ℕ) (s : Session) (dedup : DedupState)
      → (before_agent_isolation_guard_and_dedup hash agent fingerprint now (s, dedup)).0 ≡ runs
      → MayRun (resolve_enabled_agents_from_state s.entries) agent
  unfolding before_agent_isolation_guard_and_dedup
  before_agent-MayRun agent fingerprint now s dedup h =
      before_agent_isolation_guard-MayRun agent s
        (after_guard-runs agent fingerprint now (before_agent_isolation_guard agent s) dedup h)

transfer_guard-enabled :
    (tool_name target : String) (args state : Dict StateValue)
    → tool_transfer_target_agent_name tool_name args ≡ some target
    → before_tool_agent_transfer_guard tool_name args state ≡ none
    → is_enabled (resolve_enabled_agents_from_state state) target ≡ true
unfolding before_tool_agent_transfer_guard
transfer_guard-enabled tool_name target args state e h =
    elim (Bool-cases (is_enabled (resolve_enabled_agents_from_state state) target)) [
      | inl enabled ↦ enabled
      | inr off ↦ absurd (ground (arith, e, off, h))
    ]

capability_guard-listed :
    (tool_name required : String) (state : Dict StateValue)
    → lookup tool_name tool_capability_map ≡ some required
    → before_tool_capability_guard tool_name state ≡ none
    → has_capability required (lookup "app:capabilities" state) ≡ true
unfolding before_tool_capability_guard
capability_guard-listed tool_name required state e h =
    elim (Bool-cases (has_capability required (lookup "app:capabilities" state))) [
      | inl listed ↦ listed
      | inr off ↦ absurd (ground (arith, e, off, h))
    ]

both_silent :
    (o p : Option Fields)
    → elim o as (λ q. Option Fields) [ none ↦ p | some blocked ↦ some blocked ] ≡ none
    → (o ≡ none) × (p ≡ none)
both_silent none p h = (refl, h)
both_silent (some blocked) p h = absurd (cc h)

pub before_tool-MayCall :
    (tool_name : String) (args state : Dict StateValue)
    → before_tool_capability_guard_and_log tool_name args state ≡ none
    → MayCall state tool_name args
unfolding before_tool_capability_guard_and_log
before_tool-MayCall tool_name args state h =
    let (transfer, capability) =
      both_silent (before_tool_agent_transfer_guard tool_name args state)
        (before_tool_capability_guard tool_name state) h in
    record {
      target_enabled = λ target e. transfer_guard-enabled tool_name target args state e transfer;
      capability_listed =
          λ required e. capability_guard-listed tool_name required state e capability;
    }
