-- ===== src/Agents/Dedup.antt =====
-- app/agents/dedup.py: `dedup_before_agent`, which suppresses a repeated transfer. The hash is a
-- parameter, and the fingerprint of the user's content is an argument.
pub mod Cooldown
mod Tests
use Prim.Native.String.{◌++◌ as str_append}
use ekaette.Prelude.{
  ℕ, ◌+◌, ◌*◌, String, Bool, true, false, ◌&&◌, Option, none, some, str_eq, ltb, if◌then◌else◌,
  second,
}

abbrev pub dedup_cooldown : ℕ
dedup_cooldown = 2 * second

abbrev pub root_agent_name : String
root_agent_name = "ekaette_router"

-- The four "temp:dedup_last_" keys of the session's state.
pub record DedupState : Type 0 where
  pub last_agent : Option String
  pub last_ts : Option ℕ
  pub last_signature : Option String
  pub last_turn_hash : Option String

abbrev pub is_text : Option String → String → Bool
is_text none s = false
is_text (some t) s = str_eq t s

-- `isinstance(last_ts, (int, float)) and (now - last_ts) < DEDUP_COOLDOWN_SECONDS`
abbrev pub is_recent : ℕ → Option ℕ → Bool
is_recent now none = false
is_recent now (some ts) = ltb now (ts + dedup_cooldown)

module _ (hash : String → String) where
  unfoldable pub signature_of : String → String → String
  signature_of agent_name turn_hash = hash (str_append agent_name (str_append "|" turn_hash))

  -- true where the agent is skipped, and the state
  unfoldable pub dedup_before_agent : String → String → ℕ → DedupState → Bool × DedupState
  unfolding signature_of
  dedup_before_agent agent_name turn_fingerprint now state =
      let turn_hash = hash turn_fingerprint in
      let signature = signature_of agent_name turn_hash in
      if str_eq agent_name root_agent_name
      then (false, state)
      else if is_text state.last_agent agent_name
          && is_text state.last_signature signature
          && is_text state.last_turn_hash turn_hash
          && is_recent now state.last_ts
      then (true, state)
      else (
        false,
        record {
          last_agent = some agent_name;
          last_ts = some now;
          last_signature = some signature;
          last_turn_hash = some turn_hash;
        },
      )
