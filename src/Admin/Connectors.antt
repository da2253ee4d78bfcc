-- ===== src/Admin/Connectors.antt =====
-- app/api/v1/admin/policy.py: the circuit breaker and the locks of connector tests, as they are kept
-- in the process.
pub mod Circuit
pub mod Lock
mod Tests
use ekaette.Prelude.{
  ℕ, ◌+◌, ◌-◌, ◌*◌, ◌/◌, max, String, Bool, true, false, Option, none, some, ltb, leb,
  if◌then◌else◌, colon, second,
}
use ekaette.Dict.{Dict, lookup, insert, erase, erase_all, keys_where}

pub record CircuitState : Type 0 where
  pub failures : ℕ
  pub open_until : ℕ

abbrev pub Circuits : Type 0
Circuits = Dict CircuitState

unfoldable pub connector_circuit_key : String → String → String → String
connector_circuit_key tenant_id company_id connector_id =
    colon tenant_id (colon company_id connector_id)

-- `int(open_until - now_epoch)` where it is positive
unfoldable pub seconds_left : ℕ → Option CircuitState → ℕ
seconds_left now none = 0
seconds_left now (some state) = (state.open_until - now) / second

unfoldable pub retry_after_seconds : String → ℕ → Circuits → ℕ
unfolding seconds_left
retry_after_seconds key now circuits = seconds_left now (lookup key circuits)

unfoldable pub circuit_is_open : String → ℕ → Circuits → Bool
unfolding retry_after_seconds
circuit_is_open key now circuits = ltb 0 (retry_after_seconds key now circuits)

abbrev pub failures_of : Option CircuitState → ℕ
failures_of none = 0
failures_of (some state) = state.failures

-- the state after one more failure
unfoldable pub failed_state : ℕ → ℕ → ℕ → ℕ → CircuitState
failed_state open_after open_seconds now failures = record {
  failures = failures;
  open_until = if leb (max 1 open_after) failures then now + open_seconds * second else 0;
}

unfoldable pub record_failure : ℕ → ℕ → String → ℕ → Circuits → Circuits
unfolding failed_state
record_failure open_after open_seconds key now circuits =
    insert key (failed_state open_after open_seconds now (failures_of (lookup key circuits) + 1))
      circuits

unfoldable pub record_success : String → Circuits → Circuits
record_success key circuits = erase key circuits

-- The locks, by the time at which each ends.
abbrev pub Locks : Type 0
Locks = Dict ℕ

abbrev pub has_ended : ℕ → ℕ → Bool
has_ended now expiry = leb expiry now

unfoldable pub take_lock : ℕ → String → ℕ → Option ℕ → Locks → Bool × Locks
take_lock ttl key now none locks = (true, insert key (now + ttl) locks)
take_lock ttl key now (some expiry) locks = (false, locks)

unfoldable pub acquire_connector_lock : ℕ → String → ℕ → Locks → Bool × Locks
unfolding take_lock
acquire_connector_lock ttl key now locks =
    let held = erase_all (keys_where (has_ended now) locks) locks in
    take_lock ttl key now (lookup key held) held

unfoldable pub release_connector_lock : String → Locks → Locks
release_connector_lock key locks = erase key locks
