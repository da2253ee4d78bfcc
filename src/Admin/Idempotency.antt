-- ===== src/Admin/Idempotency.antt =====
-- app/api/v1/admin/idempotency.py: the in-memory store, the Firestore store behind its client, and
-- the choice between them. A response is a status and a body; the two TTLs are settings.
pub mod Memory
pub mod Contract
mod Tests
use ekaette.Prelude.{
  ℕ, ◌+◌, String, Bool, Option, none, some, str_eq, leb, if◌then◌else◌, colon, strip,
}
use ekaette.Gate.{
  State, pending, done, Entry, Outcome, proceed, replay, payload_mismatch, in_progress,
}
use ekaette.Dict.{Dict, lookup, insert, erase_all, keys_where}

module _ (B : Type 0) where
  -- "status_code" and "body" of a finished request
  abbrev pub Response : Type 0
  Response = ℕ × B

  abbrev pub Store : Type 0
  Store = Dict (Entry (ℕ × B))

unfoldable pub store_key : String → String → String → String
store_key scope tenant_id idempotency_key = colon scope (colon tenant_id (strip idempotency_key))

module _ {B : Type 0} where
  abbrev pub is_expired : ℕ → Entry (Response B) → Bool
  is_expired now v = leb v.expires_at now

  unfoldable pub prune : ℕ → Store B → Store B
  prune now store = erase_all (keys_where (is_expired now) store) store

  abbrev pub claimed : ℕ → String → ℕ → Entry (Response B)
  claimed pending_ttl fp now = record {
    fingerprint = fp;
    state = pending;
    expires_at = now + pending_ttl;
  }

  abbrev pub answer_cached : State (Response B) → Outcome (Response B)
  answer_cached pending = in_progress
  answer_cached (done r) = replay r

  unfoldable pub answer :
      ℕ
      → String
      → String
      → ℕ
      → Option (Entry (Response B))
      → Store B
      → Outcome (Response B) × Store B
  answer pending_ttl key fp now none store =
      (proceed, insert key (claimed pending_ttl fp now) store)
  answer pending_ttl key fp now (some v) store =
      if str_eq v.fingerprint fp then (answer_cached v.state, store) else (payload_mismatch, store)

  -- `_idempotency_memory_begin_with_key`, at the store key and the fingerprint
  unfoldable pub memory_begin : ℕ → String → String → ℕ → Store B → Outcome (Response B) × Store B
  unfolding answer prune
  memory_begin pending_ttl key fp now store =
      let pruned = prune now store in answer pending_ttl key fp now (lookup key pruned) pruned

  -- `_idempotency_memory_record`
  unfoldable pub memory_record : ℕ → String → String → Response B → ℕ → Store B → Store B
  memory_record ttl key fp response now store =
      insert key (record { fingerprint = fp; state = done response; expires_at = now + ttl }) store
