-- ===== src/At/Idempotency.antt =====
-- app/api/v1/at/idempotency.py: the store of idempotent requests.
pub mod Laws
pub mod Contract
pub mod Expiry
mod Tests
use ekaette.Prelude.{
  ℕ, ◌+◌, ◌*◌, String, Bool, Option, none, some, str_eq, ltb, if◌then◌else◌, length, colon, second,
}
use ekaette.Gate.{
  State, pending, done, Entry, Outcome, proceed, replay, payload_mismatch, in_progress,
}
use ekaette.Dict.{Dict, lookup, insert, erase_all, keys_where}

abbrev pub idempotency_ttl : ℕ
idempotency_ttl = 3600 * second

abbrev pub pending_ttl : ℕ
pending_ttl = 30 * second

abbrev pub Store : Type 0 → Type 0
Store B = Dict (Entry B)

unfoldable pub store_key : String → String → String → String
store_key scope tenant_id idempotency_key =
    colon "at" (colon scope (colon tenant_id idempotency_key))

module _ {B : Type 0} where
  abbrev pub is_expired : ℕ → Entry B → Bool
  is_expired now v = ltb v.expires_at now

  abbrev pub claimed : String → ℕ → Entry B
  claimed fp now = record { fingerprint = fp; state = pending; expires_at = now + pending_ttl }

  -- pruning, at more than 100 entries
  unfoldable pub prune_expired : ℕ → Store B → Store B
  prune_expired now store =
      if ltb 100 (length store) then erase_all (keys_where (is_expired now) store) store else store

  -- the answer to a key that is there with the same fingerprint
  unfoldable pub answer_existing :
      String → String → ℕ → Entry B → State B → Store B → Outcome B × Store B
  answer_existing key fp now existing pending store =
      if is_expired now existing
      then (proceed, insert key (claimed fp now) store)
      else (in_progress, store)
  answer_existing key fp now existing (done body) store = (replay body, store)

  unfoldable pub answer : String → String → ℕ → Option (Entry B) → Store B → Outcome B × Store B
  unfolding answer_existing
  answer key fp now none store = (proceed, insert key (claimed fp now) store)
  answer key fp now (some existing) store =
      if str_eq existing.fingerprint fp
      then answer_existing key fp now existing existing.state store
      else (payload_mismatch, store)

  unfoldable pub preflight : String → String → ℕ → Store B → Outcome B × Store B
  unfolding answer prune_expired
  preflight key fp now store =
      let kept = prune_expired now store in answer key fp now (lookup key kept) kept

  -- `_store.get(store_key, {}).get("fingerprint", "")`
  abbrev pub fingerprint_or_empty : Option (Entry B) → String
  fingerprint_or_empty none = ""
  fingerprint_or_empty (some v) = v.fingerprint

  unfoldable pub commit : String → B → ℕ → Store B → Store B
  commit key body now store =
      insert key
        (record {
          fingerprint = fingerprint_or_empty (lookup key store);
          state = done body;
          expires_at = now + idempotency_ttl;
        })
        store

-- The two calls as the endpoints make them. Serialising and hashing the payload is the parameter.
module _ {P B : Type 0} (payload_fingerprint : P → String) where
  unfoldable pub idempotency_preflight :
      String → String → String → P → ℕ → Store B → Outcome B × Store B
  unfolding store_key
  idempotency_preflight scope tenant_id idempotency_key payload now store =
      preflight (store_key scope tenant_id idempotency_key) (payload_fingerprint payload) now store

module _ {B : Type 0} where
  unfoldable pub idempotency_commit : String → String → String → B → ℕ → Store B → Store B
  unfolding store_key
  idempotency_commit scope tenant_id idempotency_key body now store =
      commit (store_key scope tenant_id idempotency_key) body now store
