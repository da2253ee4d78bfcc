-- ===== src/Gate.antt =====
-- The contract that the two idempotency stores keep (app/api/v1/at/idempotency.py and
-- app/api/v1/admin/idempotency.py): a request first claims its key, and records its response in the
-- end.
pub mod Traces
use ekaette.Prelude.{ℕ, ◌+◌, String, ◌≡◌, ◌≢◌, Option, some, str_eq, if◌then◌else◌}

-- "state", with what is cached once a request is done
pub data State (B : Type 0) : Type 0 where
  pending : State B
  done : B → State B

pub record Entry (B : Type 0) : Type 0 where
  pub fingerprint : String
  pub state : State B
  pub expires_at : ℕ

-- What a preflight answers: go on, a cached response, or one of two conflicts (409).
pub data Outcome (B : Type 0) : Type 0 where
  proceed : Outcome B
  replay : B → Outcome B
  payload_mismatch : Outcome B
  in_progress : Outcome B

module _ {B : Type 0} where
  -- What a live entry makes a preflight of its key answer.
  abbrev pub expected : String → Entry B → State B → Outcome B
  expected fp v pending = if str_eq v.fingerprint fp then in_progress else payload_mismatch
  expected fp v (done body) = if str_eq v.fingerprint fp then replay body else payload_mismatch

pub record Gate (B : Type 0) : Type 1 where
  pub Store : Type 0
  pub IsValid : Store → Type 0
  pub find : String → Store → Option (Entry B)
  pub pending_ttl : ℕ
  pub done_ttl : ℕ
  -- `IsLive now expires_at`
  pub IsLive : ℕ → ℕ → Type 0
  -- key, fingerprint, time
  pub begin : String → String → ℕ → Store → Outcome B × Store
  -- key, fingerprint, response, time
  pub finish : String → String → B → ℕ → Store → Store
  pub begin-IsValid :
      (key fp : String) (now : ℕ) (s : Store) → IsValid s → IsValid (begin key fp now s).1
  pub finish-IsValid :
      (key fp : String) (body : B) (now : ℕ) (s : Store)
      → IsValid s
      → IsValid (finish key fp body now s)
  -- A live entry survives every preflight, and every commit of another key.
  pub begin_keeps :
      (key j fp : String) (now : ℕ) (s : Store) (v : Entry B)
      → IsValid s
      → find j s ≡ some v
      → IsLive now v.expires_at
      → find j (begin key fp now s).1 ≡ some v
  pub finish_keeps :
      (key j fp : String) (body : B) (now : ℕ) (s : Store)
      → key ≢ j
      → find j (finish key fp body now s) ≡ find j s
  pub begin_live :
      (key fp : String) (now : ℕ) (s : Store) (v : Entry B)
      → IsValid s
      → find key s ≡ some v
      → IsLive now v.expires_at
      → (begin key fp now s).0 ≡ expected fp v v.state
  pub begin_claims :
      (key fp : String) (now : ℕ) (s : Store)
      → (begin key fp now s).0 ≡ proceed
      → find key (begin key fp now s).1
        ≡ some (record { fingerprint = fp; state = pending; expires_at = now + pending_ttl })
  pub finish_stores :
      (key fp : String) (body : B) (now : ℕ) (s : Store) (v : Entry B)
      → find key s ≡ some v
      → v.fingerprint ≡ fp
      → find key (finish key fp body now s)
        ≡ some (record { fingerprint = fp; state = done body; expires_at = now + done_ttl })
