-- ===== src/Admin/Connectors/Circuit.antt =====
-- When the circuit breaker of app/api/v1/admin/policy.py is open.
use ekaette.Prelude.{
  ℕ, zero, suc, ◌+◌, ◌-◌, ◌*◌, ◌/◌, max, String, ◌≡◌, refl, ap, ◌∙◌, inl, inr, Option, none, some,
  List, [], ◌∷◌, arith, str_eq, eq_iff, leb, if◌then◌else◌, Bool-cases, second,
}
use ekaette.Dict.{lookup, lookup-insert, lookup-erase}
use ekaette.Admin.Connectors.{
  CircuitState, Circuits, seconds_left, retry_after_seconds, failures_of, failed_state,
  record_failure, record_success,
}

-- The outcome of a test of a connector.
pub data Probe : Type 0 where
  failed : String → ℕ → Probe
  succeeded : String → Probe

-- The failures of a key since its last success, the latest probe first.
abbrev pub consecutive : String → List Probe → ℕ
consecutive key [] = 0
consecutive key (failed k now ∷ probes) =
    let rest = consecutive key probes in if str_eq k key then suc rest else rest
consecutive key (succeeded k ∷ probes) =
    let rest = consecutive key probes in if str_eq k key then 0 else rest

-- When a key last failed.
abbrev pub last_failure : String → List Probe → ℕ
last_failure key [] = 0
last_failure key (failed k now ∷ probes) =
    let rest = last_failure key probes in if str_eq k key then now else rest
last_failure key (succeeded k ∷ probes) = last_failure key probes

module _ (open_after open_seconds : ℕ) where
  unfoldable pub after_probes : List Probe → Circuits
  after_probes [] = []
  after_probes (failed k now ∷ probes) =
      record_failure open_after open_seconds k now (after_probes probes)
  after_probes (succeeded k ∷ probes) = record_success k (after_probes probes)

  abbrev entry : ℕ → ℕ → Option CircuitState
  entry zero last = none
  entry (suc n) last = some (failed_state open_after open_seconds last (suc n))

  failures_of-entry : (n last : ℕ) → failures_of (entry n last) ≡ n
  unfolding failed_state
  failures_of-entry zero last = refl
  failures_of-entry (suc n) last = refl

  lookup-after_probes :
      (key : String) (probes : List Probe)
      → lookup key (after_probes probes) ≡ entry (consecutive key probes) (last_failure key probes)
  unfolding after_probes record_failure record_success
  lookup-after_probes key [] = unfold lookup in refl
  lookup-after_probes key (failed k now ∷ probes) =
      let before = after_probes probes in
      let state = failed_state open_after open_seconds now (failures_of (lookup k before) + 1) in
      elim (Bool-cases (str_eq k key)) [
        | inl here ↦
            let same : k ≡ key = (eq_iff k key).0 here in
            let count : failures_of (lookup key before) ≡ consecutive key probes =
              ap failures_of (lookup-after_probes key probes)
              ∙ failures_of-entry (consecutive key probes) (last_failure key probes) in
            let next : failures_of (lookup k before) + 1 ≡ suc (consecutive key probes) =
              rw (same, count) (omega arith) in
            rw (record_failure, lookup-insert k key state before, here)
              (ap (λ (n : ℕ). some (failed_state open_after open_seconds now n)) next)
        | inr there ↦
            rw (record_failure, lookup-insert k key state before, there)
              (lookup-after_probes key probes)
      ]
  lookup-after_probes key (succeeded k ∷ probes) = elim (Bool-cases (str_eq k key)) [
    | inl here ↦ rw (record_success, lookup-erase k key (after_probes probes), here) refl
    | inr there ↦
        rw (record_success, lookup-erase k key (after_probes probes), there)
          (lookup-after_probes key probes)
  ]

  seconds_left-entry :
      (n last now : ℕ)
      → seconds_left now (entry n last)
        ≡ (if leb (max 1 open_after) n then (last + open_seconds * second - now) / second else 0)
  unfolding seconds_left failed_state
  seconds_left-entry zero last now = ground arith
  seconds_left-entry (suc n) last now = ground arith

  -- After any probes the circuit of a key tells to wait exactly when the key has failed at least
  -- `open_after` times (or once, if that is 0) since its last success, and then for the whole
  -- seconds that are left of `open_seconds` from its last failure.
  pub retry_after_probes :
      (key : String) (probes : List Probe) (now : ℕ)
      → retry_after_seconds key now (after_probes probes) ≡ (
          if leb (max 1 open_after) (consecutive key probes)
          then (last_failure key probes + open_seconds * second - now) / second
          else 0)
  unfolding retry_after_seconds
  retry_after_probes key probes now =
      rw (retry_after_seconds, lookup-after_probes key probes)
        (seconds_left-entry (consecutive key probes) (last_failure key probes) now)
