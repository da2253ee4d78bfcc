-- ===== src/At/Idempotency/Tests.antt =====
-- Runs of app/api/v1/at/idempotency.py, with two payloads that hash to "f1" and "f2".
use ekaette.Prelude.{ℕ, String, ◌≡◌, refl, ◌≢◌, [], ◌∷◌, arith, eq_iff}
use ekaette.Dict.{lookup, insert}
use ekaette.Gate.{Entry, done, proceed, replay, payload_mismatch, in_progress}
use ekaette.Gate.Traces.{Call, begin_call, finish_call, run}
use ekaette.At.Idempotency.{Store, preflight, commit, idempotency_preflight, idempotency_commit}
use ekaette.At.Idempotency.Contract.{at_gate, one_worker, replay_after_commit}
use ekaette.At.Idempotency.Expiry.{orphan_commit}

abbrev start : Store ℕ
start = []

abbrev other : Call ℕ
other = begin_call "b" "f2" 10

-- the endpoint's calls: claim, a retry that finds it pending, the commit, and a retry that replays
endpoint_run :
    let call = λ (t : ℕ) (s : Store ℕ).
      idempotency_preflight (λ (p : String). p) "pay" "public" "k" "f1" t s in
    let s₁ = (call 5 start).1 in
    let s₂ = idempotency_commit "pay" "public" "k" 200 7 s₁ in
    ((call 5 start).0 ≡ proceed) × ((call 6 s₁).0 ≡ in_progress) × ((call 8 s₂).0 ≡ replay 200)
unfolding idempotency_preflight idempotency_commit preflight commit lookup insert
endpoint_run = (refl, refl, refl)

first_proceeds : (preflight "a" "f1" 5 start).0 ≡ proceed
unfolding preflight lookup
first_proceeds = refl

a≢b : ◌≢◌ {A = String} "b" "a"
a≢b = ground (arith, eq_iff "b" "a")

one_worker_example :
    (preflight "a" "f2" 20 (run (at_gate ℕ) (preflight "a" "f1" 5 start).1 (other ∷ []))).0
    ≡ payload_mismatch
one_worker_example =
    one_worker "a" "f1" 5 start (other ∷ []) "f2" 20 tt first_proceeds (omega arith) (omega arith)

replay_after_commit_example :
    (preflight "a" "f1" 30 (
      run
        (at_gate ℕ)
        (commit "a" 200 9 (run (at_gate ℕ) (preflight "a" "f1" 5 start).1 []))
        (finish_call "b" "f2" 404 15 ∷ other ∷ []))).0
    ≡ replay 200
replay_after_commit_example =
    replay_after_commit "a" "f1" 5 start [] (finish_call "b" "f2" 404 15 ∷ other ∷ []) 9 200 "f1" 30
      tt first_proceeds tt ((a≢b, omega arith), (omega arith, tt)) (omega arith)

abbrev old_entry : Entry ℕ
old_entry = record { fingerprint = "f1"; state = done 200; expires_at = 10 }

orphan_commit_example : (preflight "a" "f1" 12 (commit "a" 200 9 start)).0 ≡ payload_mismatch
unfolding lookup commit insert
orphan_commit_example =
    orphan_commit "a" "f1" 200 9 12 start (refl, tt) refl (omega arith)
      (ground (arith, eq_iff "f1" ""))
