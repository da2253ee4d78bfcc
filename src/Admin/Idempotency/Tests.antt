-- ===== src/Admin/Idempotency/Tests.antt =====
-- Runs of the in-memory store of app/api/v1/admin/idempotency.py.
use ekaette.Prelude.{ℕ, ◌≡◌, refl, [], ◌∷◌, arith}
use ekaette.Dict.{lookup, erase_all, keys_where}
use ekaette.Gate.{proceed, in_progress}
use ekaette.Gate.Traces.{Call, begin_call, run}
use ekaette.Admin.Idempotency.{Store, Response, memory_begin}
use ekaette.Admin.Idempotency.Contract.{admin_gate, memory_one_worker}

abbrev start : Store ℕ
start = []

abbrev other : Call (Response ℕ)
other = begin_call "b" "f2" 10

first_proceeds : (memory_begin 30 "a" "f1" 5 start).0 ≡ proceed
unfolding memory_begin lookup erase_all keys_where
first_proceeds = refl

memory_one_worker_example :
    (memory_begin 30 "a" "f1" 20
      (run (admin_gate ℕ 30 100) (memory_begin 30 "a" "f1" 5 start).1 (other ∷ []))).0
    ≡ in_progress
memory_one_worker_example =
    memory_one_worker 30 100 "a" "f1" 5 start (other ∷ []) "f1" 20 tt first_proceeds (omega arith)
      (omega arith)
