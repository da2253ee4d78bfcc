-- ===== src/Admin/Idempotency/Contract.antt =====
-- The in-memory store of app/api/v1/admin/idempotency.py as an idempotency store, and what follows.
use ekaette.Prelude.{ℕ, ◌+◌, ◌<◌, String, ◌≡◌, List, str_eq, if◌then◌else◌, All}
use ekaette.Dict.{lookup, HasUniqueKeys}
use ekaette.Gate.{proceed, replay, payload_mismatch, in_progress, Gate}
use ekaette.Gate.Traces
use ekaette.Gate.Traces.{Call, Spares, run}
use ekaette.Admin.Idempotency.{Response, Store, memory_begin, memory_record}
use ekaette.Admin.Idempotency.Memory.{
  memory_begin-HasUniqueKeys, memory_begin-keeps, memory_begin-expected, memory_begin-claims,
  memory_record-keeps, memory_record-HasUniqueKeys, memory_record-stores,
}

abbrev pub admin_gate : (B : Type 0) → ℕ → ℕ → Gate (Response B)
admin_gate B pending_ttl ttl = record {
  Store = Store B;
  IsValid = HasUniqueKeys;
  find = lookup;
  pending_ttl = pending_ttl;
  done_ttl = ttl;
  IsLive = λ now expires_at. now < expires_at;
  begin = memory_begin pending_ttl;
  finish = memory_record ttl;
  begin-IsValid = memory_begin-HasUniqueKeys pending_ttl;
  finish-IsValid = memory_record-HasUniqueKeys ttl;
  begin_keeps = memory_begin-keeps pending_ttl;
  finish_keeps = memory_record-keeps ttl;
  begin_live = memory_begin-expected pending_ttl;
  begin_claims = memory_begin-claims pending_ttl;
  finish_stores = λ key fp r now s v _ _. memory_record-stores ttl key fp r now s;
}

module _ {B : Type 0} (pending_ttl ttl : ℕ) (key fp : String) (t : ℕ) (store : Store B) where
  abbrev gate : Gate (Response B)
  gate = admin_gate B pending_ttl ttl

  -- A request was told to proceed, and calls follow before its claim times out, none of which records
  -- a response under its key. Then until the claim times out a request with the same fingerprint is
  -- told that it is in progress, and one with another fingerprint that the key is taken.
  pub memory_one_worker :
      (calls : List (Call (Response B))) (fp' : String) (now : ℕ)
      → HasUniqueKeys store
      → (memory_begin pending_ttl key fp t store).0 ≡ proceed
      → All (Spares gate key (t + pending_ttl)) calls
      → now < t + pending_ttl
      → (memory_begin pending_ttl key fp' now
          (run gate (memory_begin pending_ttl key fp t store).1 calls)).0
        ≡ (if str_eq fp fp' then in_progress else payload_mismatch)
  memory_one_worker calls fp' now valid go spares soon =
      Traces.one_worker gate key fp t store valid go calls fp' now spares soon

  -- A request was told to proceed, and records its status and body while its claim lasts. Whatever
  -- calls come before and after, if none records under its key and all come in time, then until the
  -- entry times out a request with the same fingerprint is answered by that status and body, and one
  -- with another fingerprint is refused.
  memory_replays :
      (before after : List (Call (Response B))) (at : ℕ) (r : Response B) (fp' : String) (now : ℕ)
      → HasUniqueKeys store
      → (memory_begin pending_ttl key fp t store).0 ≡ proceed
      → All (Spares gate key (t + pending_ttl)) before
      → All (Spares gate key (at + ttl)) after
      → now < at + ttl
      → (memory_begin pending_ttl key fp' now (
          run gate
            (memory_record ttl key fp r at
              (run gate (memory_begin pending_ttl key fp t store).1 before))
            after)).0
        ≡ (if str_eq fp fp' then replay r else payload_mismatch)
  memory_replays before after at r fp' now valid go spares₁ spares₂ soon =
      Traces.replay_after_commit gate key fp t store valid go before after at r fp' now spares₁
        spares₂ soon
