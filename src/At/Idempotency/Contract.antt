-- ===== src/At/Idempotency/Contract.antt =====
-- app/api/v1/at/idempotency.py keeps the contract of the idempotency stores.
use ekaette.Prelude.{
  ℕ, ◌+◌, ◌≤◌, String, ◌≡◌, refl, ap, ◌∙◌, Bool, false, Option, some, List, arith, str_eq, eq_iff,
  ltb, if◌then◌else◌, length, All,
}
use ekaette.Dict.{lookup, HasUniqueKeys, lookup-insert}
use ekaette.Gate.{
  State, pending, done, Entry, proceed, replay, payload_mismatch, in_progress, expected, Gate,
}
use ekaette.Gate.Traces
use ekaette.Gate.Traces.{Call, Spares, run}
use ekaette.At.Idempotency.{
  Store, is_expired, claimed, answer, preflight, commit, pending_ttl, idempotency_ttl,
}
use ekaette.At.Idempotency.Laws.{
  kept, lookup-prune_expired, preflight-keeps, preflight-HasUniqueKeys, commit-HasUniqueKeys,
  commit-keeps,
}

module _ {B : Type 0} where
  not_expired : (now : ℕ) (v : Entry B) → now ≤ v.expires_at → is_expired now v ≡ false
  not_expired now v h = ground arith

  kept_live :
      (now : ℕ) (pruned : Bool) (v : Entry B)
      → now ≤ v.expires_at
      → kept now pruned (some v) ≡ some v
  kept_live now pruned v h = ground arith

  answer-expected :
      (key fp : String) (now : ℕ) (store : Store B) (v : Entry B) (s : State B)
      → v.state ≡ s
      → now ≤ v.expires_at
      → (answer key fp now (some v) store).0 ≡ expected fp v s
  unfolding answer
  answer-expected key fp now store v pending e live = ground arith
  answer-expected key fp now store v (done body) e live = ground arith

  pub preflight-expected :
      (key fp : String) (now : ℕ) (store : Store B) (v : Entry B)
      → HasUniqueKeys store
      → lookup key store ≡ some v
      → now ≤ v.expires_at
      → (preflight key fp now store).0 ≡ expected fp v v.state
  unfolding preflight
  preflight-expected key fp now store v unique there live =
      rw
        (
          lookup-prune_expired now key store unique ∙ ap (kept now (ltb 100 (length store))) there,
          kept_live now (ltb 100 (length store)) v live,
        )
        (answer-expected key fp now _ v v.state refl live)

  answer-claims :
      (key fp : String) (now : ℕ) (o : Option (Entry B)) (store : Store B)
      → (answer key fp now o store).0 ≡ proceed
      → lookup key (answer key fp now o store).1 ≡ some (claimed fp now)
  unfolding answer
  answer-claims key fp now o store h =
      ground (arith, lookup-insert key key (claimed fp now) store, eq_iff key key)

  pub preflight-claims :
      (key fp : String) (now : ℕ) (store : Store B)
      → (preflight key fp now store).0 ≡ proceed
      → lookup key (preflight key fp now store).1 ≡ some (claimed fp now)
  unfolding preflight
  preflight-claims key fp now store h = answer-claims key fp now _ _ h

  pub live-keeps :
      (key j fp : String) (now : ℕ) (store : Store B) (v : Entry B)
      → HasUniqueKeys store
      → lookup j store ≡ some v
      → now ≤ v.expires_at
      → lookup j (preflight key fp now store).1 ≡ some v
  live-keeps key j fp now store v unique there live =
      preflight-keeps key j fp now store v unique there (not_expired now v live)

  pub commit-stores :
      (key fp : String) (body : B) (now : ℕ) (store : Store B) (v : Entry B)
      → lookup key store ≡ some v
      → v.fingerprint ≡ fp
      → lookup key (commit key body now store)
        ≡ some (record { fingerprint = fp; state = done body; expires_at = now + idempotency_ttl })
  unfolding commit
  commit-stores key fp body now store v there same =
      rw (there, lookup-insert, same) (ground (arith, eq_iff key key))

-- The fingerprint of a commit is the one that the store holds.
abbrev pub at_gate : (B : Type 0) → Gate B
at_gate B = record {
  Store = Store B;
  IsValid = HasUniqueKeys;
  find = lookup;
  pending_ttl = pending_ttl;
  done_ttl = idempotency_ttl;
  IsLive = λ now expires_at. now ≤ expires_at;
  begin = preflight;
  finish = λ key fp body now store. commit key body now store;
  begin-IsValid = preflight-HasUniqueKeys;
  finish-IsValid = λ key fp body now store. commit-HasUniqueKeys key body now store;
  begin_keeps = live-keeps;
  finish_keeps = λ key j fp body now store. commit-keeps key j body now store;
  begin_live = preflight-expected;
  begin_claims = preflight-claims;
  finish_stores = commit-stores;
}

module _ {B : Type 0} (key fp : String) (t : ℕ) (store : Store B) where
  -- A request was told to proceed, and calls follow, at times up to the end of its claim (30 s), none
  -- of which commits its key. Then nobody else is told to proceed until the claim ends: the same
  -- fingerprint is told that the request is in progress, another that the key is taken.
  pub one_worker :
      (calls : List (Call B)) (fp' : String) (now : ℕ)
      → HasUniqueKeys store
      → (preflight key fp t store).0 ≡ proceed
      → All (Spares (at_gate B) key (t + pending_ttl)) calls
      → now ≤ t + pending_ttl
      → (preflight key fp' now (run (at_gate B) (preflight key fp t store).1 calls)).0
        ≡ (if str_eq fp fp' then in_progress else payload_mismatch)
  one_worker calls fp' now valid go spares soon =
      Traces.one_worker (at_gate B) key fp t store valid go calls fp' now spares soon

  -- A request was told to proceed, and commits its body while its claim lasts. Whatever calls come
  -- before (up to the end of the claim) and after (up to an hour after the commit), if none of them
  -- commits its key, then up to an hour after the commit a preflight with the same fingerprint is
  -- answered by that body, and one with another fingerprint is refused.
  pub replay_after_commit :
      (before after : List (Call B)) (at : ℕ) (body : B) (fp' : String) (now : ℕ)
      → HasUniqueKeys store
      → (preflight key fp t store).0 ≡ proceed
      → All (Spares (at_gate B) key (t + pending_ttl)) before
      → All (Spares (at_gate B) key (at + idempotency_ttl)) after
      → now ≤ at + idempotency_ttl
      → (preflight key fp' now (
          run
            (at_gate B)
            (commit key body at (run (at_gate B) (preflight key fp t store).1 before))
            after)).0
        ≡ (if str_eq fp fp' then replay body else payload_mismatch)
  replay_after_commit before after at body fp' now valid go spares₁ spares₂ soon =
      Traces.replay_after_commit (at_gate B) key fp t store valid go before after at body fp' now
        spares₁ spares₂ soon
