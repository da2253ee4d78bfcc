-- ===== src/At/Idempotency/Expiry.antt =====
-- app/api/v1/at/idempotency.py: entries that have expired, and commits that find no entry.
use ekaette.Prelude.{
  ℕ, ◌+◌, ◌≤◌, ◌<◌, String, ◌≡◌, refl, ap, ◌∙◌, ◌≢◌, Bool, true, false, none, some, arith, str_eq,
  eq_iff, ltb, if◌then◌else◌, length,
}
use ekaette.Dict.{lookup, HasUniqueKeys, lookup-insert}
use ekaette.Gate.{State, pending, done, Entry, Outcome, proceed, replay, payload_mismatch}
use ekaette.At.Idempotency.{Store, answer, preflight, commit, idempotency_ttl, prune_expired}
use ekaette.At.Idempotency.Laws.{kept, lookup-prune_expired}
use ekaette.At.Idempotency.Contract.{preflight-expected}

module _ {B : Type 0} where
  -- The answer when the expired entry is still there.
  abbrev pub expired_answer : String → Entry B → State B → Outcome B
  expired_answer fp v pending = if str_eq v.fingerprint fp then proceed else payload_mismatch
  expired_answer fp v (done body) =
      if str_eq v.fingerprint fp then replay body else payload_mismatch

  answer-expired :
      (key fp : String) (now : ℕ) (store : Store B) (v : Entry B) (s : State B)
      → v.state ≡ s
      → v.expires_at < now
      → (answer key fp now (some v) store).0 ≡ expired_answer fp v s
  unfolding answer
  answer-expired key fp now store v pending e late = ground arith
  answer-expired key fp now store v (done body) e late = ground arith

  answer-kept_expired :
      (key fp : String) (now : ℕ) (pruned : Bool) (store : Store B) (v : Entry B)
      → v.expires_at < now
      → (answer key fp now (kept now pruned (some v)) store).0
        ≡ (if pruned then proceed else expired_answer fp v v.state)
  answer-kept_expired key fp now true store v late =
      let gone : kept now true (some v) ≡ none = ground arith in rw gone (unfold answer in refl)
  answer-kept_expired key fp now false store v late =
      answer-expired key fp now store v v.state refl late

  -- An expired entry is dropped only in a store of more than 100 entries, and then the request may
  -- proceed. In a smaller store a stale claim is taken over by the same payload, and a finished
  -- entry is still replayed, however old it is; another payload is refused in both cases.
  expired_entry :
      (key fp : String) (now : ℕ) (store : Store B) (v : Entry B)
      → HasUniqueKeys store
      → lookup key store ≡ some v
      → v.expires_at < now
      → (preflight key fp now store).0
        ≡ (if ltb 100 (length store) then proceed else expired_answer fp v v.state)
  unfolding preflight
  expired_entry key fp now store v unique there late =
      let pruned = ltb 100 (length store) in
      let e = lookup-prune_expired now key store unique ∙ ap (kept now pruned) there in
      rw e (answer-kept_expired key fp now pruned (prune_expired now store) v late)

  -- A commit whose claim has been dropped stores the empty fingerprint. For the lifetime of that
  -- entry every preflight of the key, the same request's retry included, is refused as a reuse with
  -- a different payload, unless its own fingerprint is empty.
  pub orphan_commit :
      (key fp : String) (body : B) (at now : ℕ) (store : Store B)
      → HasUniqueKeys (commit key body at store)
      → lookup key store ≡ none
      → now ≤ at + idempotency_ttl
      → fp ≢ ""
      → (preflight key fp now (commit key body at store)).0 ≡ payload_mismatch
  orphan_commit key fp body at now store unique gone soon real =
      preflight-expected key fp now (commit key body at store) orphan unique stored soon ∙ refused
    where
      orphan : Entry B
      orphan = record { fingerprint = ""; state = done body; expires_at = at + idempotency_ttl }

      stored : lookup key (commit key body at store) ≡ some orphan
      stored = unfold commit in rw (gone, lookup-insert) (ground (arith, eq_iff key key))

      refused : (if str_eq "" fp then replay body else payload_mismatch) ≡ payload_mismatch
      refused = ground (arith, eq_iff "" fp)
