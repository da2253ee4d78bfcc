-- ===== src/At/Idempotency/Laws.antt =====
-- app/api/v1/at/idempotency.py: what one call does to the entries, on every branch.
use ekaette.Prelude.{
  ℕ, String, ◌≡◌, ◌≢◌, inl, inr, Bool, false, Option, none, some, arith, eq_iff, ltb, if◌then◌else◌,
  Bool-cases, length,
}
use ekaette.Dict.{
  lookup, HasUniqueKeys, lookup-insert, lookup-prune, lookup_is, insert-HasUniqueKeys,
  erase_all-HasUniqueKeys, keys_where,
}
use ekaette.Gate.{Entry}
use ekaette.At.Idempotency.{Store, is_expired, claimed, prune_expired, answer, preflight, commit}

module _ {B : Type 0} where
  -- What pruning leaves of one key.
  abbrev pub kept : ℕ → Bool → Option (Entry B) → Option (Entry B)
  kept now pruned o = if pruned then (if lookup_is (is_expired now) o then none else o) else o

  pub lookup-prune_expired :
      (now : ℕ) (j : String) (store : Store B)
      → HasUniqueKeys store
      → lookup j (prune_expired now store) ≡ kept now (ltb 100 (length store)) (lookup j store)
  unfolding prune_expired
  lookup-prune_expired now j store h = elim (Bool-cases (ltb 100 (length store))) [
    | inl large ↦ rw large (lookup-prune (is_expired now) j store h)
    | inr small ↦ rw small
  ]

  pub prune_expired-HasUniqueKeys :
      (now : ℕ) (store : Store B) → HasUniqueKeys store → HasUniqueKeys (prune_expired now store)
  unfolding prune_expired
  prune_expired-HasUniqueKeys now store h =
      ground (arith, erase_all-HasUniqueKeys (keys_where (is_expired now) store) store h)

  -- An entry that has not expired survives every preflight, of its own key too.
  answer-keeps :
      (key j fp : String) (now : ℕ) (store : Store B) (v : Entry B)
      → lookup j store ≡ some v
      → is_expired now v ≡ false
      → lookup j (answer key fp now (lookup key store) store).1 ≡ some v
  unfolding answer
  answer-keeps key j fp now store v there live =
      ground (arith, lookup-insert key j (claimed fp now) store, eq_iff key j)

  pub preflight-keeps :
      (key j fp : String) (now : ℕ) (store : Store B) (v : Entry B)
      → HasUniqueKeys store
      → lookup j store ≡ some v
      → is_expired now v ≡ false
      → lookup j (preflight key fp now store).1 ≡ some v
  unfolding preflight
  preflight-keeps key j fp now store v unique there live =
      answer-keeps key j fp now (prune_expired now store) v
        (ground (arith, lookup-prune_expired now j store unique)) live

  answer-HasUniqueKeys :
      (key fp : String) (now : ℕ) (o : Option (Entry B)) (store : Store B)
      → HasUniqueKeys store
      → HasUniqueKeys (answer key fp now o store).1
  unfolding answer
  answer-HasUniqueKeys key fp now o store h =
      ground (arith, insert-HasUniqueKeys key (claimed fp now) store h)

  pub preflight-HasUniqueKeys :
      (key fp : String) (now : ℕ) (store : Store B)
      → HasUniqueKeys store
      → HasUniqueKeys (preflight key fp now store).1
  unfolding preflight
  preflight-HasUniqueKeys key fp now store h =
      answer-HasUniqueKeys key fp now (lookup key (prune_expired now store))
        (prune_expired now store) (prune_expired-HasUniqueKeys now store h)

  pub commit-HasUniqueKeys :
      (key : String) (body : B) (now : ℕ) (store : Store B)
      → HasUniqueKeys store
      → HasUniqueKeys (commit key body now store)
  unfolding commit
  commit-HasUniqueKeys key body now store h = insert-HasUniqueKeys key _ store h

  -- A commit leaves the other keys alone.
  pub commit-keeps :
      (key j : String) (body : B) (now : ℕ) (store : Store B)
      → key ≢ j
      → lookup j (commit key body now store) ≡ lookup j store
  unfolding commit
  commit-keeps key j body now store ne = rw lookup-insert (ground (arith, eq_iff key j))
