-- ===== src/Admin/Idempotency/Memory.antt =====
-- The in-memory store of app/api/v1/admin/idempotency.py keeps the contract of the idempotency
-- stores.
use ekaette.Prelude.{
  ℕ, ◌+◌, ◌<◌, String, ◌≡◌, refl, ap, ◌∙◌, ◌≢◌, Option, none, some, arith, eq_iff, if◌then◌else◌,
}
use ekaette.Dict.{
  lookup, HasUniqueKeys, lookup-insert, lookup-prune, lookup_is, insert-HasUniqueKeys,
  erase_all-HasUniqueKeys, keys_where,
}
use ekaette.Gate.{State, pending, done, Entry, proceed, expected}
use ekaette.Admin.Idempotency.{
  Response, Store, is_expired, prune, claimed, answer, memory_begin, memory_record,
}

module _ {B : Type 0} where
  abbrev kept : ℕ → Option (Entry (Response B)) → Option (Entry (Response B))
  kept now o = if lookup_is (is_expired now) o then none else o

  lookup-kept :
      (now : ℕ) (j : String) (store : Store B)
      → HasUniqueKeys store
      → lookup j (prune now store) ≡ kept now (lookup j store)
  unfolding prune
  lookup-kept now j store h = lookup-prune (is_expired now) j store h

  pub prune-HasUniqueKeys :
      (now : ℕ) (store : Store B) → HasUniqueKeys store → HasUniqueKeys (prune now store)
  unfolding prune
  prune-HasUniqueKeys now store h =
      erase_all-HasUniqueKeys (keys_where (is_expired now) store) store h

  kept_live : (now : ℕ) (v : Entry (Response B)) → now < v.expires_at → kept now (some v) ≡ some v
  kept_live now v h = ground arith

  answer-HasUniqueKeys :
      (pending_ttl : ℕ) (key fp : String) (now : ℕ) (o : Option (Entry (Response B)))
      (store : Store B)
      → HasUniqueKeys store
      → HasUniqueKeys (answer pending_ttl key fp now o store).1
  unfolding answer
  answer-HasUniqueKeys pending_ttl key fp now o store h =
      ground (arith, insert-HasUniqueKeys key (claimed pending_ttl fp now) store h)

  pub memory_begin-HasUniqueKeys :
      (pending_ttl : ℕ) (key fp : String) (now : ℕ) (store : Store B)
      → HasUniqueKeys store
      → HasUniqueKeys (memory_begin pending_ttl key fp now store).1
  unfolding memory_begin
  memory_begin-HasUniqueKeys pending_ttl key fp now store h =
      answer-HasUniqueKeys pending_ttl key fp now (lookup key (prune now store)) (prune now store)
        (prune-HasUniqueKeys now store h)

  answer-keeps :
      (pending_ttl : ℕ) (key j fp : String) (now : ℕ) (store : Store B) (v : Entry (Response B))
      → lookup j store ≡ some v
      → lookup j (answer pending_ttl key fp now (lookup key store) store).1 ≡ some v
  unfolding answer
  answer-keeps pending_ttl key j fp now store v there =
      ground (arith, lookup-insert key j (claimed pending_ttl fp now) store, eq_iff key j)

  pub memory_begin-keeps :
      (pending_ttl : ℕ) (key j fp : String) (now : ℕ) (store : Store B) (v : Entry (Response B))
      → HasUniqueKeys store
      → lookup j store ≡ some v
      → now < v.expires_at
      → lookup j (memory_begin pending_ttl key fp now store).1 ≡ some v
  unfolding memory_begin
  memory_begin-keeps pending_ttl key j fp now store v h there live =
      answer-keeps pending_ttl key j fp now (prune now store) v
        (lookup-kept now j store h ∙ (ap (kept now) there ∙ kept_live now v live))

  answer-expected :
      (pending_ttl : ℕ) (key fp : String) (now : ℕ) (store : Store B) (v : Entry (Response B))
      (s : State (Response B))
      → v.state ≡ s
      → (answer pending_ttl key fp now (some v) store).0 ≡ expected fp v s
  unfolding answer
  answer-expected pending_ttl key fp now store v pending e = ground arith
  answer-expected pending_ttl key fp now store v (done r) e = ground arith

  pub memory_begin-expected :
      (pending_ttl : ℕ) (key fp : String) (now : ℕ) (store : Store B) (v : Entry (Response B))
      → HasUniqueKeys store
      → lookup key store ≡ some v
      → now < v.expires_at
      → (memory_begin pending_ttl key fp now store).0 ≡ expected fp v v.state
  unfolding memory_begin
  memory_begin-expected pending_ttl key fp now store v h there live =
      let e = lookup-kept now key store h ∙ (ap (kept now) there ∙ kept_live now v live) in
      rw e (answer-expected pending_ttl key fp now (prune now store) v v.state refl)

  answer-claims :
      (pending_ttl : ℕ) (key fp : String) (now : ℕ) (o : Option (Entry (Response B)))
      (store : Store B)
      → (answer pending_ttl key fp now o store).0 ≡ proceed
      → lookup key (answer pending_ttl key fp now o store).1 ≡ some (claimed pending_ttl fp now)
  unfolding answer
  answer-claims pending_ttl key fp now o store h =
      ground (arith, lookup-insert key key (claimed pending_ttl fp now) store, eq_iff key key)

  pub memory_begin-claims :
      (pending_ttl : ℕ) (key fp : String) (now : ℕ) (store : Store B)
      → (memory_begin pending_ttl key fp now store).0 ≡ proceed
      → lookup key (memory_begin pending_ttl key fp now store).1 ≡ some (claimed pending_ttl fp now)
  unfolding memory_begin
  memory_begin-claims pending_ttl key fp now store h =
      answer-claims pending_ttl key fp now (lookup key (prune now store)) (prune now store) h

  pub memory_record-keeps :
      (ttl : ℕ) (key j fp : String) (r : Response B) (now : ℕ) (store : Store B)
      → key ≢ j
      → lookup j (memory_record ttl key fp r now store) ≡ lookup j store
  unfolding memory_record
  memory_record-keeps ttl key j fp r now store ne = rw lookup-insert (ground (arith, eq_iff key j))

  pub memory_record-HasUniqueKeys :
      (ttl : ℕ) (key fp : String) (r : Response B) (now : ℕ) (store : Store B)
      → HasUniqueKeys store
      → HasUniqueKeys (memory_record ttl key fp r now store)
  unfolding memory_record
  memory_record-HasUniqueKeys ttl key fp r now store h = insert-HasUniqueKeys key _ store h

  pub memory_record-stores :
      (ttl : ℕ) (key fp : String) (r : Response B) (now : ℕ) (store : Store B)
      → lookup key (memory_record ttl key fp r now store)
        ≡ some (record { fingerprint = fp; state = done r; expires_at = now + ttl })
  unfolding memory_record
  memory_record-stores ttl key fp r now store = rw lookup-insert (ground (arith, eq_iff key key))
