-- ===== src/Admin/Connectors/Lock.antt =====
-- Who holds a connector's lock in app/api/v1/admin/policy.py.
use ekaette.Prelude.{
  ℕ, ◌+◌, ◌<◌, String, ◌≡◌, refl, true, false, Option, none, some, List, [], ◌∷◌, arith, str_eq,
  eq_iff, eq_refl, All,
}
use ekaette.Dict.{
  lookup, erase, lookup-insert, lookup-erase, lookup-prune, HasUniqueKeys, insert-HasUniqueKeys,
  erase-HasUniqueKeys, erase_all-HasUniqueKeys, keys_where,
}
use ekaette.Admin.Connectors.{
  Locks, has_ended, take_lock, acquire_connector_lock, release_connector_lock, erase_all,
}

-- A call by some worker, at a time.
pub data LockCall : Type 0 where
  acquire : String → ℕ → LockCall
  release : String → LockCall

module _ (ttl : ℕ) where
  unfoldable pub lock_step : LockCall → Locks → Locks
  lock_step (acquire key now) locks = (acquire_connector_lock ttl key now locks).1
  lock_step (release key) locks = release_connector_lock key locks

  pub lock_run : List LockCall → Locks → Locks
  unfolding lock_step
  lock_run [] locks = locks
  lock_run (call ∷ calls) locks = lock_run calls (lock_step call locks)

  -- Calls up to a time that do not release a key.
  abbrev pub Respects : String → ℕ → LockCall → Type 0
  Respects key until (acquire k now) = now < until
  Respects key until (release k) = str_eq k key ≡ false

  take_lock-keeps :
      (key k : String) (now expiry : ℕ) (o : Option ℕ) (locks : Locks)
      → lookup k locks ≡ o
      → lookup key locks ≡ some expiry
      → lookup key (take_lock ttl k now o locks).1 ≡ some expiry
  unfolding take_lock
  take_lock-keeps key k now expiry none locks e there =
      ground (arith, lookup-insert k key (now + ttl) locks, eq_iff k key)
  take_lock-keeps key k now expiry (some u) locks e there = there

  held :
      (key : String) (now expiry : ℕ) (locks : Locks)
      → HasUniqueKeys locks
      → lookup key locks ≡ some expiry
      → now < expiry
      → lookup key (erase_all (keys_where (has_ended now) locks) locks) ≡ some expiry
  held key now expiry locks unique there live =
      ground (arith, lookup-prune (has_ended now) key locks unique)

  take_lock-HasUniqueKeys :
      (k : String) (now : ℕ) (o : Option ℕ) (locks : Locks)
      → HasUniqueKeys locks
      → HasUniqueKeys (take_lock ttl k now o locks).1
  unfolding take_lock
  take_lock-HasUniqueKeys k now none locks h = insert-HasUniqueKeys k (now + ttl) locks h
  take_lock-HasUniqueKeys k now (some u) locks h = h

  acquire-HasUniqueKeys :
      (k : String) (now : ℕ) (locks : Locks)
      → HasUniqueKeys locks
      → HasUniqueKeys (acquire_connector_lock ttl k now locks).1
  unfolding acquire_connector_lock
  acquire-HasUniqueKeys k now locks h =
      take_lock-HasUniqueKeys k now _ _
        (erase_all-HasUniqueKeys (keys_where (has_ended now) locks) locks h)

  acquire-keeps :
      (key k : String) (now expiry : ℕ) (locks : Locks)
      → HasUniqueKeys locks
      → lookup key locks ≡ some expiry
      → now < expiry
      → lookup key (acquire_connector_lock ttl k now locks).1 ≡ some expiry
  unfolding acquire_connector_lock
  acquire-keeps key k now expiry locks unique there live =
      take_lock-keeps key k now expiry _ _ refl (held key now expiry locks unique there live)

  run-keeps :
      (key : String) (expiry : ℕ) (calls : List LockCall) (locks : Locks)
      → HasUniqueKeys locks
      → lookup key locks ≡ some expiry
      → All (Respects key expiry) calls
      → (lookup key (lock_run calls locks) ≡ some expiry) × HasUniqueKeys (lock_run calls locks)
  unfolding lock_run lock_step release_connector_lock
  run-keeps key expiry [] locks unique there ok = (there, unique)
  run-keeps key expiry (acquire k now ∷ calls) locks unique there ok =
      run-keeps key expiry calls (acquire_connector_lock ttl k now locks).1
        (acquire-HasUniqueKeys k now locks unique)
        (acquire-keeps key k now expiry locks unique there ok.0) ok.1
  run-keeps key expiry (release k ∷ calls) locks unique there ok =
      run-keeps key expiry calls (erase k locks) (erase-HasUniqueKeys k locks unique)
        (ground (arith, lookup-erase k key locks, ok.0)) ok.1

  take_lock-taken :
      (key : String) (now : ℕ) (o : Option ℕ) (locks : Locks)
      → (take_lock ttl key now o locks).0 ≡ true
      → lookup key (take_lock ttl key now o locks).1 ≡ some (now + ttl)
  unfolding take_lock
  take_lock-taken key now none locks h =
      ground (arith, lookup-insert key key (now + ttl) locks, eq_refl key)
  take_lock-taken key now (some u) locks h = cc

  refused :
      (key : String) (now expiry : ℕ) (locks : Locks)
      → HasUniqueKeys locks
      → lookup key locks ≡ some expiry
      → now < expiry
      → (acquire_connector_lock ttl key now locks).0 ≡ false
  unfolding acquire_connector_lock take_lock
  refused key now expiry locks unique there live =
      rw (acquire_connector_lock, held key now expiry locks unique there live, take_lock) refl

  -- Once a lock is acquired nobody acquires it again before its time is over, whatever calls come in
  -- between, unless the key is released.
  pub lock_excludes :
      (key : String) (t now : ℕ) (calls : List LockCall) (locks : Locks)
      → HasUniqueKeys locks
      → (acquire_connector_lock ttl key t locks).0 ≡ true
      → All (Respects key (t + ttl)) calls
      → now < t + ttl
      → (acquire_connector_lock ttl key now
          (lock_run calls (acquire_connector_lock ttl key t locks).1)).0
        ≡ false
  unfolding acquire_connector_lock
  lock_excludes key t now calls locks unique took ok soon =
      let there = take_lock-taken key t _ _ took in
      let (still, unique') =
        run-keeps key (t + ttl) calls (acquire_connector_lock ttl key t locks).1
          (acquire-HasUniqueKeys key t locks unique) there ok in
      refused key now (t + ttl) _ unique' still soon
