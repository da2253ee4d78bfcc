-- ===== src/At/ServiceAuth/Nonces.antt =====
-- The two tables of nonces of app/api/v1/at/wa_security.py.
use ekaette.Prelude.{
  ℕ, String, ◌≡◌, refl, inl, inr, Bool, true, false, ◌&&◌, not, Option, none, some, List, [], ◌∷◌,
  arith, str_eq, eq_iff, if◌then◌else◌, Bool-cases,
}
use ekaette.Dict.{
  lookup, key_in, lookup-insert, key_in-keys_where, lookup-prune, HasUniqueKeys,
  insert-HasUniqueKeys, erase_all-HasUniqueKeys, keys_where,
}
use ekaette.At.ServiceAuth.{
  NonceStore, is_expired, discard, discard_all, prune_nonces, use_nonce, check_nonce,
}

abbrev pub is_some : Option ℕ → Bool
is_some none = false
is_some (some ts) = true

-- Both tables hold the same nonces.
pub record IsSynced (store : NonceStore) : Type 0 where
  pub unique : HasUniqueKeys store.timestamps
  pub same : (n : String) → key_in n store.nonces ≡ is_some (lookup n store.timestamps)

key_in-discard :
    (n j : String) (nonces : List String)
    → key_in j (discard n nonces) ≡ (if str_eq n j then false else key_in j nonces)
unfolding discard
key_in-discard n j [] = ground arith
key_in-discard n j (m ∷ ms) =
    ground (arith, key_in-discard n j ms, eq_iff n m, eq_iff j m, eq_iff n j, eq_iff m j)

key_in-discard_all :
    (ns : List String) (j : String) (nonces : List String)
    → key_in j (discard_all ns nonces) ≡ (if key_in j ns then false else key_in j nonces)
unfolding discard_all
key_in-discard_all [] j nonces = refl
key_in-discard_all (n ∷ ns) j nonces = ground (
  arith,
  key_in-discard_all ns j (discard n nonces),
  key_in-discard n j nonces,
  eq_iff n j,
  eq_iff j n,
)

abbrev pub kept : ℕ → Option ℕ → Option ℕ
kept now none = none
kept now (some ts) = if is_expired now ts then none else some ts

lookup-prune_nonces :
    (now : ℕ) (store : NonceStore) (j : String)
    → IsSynced store
    → lookup j (prune_nonces now store).timestamps ≡ kept now (lookup j store.timestamps)
unfolding prune_nonces
lookup-prune_nonces now store j s =
    ground (arith, lookup-prune (is_expired now) j store.timestamps s.unique)

prune_nonces-IsSynced :
    (now : ℕ) (store : NonceStore) → IsSynced store → IsSynced (prune_nonces now store)
unfolding prune_nonces
prune_nonces-IsSynced now store s =
    let expired = keys_where (is_expired now) store.timestamps in
    record {
      unique = erase_all-HasUniqueKeys expired store.timestamps s.unique;
      same = λ n. ground (
        arith,
        key_in-discard_all expired n store.nonces,
        lookup-prune (is_expired now) n store.timestamps s.unique,
        key_in-keys_where (is_expired now) n store.timestamps s.unique,
        s.same n,
      );
    }

use_nonce-IsSynced :
    (nonce : String) (now : ℕ) (store : NonceStore)
    → IsSynced store
    → IsSynced (use_nonce nonce now store).1
unfolding use_nonce
use_nonce-IsSynced nonce now store s = elim (Bool-cases (key_in nonce store.nonces)) [
  | inl used ↦ rw used s
  | inr fresh ↦ rw fresh (record {
    unique = insert-HasUniqueKeys nonce now store.timestamps s.unique;
    same = λ n. ground (
      arith,
      lookup-insert nonce n now store.timestamps,
      s.same n,
      eq_iff n nonce,
      eq_iff nonce n,
    );
  })
]

pub check_nonce-IsSynced :
    (nonce : String) (now : ℕ) (store : NonceStore)
    → IsSynced store
    → IsSynced (check_nonce nonce now store).1
unfolding check_nonce
check_nonce-IsSynced nonce now store s =
    use_nonce-IsSynced nonce now (prune_nonces now store) (prune_nonces-IsSynced now store s)

-- The answer is whether the nonce is unknown or has expired.
pub check_nonce_answer :
    (nonce : String) (now : ℕ) (store : NonceStore)
    → IsSynced store
    → (check_nonce nonce now store).0 ≡ not (is_some (kept now (lookup nonce store.timestamps)))
unfolding check_nonce use_nonce
check_nonce_answer nonce now store s =
    ground
      (arith, (prune_nonces-IsSynced now store s).same nonce, lookup-prune_nonces now store nonce s)

-- What the call leaves at each nonce.
pub check_nonce_entry :
    (nonce j : String) (now : ℕ) (store : NonceStore)
    → IsSynced store
    → lookup j (check_nonce nonce now store).1.timestamps ≡ (
        if (check_nonce nonce now store).0 && str_eq nonce j
        then some now
        else kept now (lookup j store.timestamps))
unfolding check_nonce use_nonce
check_nonce_entry nonce j now store s = ground (
  arith,
  lookup-prune_nonces now store j s,
  lookup-insert nonce j now (prune_nonces now store).timestamps,
)
