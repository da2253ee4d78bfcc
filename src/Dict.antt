-- ===== src/Dict.antt =====
-- A Python dict with text keys, in insertion order.
pub mod Size
use ekaette.Prelude.{
  String, ◌≡◌, refl, Bool, false, ◌||◌, Option, none, some, List, [], ◌∷◌, arith, str_eq, eq_iff,
  if◌then◌else◌,
}

abbrev pub Dict {ℓ} : Type ℓ → Type ℓ
Dict V = List (String × V)

-- `k in keys`
abbrev pub key_in : String → List String → Bool
key_in k [] = false
key_in k (j ∷ js) = str_eq j k || key_in k js

module _ {ℓ} {V : Type ℓ} where
  -- `d.get(k)`
  unfoldable pub lookup : String → Dict V → Option V
  lookup k [] = none
  lookup k ((j, v) ∷ d) = if str_eq j k then some v else lookup k d

  -- `d[k] = v`
  unfoldable pub insert : String → V → Dict V → Dict V
  insert k v [] = (k, v) ∷ []
  insert k v ((j, w) ∷ d) = if str_eq j k then (j, v) ∷ d else (j, w) ∷ insert k v d

  -- `d.pop(k, None)`
  unfoldable pub erase : String → Dict V → Dict V
  erase k [] = []
  erase k ((j, w) ∷ d) = let rest = erase k d in if str_eq j k then rest else (j, w) ∷ rest

  -- `[k for k, v in d.items() if test(v)]`
  unfoldable pub keys_where : (V → Bool) → Dict V → List String
  keys_where test [] = []
  keys_where test ((j, w) ∷ d) = let rest = keys_where test d in if test w then j ∷ rest else rest

  -- `for k in keys: d.pop(k, None)`
  unfoldable pub erase_all : List String → Dict V → Dict V
  erase_all [] d = d
  erase_all (k ∷ ks) d = erase_all ks (erase k d)

  -- No key stands twice, as in every Python dict.
  abbrev pub HasUniqueKeys : Dict V → Type ℓ
  HasUniqueKeys [] = Unit
  HasUniqueKeys ((k, v) ∷ d) = (lookup k d ≡ none) × HasUniqueKeys d

  pub lookup-insert :
      (k j : String) (v : V) (d : Dict V)
      → lookup j (insert k v d) ≡ (if str_eq k j then some v else lookup j d)
  unfolding lookup insert
  lookup-insert k j v [] = refl
  lookup-insert k j v ((i, w) ∷ d) =
      ground (arith, eq_iff k j, eq_iff i k, eq_iff i j, lookup-insert k j v d)

  pub lookup-erase :
      (k j : String) (d : Dict V) → lookup j (erase k d) ≡ (if str_eq k j then none else lookup j d)
  unfolding lookup erase
  lookup-erase k j [] = ground arith
  lookup-erase k j ((i, w) ∷ d) =
      ground (arith, lookup-erase k j d, eq_iff i k, eq_iff i j, eq_iff k j)

  pub lookup-erase_all :
      (ks : List String) (j : String) (d : Dict V)
      → lookup j (erase_all ks d) ≡ (if key_in j ks then none else lookup j d)
  unfolding erase_all
  lookup-erase_all [] j d = refl
  lookup-erase_all (k ∷ ks) j d =
      ground (arith, lookup-erase_all ks j (erase k d), lookup-erase k j d)

  -- The keys that a comprehension collects, where no key stands twice.
  abbrev pub lookup_is : (V → Bool) → Option V → Bool
  lookup_is test none = false
  lookup_is test (some v) = test v

  keys_where-absent :
      (test : V → Bool) (j : String) (d : Dict V)
      → lookup j d ≡ none
      → key_in j (keys_where test d) ≡ false
  unfolding lookup keys_where
  keys_where-absent test j [] h = refl
  keys_where-absent test j ((i, w) ∷ d) h = ground (arith, keys_where-absent test j d)

  pub key_in-keys_where :
      (test : V → Bool) (j : String) (d : Dict V)
      → HasUniqueKeys d
      → key_in j (keys_where test d) ≡ lookup_is test (lookup j d)
  unfolding lookup keys_where
  key_in-keys_where test j [] h = refl
  key_in-keys_where test j ((i, w) ∷ d) h =
      ground (arith, key_in-keys_where test j d h.1, keys_where-absent test j d, eq_iff i j)

  pub insert-HasUniqueKeys :
      (k : String) (v : V) (d : Dict V) → HasUniqueKeys d → HasUniqueKeys (insert k v d)
  unfolding lookup insert
  insert-HasUniqueKeys k v [] h = (refl, tt)
  insert-HasUniqueKeys k v ((i, w) ∷ d) h =
      ground (arith, insert-HasUniqueKeys k v d h.1, lookup-insert k i v d, eq_iff i k, eq_iff k i)

  pub erase-HasUniqueKeys : (k : String) (d : Dict V) → HasUniqueKeys d → HasUniqueKeys (erase k d)
  unfolding lookup erase
  erase-HasUniqueKeys k [] h = tt
  erase-HasUniqueKeys k ((i, w) ∷ d) h =
      ground (arith, erase-HasUniqueKeys k d h.1, lookup-erase k i d)

  pub erase_all-HasUniqueKeys :
      (ks : List String) (d : Dict V) → HasUniqueKeys d → HasUniqueKeys (erase_all ks d)
  unfolding erase_all
  erase_all-HasUniqueKeys [] d h = h
  erase_all-HasUniqueKeys (k ∷ ks) d h =
      erase_all-HasUniqueKeys ks (erase k d) (erase-HasUniqueKeys k d h)

  -- Dropping the keys that a comprehension collects leaves the entries that fail its test.
  pub lookup-prune :
      (test : V → Bool) (j : String) (d : Dict V)
      → HasUniqueKeys d
      → lookup j (erase_all (keys_where test d) d)
        ≡ (if lookup_is test (lookup j d) then none else lookup j d)
  lookup-prune test j d h =
      rw (lookup-erase_all (keys_where test d) j d, key_in-keys_where test j d h)
