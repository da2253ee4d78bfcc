-- ===== src/Dict/Size.antt =====
-- How many entries a dict has whose keys are known.
use ekaette.Prelude.{
  suc, ◌≤◌, ◌<◌, String, ◌≡◌, refl, Bool, true, false, Option, none, some, List, [], ◌∷◌, arith,
  str_eq, eq_iff, if◌then◌else◌, length,
}
use ekaette.Dict.{Dict, key_in, lookup, insert, HasUniqueKeys}

without : String → List String → List String
without k [] = []
without k (j ∷ js) = let rest = without k js in if str_eq k j then rest else j ∷ rest

length-without-le : (k : String) (ks : List String) → length (without k ks) ≤ length ks
unfolding without
length-without-le k [] = omega arith
length-without-le k (j ∷ js) = ground (arith, length-without-le k js)

length-without :
    (k : String) (ks : List String) → key_in k ks ≡ true → length (without k ks) < length ks
unfolding without
length-without k [] h = cc
length-without k (j ∷ js) h =
    ground (arith, length-without k js, length-without-le k js, eq_iff k j, eq_iff j k)

key_in-without :
    (k j : String) (ks : List String) → str_eq k j ≡ false → key_in j (without k ks) ≡ key_in j ks
unfolding without
key_in-without k j [] h = refl
key_in-without k j (i ∷ is) h =
    ground
      (arith, key_in-without k j is, eq_iff k i, eq_iff i k, eq_iff k j, eq_iff i j, eq_iff j i)

module _ {ℓ} {V : Type ℓ} where
  abbrev pub is_there : Option V → Bool
  is_there none = false
  is_there (some v) = true

  -- Every key is one of a list.
  abbrev pub KeysAmong : List String → Dict V → Type 0
  KeysAmong ks d = (j : String) → is_there (lookup j d) ≡ true → key_in j ks ≡ true

  rest_among :
      (ks : List String) (k : String) (v : V) (d : Dict V) (j : String)
      → HasUniqueKeys ((k, v) ∷ d)
      → KeysAmong ks ((k, v) ∷ d)
      → is_there (lookup j d) ≡ true
      → key_in j (without k ks) ≡ true
  unfolding lookup
  rest_among ks k v d j unique among h =
      ground (arith, among j, key_in-without k j ks, eq_iff k j, unique.0)

  -- A dict has at most as many entries as there are keys for it.
  pub length-le_keys :
      (ks : List String) (d : Dict V) → HasUniqueKeys d → KeysAmong ks d → length d ≤ length ks
  unfolding lookup
  length-le_keys ks [] unique among = omega arith
  length-le_keys ks ((k, v) ∷ d) unique among =
      let smaller = length-without k ks (among k (ground (arith, eq_iff k k))) in
      let rest =
        length-le_keys (without k ks) d unique.1 (λ j h. rest_among ks k v d j unique among h) in
      omega (arith, smaller, rest)

  pub length-insert :
      (k : String) (v : V) (d : Dict V) → lookup k d ≡ none → length (insert k v d) ≡ suc (length d)
  unfolding lookup insert
  length-insert k v [] h = refl
  length-insert k v ((j, w) ∷ d) h = ground (arith, length-insert k v d)

  pub length-insert-le : (k : String) (v : V) (d : Dict V) → length (insert k v d) ≤ suc (length d)
  unfolding insert
  length-insert-le k v [] = omega arith
  length-insert-le k v ((j, w) ∷ d) = ground (arith, length-insert-le k v d)
