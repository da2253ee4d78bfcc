-- ===== src/Tools/Shipping/Lowest.antt =====
-- The quotes of app/tools/shipping_tools.py: the lowest of them, and what sorting keeps.
use ekaette.Prelude.{
  ℕ, ◌≡◌, refl, sym, ap, ◌∙◌, ◌⊎◌, inl, inr, Bool, true, false, some, List, [], ◌∷◌, arith,
  if◌then◌else◌, Bool-cases, get_elem?, All,
}
use ekaette.Tools.Shipping.Rates.{Quote}
use mathlib.Core.Path.{subst}
use ekaette.Tools.Shipping.Quotes.{lt_key, lower_of, min_of, insert_quote, sort_quotes}

abbrev pub Among : Quote → List Quote → Type 0
Among q [] = ⊥
Among q (r ∷ rs) = (q ≡ r) ⊎ Among q rs

irreflexive : (m : ℕ × ℕ) → lt_key m m ≡ false
irreflexive (a, b) = ground arith

asymmetric : (m r : ℕ × ℕ) → lt_key m r ≡ true → lt_key r m ≡ false
asymmetric (a, b) (c, d) h = ground (arith, h)

lt_key_trans : (m r q : ℕ × ℕ) → lt_key m r ≡ true → lt_key r q ≡ true → lt_key m q ≡ true
lt_key_trans (a, b) (c, d) (e, f) h k = ground (arith, h, k)

lt_key-back : (m r q : ℕ × ℕ) → lt_key m r ≡ false → lt_key r q ≡ false → lt_key m q ≡ false
lt_key-back (a, b) (c, d) (e, f) h k = ground (arith, h, k)

module _ (key : Quote → ℕ × ℕ) where
  -- Of three, in whichever order they are compared.
  lower_of_assoc :
      (m r q : Quote) → lower_of key m (lower_of key r q) ≡ lower_of key (lower_of key m r) q
  lower_of_assoc m r q =
      ground (arith, lt_key_trans (key m) (key r) (key q), lt_key-back (key m) (key r) (key q))

  min_of-cons :
      (q r : Quote) (rs : List Quote) → min_of key q (r ∷ rs) ≡ lower_of key (min_of key r rs) q
  unfolding min_of
  min_of-cons q r [] = refl
  min_of-cons q r (x ∷ xs) =
      min_of-cons (lower_of key r q) x xs
      ∙ lower_of_assoc (min_of key x xs) r q
      ∙ ap (λ m. lower_of key m q) (sym (min_of-cons r x xs))

  insert_quote-head :
      (q m : Quote) (rs : List Quote)
      → get_elem? rs 0 ≡ some m
      → get_elem? (insert_quote key q rs) 0 ≡ some (lower_of key m q)
  unfolding insert_quote
  insert_quote-head q m [] h = absurd (ground (arith, h))
  insert_quote-head q m (r ∷ rs) h = ground (arith, h)

  -- The first of the sorted quotes is the one that `min` gives.
  pub sort_quotes-head :
      (q : Quote) (qs : List Quote)
      → get_elem? (sort_quotes key (q ∷ qs)) 0 ≡ some (min_of key q qs)
  unfolding sort_quotes min_of
  sort_quotes-head q [] = refl
  sort_quotes-head q (r ∷ rs) =
      insert_quote-head q (min_of key r rs) (sort_quotes key (r ∷ rs)) (sort_quotes-head r rs)
      ∙ ap some (sym (min_of-cons q r rs))

  abbrev pub Lowest : Quote → Quote → Type 0
  Lowest m q = lt_key (key q) (key m) ≡ false

  Lowest-All :
      (m m' : Quote) (qs : List Quote)
      → lt_key (key m) (key m') ≡ false
      → All (Lowest m) qs
      → All (Lowest m') qs
  Lowest-All m m' [] h all = tt
  Lowest-All m m' (q ∷ qs) h (k, all) =
      (lt_key-back (key q) (key m) (key m') k h, Lowest-All m m' qs h all)

  lower_of-Lowest :
      (m q : Quote)
      → Lowest (lower_of key m q) q × (lt_key (key m) (key (lower_of key m q)) ≡ false)
  lower_of-Lowest m q = elim (Bool-cases (lt_key (key m) (key q))) [
    | inl below ↦ rw below (asymmetric (key m) (key q) below, irreflexive (key m))
    | inr above ↦ rw above (irreflexive (key q), above)
  ]

  pub min_of-Lowest : (q : Quote) (qs : List Quote) → All (Lowest (min_of key q qs)) (q ∷ qs)
  unfolding min_of
  min_of-Lowest q [] = (irreflexive (key q), tt)
  min_of-Lowest q (r ∷ rs) =
      let m = min_of key r rs in
      subst (λ m'. All (Lowest m') (q ∷ r ∷ rs)) (sym (min_of-cons q r rs))
        (
          (lower_of-Lowest m q).0,
          Lowest-All m (lower_of key m q) (r ∷ rs) (lower_of-Lowest m q).1 (min_of-Lowest r rs),
        )

  module _ (P : Quote → Type 0) where
    All-if : (b : Bool) (xs ys : List Quote) → All P xs → All P ys → All P (if b then xs else ys)
    All-if true xs ys h k = h
    All-if false xs ys h k = k

    insert_quote-All :
        (q : Quote) (qs : List Quote) → P q → All P qs → All P (insert_quote key q qs)
    unfolding insert_quote
    insert_quote-All q [] h all = (h, tt)
    insert_quote-All q (r ∷ rs) h (k, all) =
        All-if (lt_key (key r) (key q)) (r ∷ insert_quote key q rs) (q ∷ r ∷ rs)
          (k, insert_quote-All q rs h all) (h, (k, all))

    pub sort_quotes-All : (qs : List Quote) → All P qs → All P (sort_quotes key qs)
    unfolding sort_quotes
    sort_quotes-All [] all = tt
    sort_quotes-All (q ∷ qs) (h, all) =
        insert_quote-All q (sort_quotes key qs) h (sort_quotes-All qs all)

module _ (key : Quote → ℕ × ℕ) where
  insert_quote-Among :
      (x q : Quote) (qs : List Quote) → Among x (q ∷ qs) → Among x (insert_quote key q qs)
  unfolding insert_quote
  insert_quote-Among x q [] h = h
  insert_quote-Among x q (r ∷ rs) h = ground (arith, h, insert_quote-Among x q rs)

  pub sort_quotes-Among : (x : Quote) (qs : List Quote) → Among x qs → Among x (sort_quotes key qs)
  unfolding sort_quotes
  sort_quotes-Among x [] h = elim h [ ]
  sort_quotes-Among x (q ∷ qs) h =
      insert_quote-Among x q (sort_quotes key qs) (ground (arith, h, sort_quotes-Among x qs))

  choice-Among :
      (b : Bool) (x q r : Quote) (rs : List Quote)
      → Among x ((if b then r else q) ∷ rs)
      → Among x (q ∷ r ∷ rs)
  choice-Among true x q r rs h = inr h
  choice-Among false x q r rs (inl e) = inl e
  choice-Among false x q r rs (inr h) = inr (inr h)

  pub min_of-Among : (q : Quote) (qs : List Quote) → Among (min_of key q qs) (q ∷ qs)
  unfolding min_of
  min_of-Among q [] = inl refl
  min_of-Among q (r ∷ rs) =
      choice-Among (lt_key (key r) (key q)) (min_of key (lower_of key r q) rs) q r rs
        (min_of-Among (lower_of key r q) rs)
