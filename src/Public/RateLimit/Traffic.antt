-- ===== src/Public/RateLimit/Traffic.antt =====
-- Requests over time through the rate limit of app/api/v1/public/core_helpers.py.
use ekaette.Prelude.{
  ℕ, ◌+◌, ◌≤◌, String, ◌≡◌, refl, inl, inr, Bool, true, List, [], ◌∷◌, arith, leb, Bool-cases,
  length, All, colon,
}
use ekaette.Dict.{lookup, key_in}
use ekaette.Public.RateLimit.{values_or_empty, Buckets, prune, check_rate_limit}
use ekaette.Public.RateLimit.Refinement.{
  History, spec_check, Agrees, Answers, prune-Agrees, check_bucket-Agrees,
}

-- A request: the client, the bucket and the time.
pub record Visit : Type 0 where
  pub client_ip : String
  pub bucket : String
  pub at : ℕ

abbrev pub key_of : Visit → String
key_of v = colon v.bucket v.client_ip

-- The clock does not go back.
abbrev pub IsOrdered : ℕ → List Visit → Type 0
IsOrdered from [] = Unit
IsOrdered from (v ∷ visits) = (from ≤ v.at) × IsOrdered v.at visits

All-later :
    (now later : ℕ) (ts : List ℕ) → now ≤ later → All (λ t. t ≤ now) ts → All (λ t. t ≤ later) ts
All-later now later [] le h = tt
All-later now later (t ∷ ts) le h = (omega arith, All-later now later ts le h.1)

later-Agrees :
    (window : ℕ) (clients : List String) (now later : ℕ) (buckets : Buckets) (history : History)
    → now ≤ later
    → Agrees window clients now buckets history
    → Agrees window clients later buckets history
later-Agrees window clients now later buckets history le h = record {
  unique = h.unique;
  among = h.among;
  sorted = h.sorted;
  past = λ j. All-later now later (values_or_empty (lookup j buckets)) le (h.past j);
  same = λ j t more. h.same j t (omega arith);
}

module _ (limit window max_buckets : ℕ) where
  pub decisions : List Visit → Buckets → ℕ → List Bool
  decisions [] buckets pruned = []
  decisions (v ∷ visits) buckets pruned =
      let (allowed, buckets', pruned') =
        check_rate_limit v.client_ip v.bucket limit window max_buckets v.at buckets pruned in
      allowed ∷ decisions visits buckets' pruned'

  check_rate_limit-Agrees :
      (clients : List String) (v : Visit) (buckets : Buckets) (pruned : ℕ) (history : History)
      → Agrees window clients v.at buckets history
      → key_in (key_of v) clients ≡ true
      → length clients ≤ max_buckets
      → let r =
          check_rate_limit v.client_ip v.bucket limit window max_buckets v.at buckets pruned in
        Answers window clients v.at (r.0, r.1) (spec_check limit window v.at (key_of v) history)
  unfolding check_rate_limit
  check_rate_limit-Agrees clients v buckets pruned history h known few =
      elim (Bool-cases (leb (pruned + window) v.at)) [
        | inl due ↦ rw due (
            check_bucket-Agrees window clients limit max_buckets v.at (key_of v)
              (prune window v.at buckets) history
              (prune-Agrees window clients v.at buckets history h) known few)
        | inr not_yet ↦ rw not_yet (
            check_bucket-Agrees window clients limit max_buckets v.at (key_of v) buckets history h
              known few)
      ]

module _ (limit window : ℕ) where
  unfoldable pub spec_decisions : List Visit → History → List Bool
  unfolding spec_check
  spec_decisions [] history = []
  spec_decisions (v ∷ visits) history =
      let (allowed, history') = spec_check limit window v.at (key_of v) history in
      allowed ∷ spec_decisions visits history'

module _ (limit window max_buckets : ℕ) where
  decisions-Agrees :
      (clients : List String) (visits : List Visit) (now : ℕ) (buckets : Buckets) (pruned : ℕ)
      (history : History)
      → IsOrdered now visits
      → All (λ v. key_in (key_of v) clients ≡ true) visits
      → length clients ≤ max_buckets
      → Agrees window clients now buckets history
      → decisions limit window max_buckets visits buckets pruned
        ≡ spec_decisions limit window visits history
  unfolding decisions spec_decisions Answers
  decisions-Agrees clients [] now buckets pruned history ordered known few h = refl
  decisions-Agrees clients (v ∷ visits) now buckets pruned history ordered known few h =
      let (same, after) =
        check_rate_limit-Agrees limit window max_buckets clients v buckets pruned history
          (later-Agrees window clients now v.at buckets history ordered.0 h) known.0 few in
      cc (same, decisions-Agrees clients visits v.at _ _ _ ordered.1 known.1 few after)

  -- Requests in the order of their times, from a fresh start, of at most `max_buckets` pairs of bucket
  -- and client: each is allowed exactly when fewer than `limit` requests of its bucket and client were
  -- allowed in the window before it. Neither pruning nor the cap on buckets is seen.
  pub decisions-eq-spec :
      (clients : List String) (visits : List Visit) (last_global_prune : ℕ)
      → IsOrdered 0 visits
      → All (λ v. key_in (key_of v) clients ≡ true) visits
      → length clients ≤ max_buckets
      → decisions limit window max_buckets visits [] last_global_prune
        ≡ spec_decisions limit window visits (λ j. [])
  decisions-eq-spec clients visits last_global_prune ordered known few =
      decisions-Agrees clients visits 0 [] last_global_prune (λ j. []) ordered known few
        (record {
          unique = tt;
          among = λ j there. unfold lookup in cc;
          sorted = λ j. unfold lookup in tt;
          past = λ j. unfold lookup in tt;
          same = λ j later le. unfold lookup in refl;
        })
