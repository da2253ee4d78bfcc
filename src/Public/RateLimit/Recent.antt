-- ===== src/Public/RateLimit/Recent.antt =====
-- The times of a bucket of app/api/v1/public/core_helpers.py that lie in the window.
use ekaette.Prelude.{
  ℕ, ◌+◌, ◌≤◌, ◌≡◌, refl, inl, inr, true, List, [], ◌∷◌, ◌++◌, arith, ltb, Bool-cases, All,
}
use ekaette.Public.RateLimit.{recent, last_from, is_stale}

-- Times in order, from a lower bound.
abbrev pub IsSorted : ℕ → List ℕ → Type 0
IsSorted low [] = Unit
IsSorted low (t ∷ ts) = (low ≤ t) × IsSorted t ts

IsSorted-weaken : (low lower : ℕ) (ts : List ℕ) → lower ≤ low → IsSorted low ts → IsSorted lower ts
IsSorted-weaken low lower [] le s = tt
IsSorted-weaken low lower (t ∷ ts) le s = (omega arith, s.1)

pub recent-IsSorted :
    (window now low : ℕ) (ts : List ℕ) → IsSorted low ts → IsSorted low (recent window now ts)
unfolding recent
recent-IsSorted window now low [] s = tt
recent-IsSorted window now low (t ∷ ts) s =
    let rest = recent-IsSorted window now t ts s.1 in
    elim (Bool-cases (ltb now (t + window))) [
      | inl young ↦ rw young (s.0, rest)
      | inr old ↦ rw old (IsSorted-weaken t low (recent window now ts) s.0 rest)
    ]

pub append-IsSorted :
    (now low : ℕ) (ts : List ℕ)
    → low ≤ now
    → All (λ t. t ≤ now) ts
    → IsSorted low ts
    → IsSorted low (ts ++ now ∷ [])
append-IsSorted now low [] le past s = (le, tt)
append-IsSorted now low (t ∷ ts) le past s = (s.0, append-IsSorted now t ts past.0 past.1 s.1)

pub recent_past :
    (window now later : ℕ) (ts : List ℕ)
    → now ≤ later
    → All (λ t. t ≤ now) ts
    → All (λ t. t ≤ later) (recent window later ts)
unfolding recent
recent_past window now later [] le past = tt
recent_past window now later (t ∷ ts) le past =
    let rest = recent_past window now later ts le past.1 in
    elim (Bool-cases (ltb later (t + window))) [
      | inl young ↦ rw young (omega arith, rest)
      | inr old ↦ rw old rest
    ]

-- What is old stays old.
pub recent-recent :
    (window now later : ℕ) (ts : List ℕ)
    → now ≤ later
    → recent window later (recent window now ts) ≡ recent window later ts
unfolding recent
recent-recent window now later [] le = refl
recent-recent window now later (t ∷ ts) le = ground (arith, recent-recent window now later ts le)

pub recent-append :
    (window now : ℕ) (ts us : List ℕ)
    → recent window now (ts ++ us) ≡ recent window now ts ++ recent window now us
unfolding recent
recent-append window now [] us = refl
recent-append window now (t ∷ ts) us = ground (arith, recent-append window now ts us)

stale_from :
    (window now t : ℕ) (ts : List ℕ)
    → IsSorted t ts
    → last_from t ts + window ≤ now
    → (t + window ≤ now) × (recent window now ts ≡ [])
unfolding recent last_from
stale_from window now t [] s old = (old, refl)
stale_from window now t (u ∷ us) s old =
    let (older, none_left) = stale_from window now u us s.1 old in (omega arith, ground arith)

-- A stale bucket has no recent times.
pub stale-recent :
    (window now low : ℕ) (ts : List ℕ)
    → IsSorted low ts
    → is_stale window now ts ≡ true
    → recent window now ts ≡ []
unfolding recent is_stale
stale-recent window now low [] s old = refl
stale-recent window now low (t ∷ ts) s old =
    let (older, none_left) = stale_from window now t ts s.1 (ground arith) in ground arith
