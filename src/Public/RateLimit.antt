-- ===== src/Public/RateLimit.antt =====
-- app/api/v1/public/core_helpers.py: `check_rate_limit`. Differences of times are compared as sums.
pub mod Recent
pub mod Refinement
pub mod Traffic
mod Tests
use ekaette.Prelude.{
  ℕ, ◌+◌, String, Bool, true, false, Option, none, some, List, [], ◌∷◌, ◌++◌, ltb, leb,
  if◌then◌else◌, length, colon,
}
use ekaette.Dict.{Dict, lookup, insert, erase, erase_all, keys_where}

abbrev pub Buckets : Type 0
Buckets = Dict (List ℕ)

-- `[t for t in timestamps if now - t < window_seconds]`
unfoldable pub recent : ℕ → ℕ → List ℕ → List ℕ
recent window now [] = []
recent window now (t ∷ ts) =
    let rest = recent window now ts in if ltb now (t + window) then t ∷ rest else rest

-- `values[-1]`, after a value
unfoldable pub last_from : ℕ → List ℕ → ℕ
last_from t [] = t
last_from t (u ∷ us) = last_from u us

-- `not values or now - values[-1] >= window_seconds`
unfoldable pub is_stale : ℕ → ℕ → List ℕ → Bool
unfolding last_from
is_stale window now [] = true
is_stale window now (t ∷ ts) = leb (last_from t ts + window) now

unfoldable pub prune : ℕ → ℕ → Buckets → Buckets
unfolding is_stale
prune window now buckets = erase_all (keys_where (is_stale window now) buckets) buckets

-- `buckets[k][-1] if buckets[k] else 0.0`
unfoldable pub newest : List ℕ → ℕ
unfolding last_from
newest [] = 0
newest (t ∷ ts) = last_from t ts

-- the rest of the search for the key with the least newest time, the first of several
unfoldable pub oldest_from : String → ℕ → Buckets → String
unfolding newest
oldest_from key time [] = key
oldest_from key time ((k, values) ∷ buckets) =
    let older = ltb (newest values) time in
    oldest_from (if older then k else key) (if older then newest values else time) buckets

unfoldable pub evict_oldest : Buckets → Buckets
unfolding oldest_from
evict_oldest [] = []
evict_oldest ((k, values) ∷ buckets) =
    erase (oldest_from k (newest values) buckets) ((k, values) ∷ buckets)

abbrev pub values_or_empty : Option (List ℕ) → List ℕ
values_or_empty none = []
values_or_empty (some values) = values

-- a bucket for the key: the least recently used one goes where there are too many
unfoldable pub make_room : ℕ → Option (List ℕ) → Buckets → Buckets
unfolding evict_oldest
make_room max_buckets none buckets =
    if leb max_buckets (length buckets) then evict_oldest buckets else buckets
make_room max_buckets (some values) buckets = buckets

-- the test of the limit, at the recent times of the key
unfoldable pub admit : ℕ → ℕ → String → List ℕ → Buckets → Bool × Buckets
admit limit now key timestamps buckets =
    if leb limit (length timestamps)
    then (false, insert key timestamps buckets)
    else (true, insert key (timestamps ++ now ∷ []) buckets)

unfoldable pub check_bucket : ℕ → ℕ → ℕ → ℕ → String → Buckets → Bool × Buckets
unfolding make_room admit
check_bucket limit window max_buckets now key buckets =
    let kept = make_room max_buckets (lookup key buckets) buckets in
    admit limit now key (recent window now (values_or_empty (lookup key kept))) kept

-- The answer, the buckets and the time of the last pruning.
unfoldable pub check_rate_limit : String → String → ℕ → ℕ → ℕ → ℕ → Buckets → ℕ → Bool × Buckets × ℕ
unfolding prune check_bucket
check_rate_limit client_ip bucket limit window max_buckets now buckets last_global_prune =
    let due = leb (last_global_prune + window) now in
    let (allowed, after) =
      check_bucket limit window max_buckets now (colon bucket client_ip)
        (if due then prune window now buckets else buckets) in
    (allowed, after, if due then now else last_global_prune)
