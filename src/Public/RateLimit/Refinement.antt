-- ===== src/Public/RateLimit/Refinement.antt =====
-- The buckets of app/api/v1/public/core_helpers.py against the times of every allowed request.
use ekaette.Prelude.{
  ℕ, ◌≤◌, String, ◌≡◌, refl, sym, ap, ◌∙◌, inl, inr, Bool, true, false, Option, none, some, List,
  [], ◌∷◌, ◌++◌, arith, str_eq, eq_iff, eq_refl, leb, if◌then◌else◌, Bool-cases, Option-cases,
  length, All,
}
use ekaette.Dict.{
  key_in, lookup, insert, HasUniqueKeys, lookup-insert, lookup-prune, lookup_is,
  insert-HasUniqueKeys, erase_all-HasUniqueKeys, keys_where,
}
use ekaette.Dict.Size.{is_there, KeysAmong, length-le_keys, length-insert}
use ekaette.Public.RateLimit.{
  Buckets, recent, is_stale, prune, values_or_empty, make_room, check_bucket, admit,
}
use ekaette.Public.RateLimit.Recent.{
  IsSorted, recent-recent, stale-recent, recent-append, recent-IsSorted, recent_past,
  append-IsSorted,
}

-- The specification: when the requests of each bucket and client were allowed, with nothing ever
-- forgotten.
abbrev pub History : Type 0
History = String → List ℕ

abbrev pub allow : String → ℕ → History → History
allow key now history j = if str_eq key j then history key ++ now ∷ [] else history j

-- A request is allowed if fewer than `limit` were allowed in the window before it.
unfoldable pub spec_check : ℕ → ℕ → ℕ → String → History → Bool × History
spec_check limit window now key history =
    if leb limit (length (recent window now (history key)))
    then (false, history)
    else (true, allow key now history)

abbrev pub times_of : String → Buckets → List ℕ
times_of j buckets = values_or_empty (lookup j buckets)

extended :
    (window now later : ℕ) (key : String) (ts : List ℕ) (history : History)
    → recent window later ts ≡ recent window later (history key)
    → recent window later (ts ++ now ∷ []) ≡ recent window later (allow key now history key)
extended window now later key ts history e =
    rw (eq_refl key, recent-append window later ts (now ∷ []), e)
      (sym (recent-append window later (history key) (now ∷ [])))

module _ (window : ℕ) where
  -- From `now` on both have the same times in the window, and each bucket is in order.
  pub record Agrees (clients : List String) (now : ℕ) (buckets : Buckets) (history : History)
      : Type 0 where
    pub unique : HasUniqueKeys buckets
    pub among : KeysAmong clients buckets
    pub sorted : (j : String) → IsSorted 0 (times_of j buckets)
    pub past : (j : String) → All (λ t. t ≤ now) (times_of j buckets)
    pub same :
        (j : String) (later : ℕ)
        → now ≤ later
        → recent window later (times_of j buckets) ≡ recent window later (history j)

  -- A bucket with the key's recent times, and more.
  insert-Agrees :
      (clients : List String) (key : String) (now : ℕ) (values : List ℕ) (buckets : Buckets)
      (history history' : History)
      → Agrees clients now buckets history
      → key_in key clients ≡ true
      → IsSorted 0 values
      → All (λ t. t ≤ now) values
      → ((later : ℕ)
          → now ≤ later
          → recent window later values ≡ recent window later (history' key))
      → ((j : String) → str_eq key j ≡ false → history' j ≡ history j)
      → Agrees clients now (insert key values buckets) history'
  insert-Agrees clients key now values buckets history history' h known s p r others =
      let at_key = λ (j : String). lookup-insert key j values buckets in
      record {
        unique = insert-HasUniqueKeys key values buckets h.unique;
        among = λ j there. ground (arith, at_key j, h.among j, eq_iff key j);
        sorted = λ j. elim (Bool-cases (str_eq key j)) [
          | inl here ↦ rw (at_key j, here) s
          | inr there ↦ rw (at_key j, there) (h.sorted j)
        ];
        past = λ j. elim (Bool-cases (str_eq key j)) [
          | inl here ↦ rw (at_key j, here) p
          | inr there ↦ rw (at_key j, there) (h.past j)
        ];
        same = λ j later le. elim (Bool-cases (str_eq key j)) [
          | inl here ↦
              let e : key ≡ j = (eq_iff key j).0 here in
              rw (at_key j, here)
                (r later le ∙ ap (λ (k : String). recent window later (history' k)) e)
          | inr there ↦ rw (at_key j, there, others j there) (h.same j later le)
        ];
      }

  abbrev pruned : ℕ → Option (List ℕ) → Option (List ℕ)
  pruned now o = if lookup_is (is_stale window now) o then none else o

  pruned_there :
      (now : ℕ) (o : Option (List ℕ)) → is_there (pruned now o) ≡ true → is_there o ≡ true
  pruned_there now none h = h
  pruned_there now (some v) h = refl

  pruned-IsSorted :
      (now : ℕ) (o : Option (List ℕ))
      → IsSorted 0 (values_or_empty o)
      → IsSorted 0 (values_or_empty (pruned now o))
  pruned-IsSorted now none h = tt
  pruned-IsSorted now (some v) h = elim (Bool-cases (is_stale window now v)) [
    | inl stale ↦ rw stale tt
    | inr live ↦ rw live h
  ]

  pruned_past :
      (now : ℕ) (o : Option (List ℕ))
      → All (λ t. t ≤ now) (values_or_empty o)
      → All (λ t. t ≤ now) (values_or_empty (pruned now o))
  pruned_past now none h = tt
  pruned_past now (some v) h = elim (Bool-cases (is_stale window now v)) [
    | inl stale ↦ rw stale tt
    | inr live ↦ rw live h
  ]

  pruned_same :
      (now later : ℕ) (o : Option (List ℕ))
      → now ≤ later
      → IsSorted 0 (values_or_empty o)
      → recent window later (values_or_empty (pruned now o))
        ≡ recent window later (values_or_empty o)
  pruned_same now later none le h = refl
  pruned_same now later (some v) le h = elim (Bool-cases (is_stale window now v)) [
    | inl stale ↦ rw stale (
        ap (recent window later) (sym (stale-recent window now 0 v h stale))
        ∙ recent-recent window now later v le)
    | inr live ↦ rw live refl
  ]

  pub prune-Agrees :
      (clients : List String) (now : ℕ) (buckets : Buckets) (history : History)
      → Agrees clients now buckets history
      → Agrees clients now (prune window now buckets) history
  unfolding prune
  prune-Agrees clients now buckets history h =
      let at_key = λ (j : String). lookup-prune (is_stale window now) j buckets h.unique in
      record {
        unique =
            erase_all-HasUniqueKeys (keys_where (is_stale window now) buckets) buckets h.unique;
        among = λ j there. h.among j (pruned_there now (lookup j buckets) (rw (at_key j) at there));
        sorted = λ j. rw (at_key j) (pruned-IsSorted now (lookup j buckets) (h.sorted j));
        past = λ j. rw (at_key j) (pruned_past now (lookup j buckets) (h.past j));
        same = λ j later le.
            rw (at_key j) (pruned_same now later (lookup j buckets) le (h.sorted j))
            ∙ h.same j later le;
      }

  among_insert :
      (clients : List String) (key j : String) (buckets : Buckets)
      → (is_there (lookup j buckets) ≡ true → key_in j clients ≡ true)
      → key_in key clients ≡ true
      → is_there (lookup j (insert key [] buckets)) ≡ true
      → key_in j clients ≡ true
  among_insert clients key j buckets among known there =
      ground (arith, lookup-insert key j [] buckets, eq_iff key j, among)

  -- Where the clients are few enough no bucket makes room for another.
  make_room_lem :
      (clients : List String) (max_buckets now : ℕ) (key : String) (buckets : Buckets)
      (history : History)
      → Agrees clients now buckets history
      → key_in key clients ≡ true
      → length clients ≤ max_buckets
      → make_room max_buckets (lookup key buckets) buckets ≡ buckets
  unfolding make_room
  make_room_lem clients max_buckets now key buckets history h known few =
      elim (Option-cases (lookup key buckets)) [
        | inl absent ↦
            let among' =
              λ (j : String) (there : is_there (lookup j (insert key [] buckets)) ≡ true).
                among_insert clients key j buckets (h.among j) known there in
            let size =
              length-le_keys clients (insert key [] buckets)
                (insert-HasUniqueKeys key [] buckets h.unique) among' in
            rw absent (ground (arith, size, length-insert key [] buckets absent))
        | inr (v, present) ↦ rw present refl
      ]

  past_append :
      (now : ℕ) (ts : List ℕ) → All (λ t. t ≤ now) ts → All (λ t. t ≤ now) (ts ++ now ∷ [])
  past_append now [] p = (omega arith, tt)
  past_append now (t ∷ ts) p = (p.0, past_append now ts p.1)

  unfoldable pub Answers : List String → ℕ → Bool × Buckets → Bool × History → Type 0
  Answers clients now (allowed, buckets) (spec_allowed, history) =
      (allowed ≡ spec_allowed) × Agrees clients now buckets history

  admit-Agrees :
      (clients : List String) (limit now : ℕ) (key : String) (buckets : Buckets) (history : History)
      → Agrees clients now buckets history
      → key_in key clients ≡ true
      → Answers clients now
          (admit limit now key (recent window now (times_of key buckets)) buckets)
          (spec_check limit window now key history)
  unfolding admit spec_check Answers
  admit-Agrees clients limit now key buckets history h known =
      let ts = recent window now (times_of key buckets) in
      let e : ts ≡ recent window now (history key) = h.same key now (omega arith) in
      let s = recent-IsSorted window now 0 (times_of key buckets) (h.sorted key) in
      let p = recent_past window now now (times_of key buckets) (omega arith) (h.past key) in
      let old = λ (later : ℕ) (le : now ≤ later).
        recent-recent window now later (times_of key buckets) le ∙ h.same key later le in
      elim (Bool-cases (leb limit (length ts))) [
        | inl full ↦
            let full' = rw e at full in
            rw (full, full')
              (
                refl,
                insert-Agrees clients key now ts buckets history history h known s p old
                    (λ j n. refl),
              )
        | inr free ↦
            let free' = rw e at free in
            rw (free, free')
              (
                refl,
                insert-Agrees clients key now (ts ++ now ∷ []) buckets history
                    (allow key now history) h known (append-IsSorted now 0 ts (omega arith) p s)
                    (past_append now ts p)
                    (λ later le. extended window now later key ts history (old later le))
                    (λ j n. rw n refl),
              )
      ]

  pub check_bucket-Agrees :
      (clients : List String) (limit max_buckets now : ℕ) (key : String) (buckets : Buckets)
      (history : History)
      → Agrees clients now buckets history
      → key_in key clients ≡ true
      → length clients ≤ max_buckets
      → Answers clients now
          (check_bucket limit window max_buckets now key buckets)
          (spec_check limit window now key history)
  unfolding check_bucket
  check_bucket-Agrees clients limit max_buckets now key buckets history h known few =
      rw (check_bucket, make_room_lem clients max_buckets now key buckets history h known few)
        (admit-Agrees clients limit now key buckets history h known)
