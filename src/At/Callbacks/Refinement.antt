-- ===== src/At/Callbacks/Refinement.antt =====
-- The table of seen callbacks, with its pruning, against the time at which each was last accepted.
use ekaette.Prelude.{
  ℕ, ◌-◌, ◌≤◌, String, ◌≡◌, refl, ap, ◌∙◌, inl, inr, Bool, true, false, Option, none, some, List,
  [], ◌∷◌, arith, str_eq, eq_iff, ltb, leb, if◌then◌else◌, Bool-cases, length, colon,
}
use ekaette.Dict.{
  lookup, insert, erase, erase_all, keys_where, HasUniqueKeys, lookup-insert, lookup-erase,
  lookup-prune, lookup_is, insert-HasUniqueKeys, erase-HasUniqueKeys, erase_all-HasUniqueKeys,
}
use ekaette.At.Callbacks.{dedup_window, Seen, is_old, remember, is_duplicate_callback, check_seen}

-- The specification: when each callback was last accepted, with nothing ever forgotten.
abbrev pub LastAccepted : Type 0
LastAccepted = String → Option ℕ

-- A callback accepted at most five minutes ago.
abbrev pub is_recent : ℕ → Option ℕ → Bool
is_recent now none = false
is_recent now (some at) = leb (now - at) dedup_window

abbrev pub accept : String → ℕ → LastAccepted → LastAccepted
accept key now last j = if str_eq key j then some now else last j

unfoldable pub spec_duplicate : String → String → ℕ → LastAccepted → Bool × LastAccepted
spec_duplicate session_id event_key now last =
    let key = colon session_id event_key in
    if is_recent now (last key) then (true, last) else (false, accept key now last)

-- From `now` on the table and the specification call the same callbacks recent.
pub record Agrees (now : ℕ) (seen : Seen) (last : LastAccepted) : Type 0 where
  pub unique : HasUniqueKeys seen
  pub same :
      (j : String) (later : ℕ)
      → now ≤ later
      → is_recent later (lookup j seen) ≡ is_recent later (last j)

-- What is old stays old.
pruned_recent :
    (now later : ℕ) (o : Option ℕ)
    → now ≤ later
    → is_recent later (if lookup_is (is_old now) o then none else o) ≡ is_recent later o
pruned_recent now later none h = refl
pruned_recent now later (some at) h = ground arith

prune-Agrees :
    (now : ℕ) (seen : Seen) (last : LastAccepted)
    → Agrees now seen last
    → Agrees now (erase_all (keys_where (is_old now) seen) seen) last
prune-Agrees now seen last h = record {
  unique = erase_all-HasUniqueKeys (keys_where (is_old now) seen) seen h.unique;
  same = λ j later le.
      ap (is_recent later) (lookup-prune (is_old now) j seen h.unique)
      ∙ (pruned_recent now later (lookup j seen) le ∙ h.same j later le);
}

insert-Agrees :
    (key : String) (now : ℕ) (seen : Seen) (last : LastAccepted)
    → Agrees now seen last
    → Agrees now (insert key now seen) (accept key now last)
insert-Agrees key now seen last h = record {
  unique = insert-HasUniqueKeys key now seen h.unique;
  same = λ j later le. ground (arith, lookup-insert key j now seen, h.same j later le);
}

remember-Agrees :
    (key : String) (now : ℕ) (seen : Seen) (last : LastAccepted)
    → Agrees now seen last
    → ((remember key now seen).0 ≡ false)
      × Agrees now (remember key now seen).1 (accept key now last)
unfolding remember
remember-Agrees key now seen last h = elim (Bool-cases (ltb 1000 (length seen))) [
  | inl large ↦ rw large (refl, insert-Agrees key now _ last (prune-Agrees now seen last h))
  | inr small ↦ rw small (refl, insert-Agrees key now seen last h)
]

-- An old time that is dropped was not recent.
erase-Agrees :
    (key : String) (now seen_at : ℕ) (seen : Seen) (last : LastAccepted)
    → Agrees now seen last
    → lookup key seen ≡ some seen_at
    → leb (now - seen_at) dedup_window ≡ false
    → Agrees now (erase key seen) last
erase-Agrees key now seen_at seen last h there old = record {
  unique = erase-HasUniqueKeys key seen h.unique;
  same = λ j later le. ground (arith, lookup-erase key j seen, eq_iff key j, h.same j later le);
}

check_seen-Agrees :
    (key : String) (now : ℕ) (o : Option ℕ) (seen : Seen) (last : LastAccepted)
    → Agrees now seen last
    → lookup key seen ≡ o
    → ((check_seen key now o seen).0 ≡ is_recent now o)
      × Agrees now
          (check_seen key now o seen).1
          (if is_recent now o then last else accept key now last)
unfolding check_seen
check_seen-Agrees key now none seen last h there = remember-Agrees key now seen last h
check_seen-Agrees key now (some seen_at) seen last h there =
    elim (Bool-cases (leb (now - seen_at) dedup_window)) [
      | inl recent ↦ rw recent (refl, h)
      | inr old ↦ rw old (
          remember-Agrees key now (erase key seen) last
            (erase-Agrees key now seen_at seen last h there old))
    ]

later-Agrees :
    {now later : ℕ} {seen : Seen} {last : LastAccepted}
    → now ≤ later
    → Agrees now seen last
    → Agrees later seen last
later-Agrees le h = record { unique = h.unique; same = λ j t more. h.same j t (omega arith) }

-- One call answers as the specification does, and keeps the agreement.
pub is_duplicate_callback-Agrees :
    (session_id event_key : String) (now : ℕ) (seen : Seen) (last : LastAccepted)
    → Agrees now seen last
    → ((is_duplicate_callback session_id event_key now seen).0
        ≡ (spec_duplicate session_id event_key now last).0)
      × Agrees now
          (is_duplicate_callback session_id event_key now seen).1
          (spec_duplicate session_id event_key now last).1
unfolding is_duplicate_callback spec_duplicate
is_duplicate_callback-Agrees session_id event_key now seen last h =
    let key = colon session_id event_key in
    let (answer, after) = check_seen-Agrees key now (lookup key seen) seen last h refl in
    let same = h.same key now (omega arith) in
    elim (Bool-cases (is_recent now (last key))) [
      | inl recent ↦ let e = same ∙ recent in rw recent (rw e at answer, rw e at after)
      | inr old ↦ let e = same ∙ old in rw old (rw e at answer, rw e at after)
    ]

-- A delivery: the session, the event and the time of arrival.
pub record Delivery : Type 0 where
  pub session_id : String
  pub event_key : String
  pub at : ℕ

pub answers : List Delivery → Seen → List Bool
answers [] seen = []
answers (d ∷ ds) seen =
    let (duplicate, seen') = is_duplicate_callback d.session_id d.event_key d.at seen in
    duplicate ∷ answers ds seen'

unfoldable pub spec_answers : List Delivery → LastAccepted → List Bool
unfolding spec_duplicate
spec_answers [] last = []
spec_answers (d ∷ ds) last =
    let (duplicate, last') = spec_duplicate d.session_id d.event_key d.at last in
    duplicate ∷ spec_answers ds last'

-- The clock does not go back.
abbrev pub IsOrdered : ℕ → List Delivery → Type 0
IsOrdered from [] = Unit
IsOrdered from (d ∷ ds) = (from ≤ d.at) × IsOrdered d.at ds

answers-Agrees :
    (ds : List Delivery) (now : ℕ) (seen : Seen) (last : LastAccepted)
    → IsOrdered now ds
    → Agrees now seen last
    → answers ds seen ≡ spec_answers ds last
unfolding answers spec_answers
answers-Agrees [] now seen last ordered h = refl
answers-Agrees (d ∷ ds) now seen last ordered h =
    let (same, after) =
      is_duplicate_callback-Agrees d.session_id d.event_key d.at seen last
        (later-Agrees ordered.0 h) in
    cc (same, answers-Agrees ds d.at _ _ ordered.1 after)

-- Over any deliveries in the order of their times, from an empty table, the answers are those of the
-- specification: a delivery is a duplicate exactly when the last accepted one of its session and
-- event came at most five minutes before. Pruning is never seen.
pub answers-eq-spec_answers :
    (ds : List Delivery) → IsOrdered 0 ds → answers ds [] ≡ spec_answers ds (λ j. none)
answers-eq-spec_answers ds ordered =
    answers-Agrees ds 0 [] (λ j. none) ordered
      (record { unique = tt; same = λ j later le. unfold lookup in refl })
