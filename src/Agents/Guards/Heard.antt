-- ===== src/Agents/Guards/Heard.antt =====
-- The numbers of the messages that a client of app/agents/callbacks.py reads, which looks at the last
-- message after each callback.
use ekaette.Prelude.{
  String, ◌≡◌, refl, sym, Bool, true, false, ◌&&◌, not, Option, none, some, List, [], ◌∷◌, ◌++◌,
  arith, if◌then◌else◌,
}
use ekaette.Prelude.Int.{ℤ, pos, negsuc, leb_ℤ}
use ekaette.Agents.Dedup.{DedupState}
use ekaette.Agents.Messages.{Json, Fields, Session, next_server_message_id}
use ekaette.Agents.Messages.Numbering.{Queues, silent, spoke}
use ekaette.Agents.Guards.Trace.{Callback, step, step-Keeps}

abbrev pub number_of : Option (ℤ × Fields) → Option ℤ
number_of none = none
number_of (some (n, payload)) = some n

-- The last message has the number that the state counts.
abbrev pub IsNumbered : Session → Type 0
IsNumbered s = number_of s.last_server_message ≡ s.server_message_seq

abbrev pub differs : Option ℤ → Option ℤ → Bool
differs none none = false
differs none (some n) = true
differs (some m) none = true
differs (some m) (some n) = not (leb_ℤ m n && leb_ℤ n m)

abbrev pub as_list : Option ℤ → List ℤ
as_list none = []
as_list (some n) = n ∷ []

-- what a client reads of the last message, given what it read before
abbrev pub heard : Option ℤ → Option ℤ → List ℤ
heard old new = if differs old new then as_list new else []

-- The numbers go up by one, from a first that follows `before` to `last`.
abbrev pub Counts : Option ℤ → Option ℤ → List ℤ → Type 0
Counts before last [] = before ≡ last
Counts before last (n ∷ ns) = (n ≡ next_server_message_id before) × Counts (some n) last ns

differs-next : (o : Option ℤ) → differs o (some (next_server_message_id o)) ≡ true
unfolding next_server_message_id
differs-next none = refl
differs-next (some (pos n)) = ground arith
differs-next (some (negsuc n)) = ground arith

differs_self : (o : Option ℤ) → differs o o ≡ false
differs_self none = refl
differs_self (some n) = ground arith

-- what one callback lets a client read
heard-Counts :
    (before after : Session) (last : Option ℤ) (ns : List ℤ)
    → IsNumbered before
    → Queues before after
    → Counts after.server_message_seq last ns
    → Counts before.server_message_seq last
        (heard (number_of before.last_server_message) (number_of after.last_server_message) ++ ns)
heard-Counts before after last ns numbered (silent same_seq same_last) h =
    rw (same_last, differs_self (number_of before.last_server_message)) (rw (sym same_seq) h)
heard-Counts before after last ns numbered (spoke payload seq message) h =
    rw (message, numbered, differs-next before.server_message_seq) (refl, rw (sym seq) h)

Queues-IsNumbered :
    (before after : Session) → IsNumbered before → Queues before after → IsNumbered after
Queues-IsNumbered before after numbered (silent same_seq same_last) =
    rw (same_last, same_seq) numbered
Queues-IsNumbered before after numbered (spoke payload seq message) = rw (message, seq) refl

module _ (hash : String → String) (show : Json → String) (read_int : String → Option ℤ) where
  unfoldable pub after_all : List Callback → Session × DedupState → Session × DedupState
  after_all [] state = state
  after_all (c ∷ cs) state = after_all cs (step hash show read_int c state).1

  unfoldable pub all_heard : List Callback → Session × DedupState → List ℤ
  all_heard [] state = []
  all_heard (c ∷ cs) state =
      let after = (step hash show read_int c state).1 in
      heard (number_of state.0.last_server_message) (number_of after.0.last_server_message)
      ++ all_heard cs after

  -- In a session whose last message has the number that its state counts, a client that looks at the
  -- last message after each callback reads messages whose numbers go up by one, from the state's count
  -- at the start to the count at the end: it misses none, whatever the callbacks.
  pub all_heard-Counts :
      (callbacks : List Callback) (s : Session) (dedup : DedupState)
      → IsNumbered s
      → Counts s.server_message_seq
          (after_all callbacks (s, dedup)).0.server_message_seq
          (all_heard callbacks (s, dedup))
  unfolding all_heard after_all
  all_heard-Counts [] s dedup numbered = refl
  all_heard-Counts (c ∷ cs) s dedup numbered =
      let (after, dedup') = (step hash show read_int c (s, dedup)).1 in
      let queues = (step-Keeps hash show read_int c s dedup).1 in
      heard-Counts s after _ _ numbered queues
        (all_heard-Counts cs after dedup' (Queues-IsNumbered s after numbered queues))
