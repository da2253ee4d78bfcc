-- ===== src/Agents/Telemetry/Once.antt =====
-- The token counts of app/agents/dedup.py count every event of a session once.
use ekaette.Prelude.{
  ℕ, ◌+◌, ◌≤◌, ◌≡◌, refl, sym, ap, Option, none, some, List, [], ◌∷◌, ◌++◌, arith, length, drop,
  length-append,
}
use ekaette.Agents.Telemetry.{
  Usage, Tokens, TelemetryState, usage_tokens, plus, no_tokens, add_events, state_int, add_delta,
  start_at, telemetry_after_agent, pos,
}

-- `v` is the sum of `t` and `u`.
record IsSum (t u v : Tokens) : Type 0 where
  prompts : v.prompt ≡ t.prompt + u.prompt
  completions : v.completion ≡ t.completion + u.completion
  totals : v.total ≡ t.total + u.total

add_events-IsSum :
    (events : List (Option Usage)) (t u v : Tokens)
    → IsSum t u v
    → IsSum t (add_events events u) (add_events events v)
unfolding add_events
add_events-IsSum [] t u v h = h
add_events-IsSum (none ∷ events) t u v h = add_events-IsSum events t u v h
add_events-IsSum (some usage ∷ events) t u v h =
    let w = usage_tokens usage in
    add_events-IsSum events t (plus u w) (plus v w) (record {
      prompts = omega (arith, h.prompts);
      completions = omega (arith, h.completions);
      totals = omega (arith, h.totals);
    })

-- A total of 0 is one of no tokens at all.
abbrev Covers : Tokens → Type 0
Covers t = t.total ≡ 0 → (t.prompt ≡ 0) × (t.completion ≡ 0)

plus-Covers : (t : Tokens) (u : Usage) → Covers t → Covers (plus t (usage_tokens u))
unfolding usage_tokens
plus-Covers t u h e = ground (arith, h)

add_events-Covers :
    (events : List (Option Usage)) (t : Tokens) → Covers t → Covers (add_events events t)
unfolding add_events
add_events-Covers [] t h = h
add_events-Covers (none ∷ events) t h = add_events-Covers events t h
add_events-Covers (some u ∷ events) t h =
    add_events-Covers events (plus t (usage_tokens u)) (plus-Covers t u h)

add_events-append :
    (xs ys : List (Option Usage)) (t : Tokens)
    → add_events (xs ++ ys) t ≡ add_events ys (add_events xs t)
unfolding add_events
add_events-append [] ys t = refl
add_events-append (none ∷ xs) ys t = add_events-append xs ys t
add_events-append (some u ∷ xs) ys t = add_events-append xs ys (plus t (usage_tokens u))

drop-length : (xs ys : List (Option Usage)) → drop (length xs) (xs ++ ys) ≡ ys
drop-length [] ys = refl
drop-length (x ∷ xs) ys = drop-length xs ys

abbrev pub flatten : List (List (Option Usage)) → List (Option Usage)
flatten [] = []
flatten (xs ∷ xss) = xs ++ flatten xss

append-[] : (xs : List (Option Usage)) → xs ++ [] ≡ xs
append-[] [] = refl
append-[] (x ∷ xs) = ap (λ ys. x ∷ ys) (append-[] xs)

append_assoc : (xs ys zs : List (Option Usage)) → (xs ++ ys) ++ zs ≡ xs ++ (ys ++ zs)
append_assoc [] ys zs = refl
append_assoc (x ∷ xs) ys zs = ap (λ rest. x ∷ rest) (append_assoc xs ys zs)

abbrev pub no_counts : TelemetryState
no_counts = record {
  event_cursor = none;
  total_prompt_tokens = none;
  total_completion_tokens = none;
  session_total_tokens = none;
}

-- The session's counters are the sums of a list of events.
pub record Counts (events : List (Option Usage)) (s : TelemetryState) : Type 0 where
  pub prompts : state_int s.total_prompt_tokens ≡ (add_events events no_tokens).prompt
  pub completions : state_int s.total_completion_tokens ≡ (add_events events no_tokens).completion
  pub totals : state_int s.session_total_tokens ≡ (add_events events no_tokens).total

module _ {Cost : Type 0} (charge : ℕ → ℕ → Cost → Cost) where
  add_delta-Counts :
      (past new : List (Option Usage)) (s : TelemetryState) (cost : Cost)
      → Counts past s
      → Counts (past ++ new) (add_delta charge (add_events new no_tokens) (s, cost)).0
  unfolding add_delta
  add_delta-Counts past new s cost h =
      let whole = add_events past no_tokens in
      let sums =
        add_events-IsSum new whole no_tokens whole
          (record { prompts = omega arith; completions = omega arith; totals = omega arith }) in
      let covers = add_events-Covers new no_tokens (λ e. (refl, refl)) in
      let appended = add_events-append past new no_tokens in
      record {
        prompts = rw appended (ground (arith, h.prompts, sums.prompts, covers));
        completions = rw appended (ground (arith, h.completions, sums.completions, covers));
        totals = rw appended (ground (arith, h.totals, sums.totals, covers));
      }

  -- What a call at the events `past` leaves: their counts, and the cursor at their end.
  Follows : List (Option Usage) → TelemetryState → Type 0
  Follows past s =
      ((n : ℕ) → length past ≤ n → start_at s.event_cursor n ≡ length past) × Counts past s

  add_delta-cursor :
      (delta : Tokens) (s : TelemetryState) (cost : Cost)
      → (add_delta charge delta (s, cost)).0.event_cursor ≡ s.event_cursor
  unfolding add_delta
  add_delta-cursor delta s cost = ground arith

  from_cursor :
      (past new : List (Option Usage)) (s : TelemetryState) (cost : Cost)
      → Follows past s
      → Follows
          (past ++ new)
          (add_delta charge
            (add_events
              (drop (start_at s.event_cursor (length (past ++ new))) (past ++ new))
              no_tokens)
            (record s { event_cursor = some (pos (length (past ++ new))) }, cost)).0
  unfolding Follows
  from_cursor past new s cost h =
      let moved = record s { event_cursor = some (pos (length (past ++ new))) } in
      let counts : Counts past moved = record {
        prompts = h.1.prompts;
        completions = h.1.completions;
        totals = h.1.totals;
      } in
      rw (h.0 (length (past ++ new)) (omega (arith, length-append past new)), drop-length past new)
        (
          λ n below.
              rw (add_delta-cursor (add_events new no_tokens) moved cost) (ground (arith, below)),
          add_delta-Counts past new moved cost counts,
        )

  telemetry-Follows :
      (past new : List (Option Usage)) (s : TelemetryState) (cost : Cost)
      → Follows past s
      → Follows (past ++ new) (telemetry_after_agent charge (past ++ new) (s, cost)).0
  unfolding telemetry_after_agent
  telemetry-Follows [] [] s cost h = h
  telemetry-Follows [] (e ∷ new) s cost h = from_cursor [] (e ∷ new) s cost h
  telemetry-Follows (e ∷ past) new s cost h = from_cursor (e ∷ past) new s cost h

  -- The calls at the end of the turns, each of which appends its events to the session's.
  unfoldable pub turns :
      List (Option Usage)
      → List (List (Option Usage))
      → TelemetryState × Cost
      → TelemetryState × Cost
  turns past [] s = s
  turns past (new ∷ later) s =
      turns (past ++ new) later (telemetry_after_agent charge (past ++ new) s)

  turns-Follows :
      (past : List (Option Usage)) (batches : List (List (Option Usage))) (s : TelemetryState)
      (cost : Cost)
      → Follows past s
      → Follows (past ++ flatten batches) (turns past batches (s, cost)).0
  unfolding turns
  turns-Follows past [] s cost h = rw (append-[] past) h
  turns-Follows past (new ∷ later) s cost h =
      let (state, spent) = telemetry_after_agent charge (past ++ new) (s, cost) in
      rw (sym (append_assoc past new (flatten later)))
        (turns-Follows (past ++ new) later state spent (telemetry-Follows past new s cost h))

  -- In a session that starts with no counts, and whose events are only appended, the counts after any
  -- turns are those of all the events of the session, each event counted once.
  pub turns-Counts :
      (batches : List (List (Option Usage))) (cost : Cost)
      → Counts (flatten batches) (turns [] batches (no_counts, cost)).0
  unfolding Follows add_events
  turns-Counts batches cost =
      (turns-Follows [] batches no_counts cost
        (λ n below. refl, record { prompts = refl; completions = refl; totals = refl })).1
