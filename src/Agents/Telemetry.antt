-- ===== src/Agents/Telemetry.antt =====
-- app/agents/dedup.py: `telemetry_after_agent`, the token counts of a session. The token counts of an
-- event are integers, or missing, and the session's counters are written by this function only. The
-- cost is a floating-point sum at prices from the environment: how it grows is a parameter.
pub mod Once
mod Tests
use ekaette.Prelude.{
  ℕ, ◌+◌, Option, none, some, List, [], ◌∷◌, ltb, leb, if◌then◌else◌, length, drop,
}
use ekaette.Prelude.Int.{ℤ, pos, negsuc}

-- An event's `usage_metadata`.
pub record Usage : Type 0 where
  pub prompt_token_count : Option ℤ
  pub prompt_tokens : Option ℤ
  pub candidates_token_count : Option ℤ
  pub completion_token_count : Option ℤ
  pub completion_tokens : Option ℤ
  pub total_token_count : Option ℤ
  pub total_tokens : Option ℤ

pub record Tokens : Type 0 where
  pub prompt : ℕ
  pub completion : ℕ
  pub total : ℕ

-- The four "temp:" keys of the session's state but the cost.
pub record TelemetryState : Type 0 where
  pub event_cursor : Option ℤ
  pub total_prompt_tokens : Option ℕ
  pub total_completion_tokens : Option ℕ
  pub session_total_tokens : Option ℕ

-- The first attribute that is positive.
unfoldable pub extract_int : List (Option ℤ) → ℕ
extract_int [] = 0
extract_int (none ∷ values) = extract_int values
extract_int (some (negsuc n) ∷ values) = extract_int values
extract_int (some (pos n) ∷ values) = let rest = extract_int values in if ltb 0 n then n else rest

unfoldable pub usage_tokens : Usage → Tokens
unfolding extract_int
usage_tokens u =
    let p = extract_int (u.prompt_token_count ∷ u.prompt_tokens ∷ []) in
    let c =
      extract_int
        (u.candidates_token_count ∷ u.completion_token_count ∷ u.completion_tokens ∷ []) in
    let t = extract_int (u.total_token_count ∷ u.total_tokens ∷ []) in
    record { prompt = p; completion = c; total = if leb t 0 then p + c else t }

abbrev pub plus : Tokens → Tokens → Tokens
plus t u = record {
  prompt = t.prompt + u.prompt;
  completion = t.completion + u.completion;
  total = t.total + u.total;
}

abbrev pub no_tokens : Tokens
no_tokens = record { prompt = 0; completion = 0; total = 0 }

-- the loop over the events, from the sums so far
unfoldable pub add_events : List (Option Usage) → Tokens → Tokens
add_events [] t = t
add_events (none ∷ events) t = add_events events t
add_events (some u ∷ events) t = add_events events (plus t (usage_tokens u))

abbrev pub start_at : Option ℤ → ℕ → ℕ
start_at none n = 0
start_at (some (pos k)) n = if ltb n k then 0 else k
start_at (some (negsuc k)) n = 0

abbrev pub state_int : Option ℕ → ℕ
state_int none = 0
state_int (some n) = n

module _ {Cost : Type 0} (charge : ℕ → ℕ → Cost → Cost) where
  -- the end of the call, with the sums of the new events
  unfoldable pub add_delta : Tokens → TelemetryState × Cost → TelemetryState × Cost
  add_delta delta (state, cost) = if leb delta.total 0 then (state, cost) else (
    record state {
      total_prompt_tokens = some (state_int state.total_prompt_tokens + delta.prompt);
      total_completion_tokens = some (state_int state.total_completion_tokens + delta.completion);
      session_total_tokens = some (state_int state.session_total_tokens + delta.total);
    },
    charge delta.prompt delta.completion cost,
  )

  unfoldable pub telemetry_after_agent :
      List (Option Usage) → TelemetryState × Cost → TelemetryState × Cost
  unfolding add_delta
  telemetry_after_agent [] s = s
  telemetry_after_agent (e ∷ events) (state, cost) =
      add_delta
        (add_events (drop (start_at state.event_cursor (length (e ∷ events))) (e ∷ events))
          no_tokens)
        (record state { event_cursor = some (pos (length (e ∷ events))) }, cost)
