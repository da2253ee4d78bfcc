-- ===== src/Agents/Telemetry/Tests.antt =====
-- Three turns of a session, the second without usage.
use ekaette.Prelude.{ℕ, ◌+◌, ◌≡◌, refl, Option, none, some, List, [], ◌∷◌}
use ekaette.Prelude.Int.{ℤ, pos, negsuc}
use ekaette.Agents.Telemetry.{Usage, add_events, extract_int, telemetry_after_agent, usage_tokens}
use ekaette.Agents.Telemetry.Once.{Counts, turns, flatten, no_counts, turns-Counts}

abbrev usage_of : ℕ → ℕ → Option ℤ → Usage
usage_of p c t = record {
  prompt_token_count = some (pos p);
  prompt_tokens = none;
  candidates_token_count = none;
  completion_token_count = some (pos c);
  completion_tokens = none;
  total_token_count = t;
  total_tokens = none;
}

abbrev session : List (List (Option Usage))
session =
    (some (usage_of 10 5 none) ∷ none ∷ []) ∷ [] ∷ (some (usage_of 3 4 (some (pos 9))) ∷ []) ∷ []

abbrev at_one : ℕ → ℕ → ℕ → ℕ
at_one p c cost = cost + p + c

fallback_taken : extract_int (some (negsuc 3) ∷ none ∷ some (pos 7) ∷ []) ≡ 7
unfolding extract_int
fallback_taken = refl

session_total : (turns at_one [] session (no_counts, 0)).0.session_total_tokens ≡ some 24
unfolding turns telemetry_after_agent add_events usage_tokens
session_total = refl

session_cost : (turns at_one [] session (no_counts, 0)).1 ≡ 22
unfolding turns telemetry_after_agent add_events usage_tokens
session_cost = refl

turns-Counts_example : Counts (flatten session) (turns at_one [] session (no_counts, 0)).0
turns-Counts_example = turns-Counts at_one session 0
