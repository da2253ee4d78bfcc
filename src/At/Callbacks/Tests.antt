-- ===== src/At/Callbacks/Tests.antt =====
-- Deliveries to app/api/v1/at/idempotency.py: one, its retry, and the same event six minutes later.
use ekaette.Prelude.{ℕ, ◌*◌, ◌≡◌, refl, true, false, none, List, [], ◌∷◌, arith, second}
use ekaette.At.Callbacks.Refinement.{Delivery, answers, spec_answers, answers-eq-spec_answers}

abbrev minute : ℕ
minute = 60 * second

abbrev deliveries : List Delivery
deliveries =
    record { session_id = "s"; event_key = "e"; at = 1 }
    ∷ record { session_id = "s"; event_key = "e"; at = minute }
    ∷ record { session_id = "s"; event_key = "e"; at = 7 * minute }
    ∷ []

deliveries_spec : spec_answers deliveries (λ j. none) ≡ false ∷ true ∷ false ∷ []
unfolding spec_answers
deliveries_spec = refl

answers-eq-spec_answers_example : answers deliveries [] ≡ spec_answers deliveries (λ j. none)
answers-eq-spec_answers_example = answers-eq-spec_answers deliveries (omega arith)
