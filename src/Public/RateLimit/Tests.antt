-- ===== src/Public/RateLimit/Tests.antt =====
-- Two clients of app/api/v1/public/core_helpers.py with a limit of two requests in ten seconds.
use ekaette.Prelude.{◌*◌, ◌≡◌, refl, true, false, List, [], ◌∷◌, arith, second}
use ekaette.Public.RateLimit.{recent}
use ekaette.Public.RateLimit.Traffic.{Visit, decisions, spec_decisions, decisions-eq-spec}

abbrev visits : List Visit
visits =
    record { client_ip = "1.1.1.1"; bucket = "at"; at = 10 * second }
    ∷ record { client_ip = "1.1.1.1"; bucket = "at"; at = 11 * second }
    ∷ record { client_ip = "1.1.1.1"; bucket = "at"; at = 12 * second }
    ∷ record { client_ip = "2.2.2.2"; bucket = "at"; at = 12 * second }
    ∷ record { client_ip = "1.1.1.1"; bucket = "at"; at = 20 * second }
    ∷ []

visits_spec :
    spec_decisions 2 (10 * second) visits (λ j. []) ≡ true ∷ true ∷ false ∷ true ∷ true ∷ []
unfolding spec_decisions recent
visits_spec = refl

decisions-eq-spec_example :
    decisions 2 (10 * second) 1000 visits [] 0 ≡ spec_decisions 2 (10 * second) visits (λ j. [])
decisions-eq-spec_example =
    decisions-eq-spec 2 (10 * second) 1000 ("at:1.1.1.1" ∷ "at:2.2.2.2" ∷ []) visits 0 (omega arith)
      (refl, (refl, (refl, (refl, (refl, tt))))) (omega arith)
