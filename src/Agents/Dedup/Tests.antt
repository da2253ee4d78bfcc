-- ===== src/Agents/Dedup/Tests.antt =====
-- Transfers of app/agents/dedup.py, with the text itself as its hash.
use ekaette.Prelude.{◌*◌, String, ◌≡◌, refl, true, false, none, List, [], ◌∷◌, second}
use ekaette.Agents.Dedup.Cooldown.{
  Transfer, state_of, suppressed, spec_suppressed, suppressed-eq-spec,
}

same : String → String
same s = s

abbrev transfers : List Transfer
transfers =
    record { agent_name = "vision_agent"; fingerprint = "text:hi"; at = 10 * second }
    ∷ record { agent_name = "vision_agent"; fingerprint = "text:hi"; at = 11 * second }
    ∷ record { agent_name = "ekaette_router"; fingerprint = "text:hi"; at = 11 * second }
    ∷ record { agent_name = "vision_agent"; fingerprint = "text:hi"; at = 13 * second }
    ∷ []

transfers_spec : spec_suppressed same transfers none ≡ false ∷ true ∷ false ∷ false ∷ []
unfolding spec_suppressed same
transfers_spec = refl

suppressed-eq-spec_example :
    suppressed same transfers (state_of same none) ≡ spec_suppressed same transfers none
suppressed-eq-spec_example = suppressed-eq-spec same transfers none
