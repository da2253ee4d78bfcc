-- ===== src/Agents/Policy/Tests.antt =====
-- A hotel's session in app/configs/agent_policy.py, with and without an explicit list.
use ekaette.Prelude.{String, ◌≡◌, refl, ◌&&◌, none, some, List, [], ◌∷◌, strip}
use ekaette.Dict.{Dict, key_in, lookup}
use ekaette.Tools.Answers.{lowers_to}
use ekaette.Agents.Policy.{
  StateValue, items, text, known_sub_agent_names, stripped_texts, resolve_enabled_agents_from_state,
}
use ekaette.Agents.Policy.Known.{explicit_list_decides}

abbrev hotel : Dict StateValue
hotel = ("app:industry", text " Hotel") ∷ []

abbrev explicit : Dict StateValue
explicit = ("app:enabled_agents", items (some " booking_agent" ∷ some "root" ∷ none ∷ [])) ∷ hotel

hotel_agents :
    resolve_enabled_agents_from_state hotel ≡ some ("booking_agent" ∷ "support_agent" ∷ [])
unfolding resolve_enabled_agents_from_state lookup lowers_to strip
hotel_agents = refl

explicit_agents : resolve_enabled_agents_from_state explicit ≡ some ("booking_agent" ∷ [])
unfolding resolve_enabled_agents_from_state lookup lowers_to strip
explicit_agents = refl

explicit_list_decides_example :
    (agents : List String) × (resolve_enabled_agents_from_state explicit ≡ some agents)
    × (key_in "support_agent" agents ≡ (
        key_in "support_agent" (stripped_texts (some " booking_agent" ∷ some "root" ∷ none ∷ []))
        && key_in "support_agent" known_sub_agent_names))
unfolding lookup
explicit_list_decides_example =
    explicit_list_decides explicit (some " booking_agent" ∷ some "root" ∷ none ∷ []) "support_agent"
      refl
