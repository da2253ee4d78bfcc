-- ===== src/Agents/Policy.antt =====
-- app/configs/agent_policy.py: which agents a session may use.
pub mod Known
mod Tests
use ekaette.Prelude.{String, Option, none, some, List, [], ◌∷◌, ◌++◌, str_eq, if◌then◌else◌, strip}
use ekaette.Dict.{Dict, key_in, lookup}
use ekaette.Tools.Answers.{lowers_to}

-- What a state or a template holds: a list, whose elements are texts or others, a text, or another
-- value.
pub data StateValue : Type 0 where
  items : List (Option String) → StateValue
  text : String → StateValue
  other : StateValue

abbrev pub known_sub_agent_names : List String
known_sub_agent_names =
    "vision_agent" ∷ "valuation_agent" ∷ "booking_agent" ∷ "catalog_agent" ∷ "support_agent" ∷ []

abbrev pub default_enabled_agents : Dict (List String)
default_enabled_agents =
    (
      "electronics",
      "vision_agent" ∷ "valuation_agent" ∷ "booking_agent" ∷ "catalog_agent" ∷ "support_agent" ∷ [],
    )
    ∷ ("hotel", "booking_agent" ∷ "support_agent" ∷ [])
    ∷ (
      "automotive",
      "vision_agent" ∷ "valuation_agent" ∷ "booking_agent" ∷ "catalog_agent" ∷ "support_agent" ∷ [],
    )
    ∷ ("fashion", "catalog_agent" ∷ "support_agent" ∷ [])
    ∷ ("telecom", "catalog_agent" ∷ "support_agent" ∷ [])
    ∷ ("aviation-support", "support_agent" ∷ [])
    ∷ ("aviation", "support_agent" ∷ [])
    ∷ []

-- The known names of a list.
unfoldable pub known_names : List (Option String) → List String
known_names [] = []
known_names (none ∷ raw) = known_names raw
known_names (some agent ∷ raw) =
    let rest = known_names raw in
    if key_in (strip agent) known_sub_agent_names then strip agent ∷ rest else rest

unfoldable pub normalize_enabled_agents : Option StateValue → Option (List String)
unfolding known_names
normalize_enabled_agents (some (items raw)) = some (known_names raw)
normalize_enabled_agents _ = none

-- The stripped texts of a list that are not empty.
unfoldable pub stripped_texts : List (Option String) → List String
stripped_texts [] = []
stripped_texts (none ∷ raw) = stripped_texts raw
stripped_texts (some cap ∷ raw) =
    let rest = stripped_texts raw in if str_eq (strip cap) "" then rest else strip cap ∷ rest

unfoldable pub agents_for : List String → List String
agents_for caps =
    ("support_agent" ∷ [])
    ++ ((if key_in "catalog_lookup" caps then "catalog_agent" ∷ [] else [])
        ++ ((if key_in "booking_reservations" caps then "booking_agent" ∷ [] else [])
            ++ (if key_in "valuation_tradein" caps
                then "vision_agent" ∷ "valuation_agent" ∷ []
                else [])))

abbrev pub infer_from_texts : List String → Option (List String)
infer_from_texts [] = none
infer_from_texts (cap ∷ caps) = some (agents_for (cap ∷ caps))

unfoldable pub infer_enabled_agents_from_capabilities : Option StateValue → Option (List String)
unfolding stripped_texts agents_for
infer_enabled_agents_from_capabilities (some (items raw)) = infer_from_texts (stripped_texts raw)
infer_enabled_agents_from_capabilities _ = none

abbrev pub or_support : Option (List String) → List String
or_support none = "support_agent" ∷ []
or_support (some agents) = agents

abbrev pub first_of : Option (List String) → Option (List String) → Option (List String)
first_of none second_choice = second_choice
first_of (some agents) second_choice = some agents

unfoldable pub resolve_enabled_agents_from_template :
    Dict StateValue → Option StateValue → List String
unfolding normalize_enabled_agents infer_enabled_agents_from_capabilities
resolve_enabled_agents_from_template template capabilities = or_support (
    first_of (normalize_enabled_agents (lookup "enabled_agents" template))
      (infer_enabled_agents_from_capabilities capabilities))

-- the defaults of an industry, by a name that is stripped and lowered
unfoldable pub find_defaults : String → Dict (List String) → Option (List String)
unfolding lowers_to
find_defaults name [] = none
find_defaults name ((industry, agents) ∷ defaults) =
    let rest = find_defaults name defaults in
    if lowers_to (strip name) industry then some agents else rest

unfoldable pub defaults_for : Option StateValue → Option (List String)
unfolding find_defaults
defaults_for (some (text name)) = find_defaults name default_enabled_agents
defaults_for _ = none

unfoldable pub resolve_enabled_agents_from_state : Dict StateValue → Option (List String)
unfolding normalize_enabled_agents defaults_for infer_enabled_agents_from_capabilities
resolve_enabled_agents_from_state state =
    first_of (normalize_enabled_agents (lookup "app:enabled_agents" state)) (
      first_of (defaults_for (lookup "app:industry_template_id" state)) (
        first_of (defaults_for (lookup "app:industry" state))
          (infer_enabled_agents_from_capabilities (lookup "app:capabilities" state))))
