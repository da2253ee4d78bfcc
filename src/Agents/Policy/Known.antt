-- ===== src/Agents/Policy/Known.antt =====
-- No policy of app/configs/agent_policy.py enables an agent that does not exist.
use ekaette.Prelude.{
  String, ◌≡◌, refl, sym, ap, ◌∙◌, inl, inr, Bool, true, false, ◌&&◌, ◌||◌, Option, none, some,
  List, [], ◌∷◌, ◌++◌, arith, str_eq, eq_iff, if◌then◌else◌, Bool-cases, All, strip,
}
use ekaette.Dict.{Dict, key_in, lookup}
use ekaette.Tools.Answers.{lowers_to}
use ekaette.Agents.Policy.{
  or_support, StateValue, items, text, other, known_sub_agent_names, default_enabled_agents,
  known_names, normalize_enabled_agents, stripped_texts, agents_for, infer_from_texts,
  infer_enabled_agents_from_capabilities, first_of, find_defaults, defaults_for,
  resolve_enabled_agents_from_state, resolve_enabled_agents_from_template,
}

-- Every name is that of an agent.
abbrev pub IsKnown : List String → Type 0
IsKnown agents = All (λ agent. key_in agent known_sub_agent_names ≡ true) agents

abbrev pub IsPolicy : Option (List String) → Type 0
IsPolicy none = Unit
IsPolicy (some agents) = IsKnown agents

known_names-IsKnown : (raw : List (Option String)) → IsKnown (known_names raw)
unfolding known_names
known_names-IsKnown [] = tt
known_names-IsKnown (none ∷ raw) = known_names-IsKnown raw
known_names-IsKnown (some agent ∷ raw) =
    elim (Bool-cases (key_in (strip agent) known_sub_agent_names)) [
      | inl known ↦ rw known (known, known_names-IsKnown raw)
      | inr unknown ↦ rw unknown (known_names-IsKnown raw)
    ]

normalize-IsPolicy : (o : Option StateValue) → IsPolicy (normalize_enabled_agents o)
unfolding normalize_enabled_agents
normalize-IsPolicy none = tt
normalize-IsPolicy (some (items raw)) = known_names-IsKnown raw
normalize-IsPolicy (some (text s)) = tt
normalize-IsPolicy (some other) = tt

IsKnown-append : (xs ys : List String) → IsKnown xs → IsKnown ys → IsKnown (xs ++ ys)
IsKnown-append [] ys h k = k
IsKnown-append (x ∷ xs) ys h k = (h.0, IsKnown-append xs ys h.1 k)

optional-IsKnown : (b : Bool) (xs : List String) → IsKnown xs → IsKnown (if b then xs else [])
optional-IsKnown true xs h = h
optional-IsKnown false xs h = tt

agents_for-IsKnown : (caps : List String) → IsKnown (agents_for caps)
unfolding agents_for
agents_for-IsKnown caps = (
  refl,
  IsKnown-append _ _
      (optional-IsKnown (key_in "catalog_lookup" caps) ("catalog_agent" ∷ []) (refl, tt))
      (IsKnown-append _ _
        (optional-IsKnown (key_in "booking_reservations" caps) ("booking_agent" ∷ []) (refl, tt))
        (optional-IsKnown (key_in "valuation_tradein" caps)
          ("vision_agent" ∷ "valuation_agent" ∷ []) (refl, (refl, tt)))),
)

infer_from_texts-IsPolicy : (caps : List String) → IsPolicy (infer_from_texts caps)
infer_from_texts-IsPolicy [] = tt
infer_from_texts-IsPolicy (cap ∷ caps) = agents_for-IsKnown (cap ∷ caps)

infer-IsPolicy : (o : Option StateValue) → IsPolicy (infer_enabled_agents_from_capabilities o)
unfolding infer_enabled_agents_from_capabilities
infer-IsPolicy none = tt
infer-IsPolicy (some (items raw)) = infer_from_texts-IsPolicy (stripped_texts raw)
infer-IsPolicy (some (text s)) = tt
infer-IsPolicy (some other) = tt

AreDefaults : Dict (List String) → Type 0
AreDefaults defaults = All (λ (entry : String × List String). IsKnown entry.1) defaults

find_defaults-IsPolicy :
    (name : String) (defaults : Dict (List String))
    → AreDefaults defaults
    → IsPolicy (find_defaults name defaults)
unfolding find_defaults AreDefaults
find_defaults-IsPolicy name [] h = tt
find_defaults-IsPolicy name ((industry, agents) ∷ defaults) h =
    elim (Bool-cases (lowers_to (strip name) industry)) [
      | inl here ↦ rw here h.0
      | inr there ↦ rw there (find_defaults-IsPolicy name defaults h.1)
    ]

default_enabled_agents-AreDefaults : AreDefaults default_enabled_agents
unfolding AreDefaults
default_enabled_agents-AreDefaults =
    let every : IsKnown known_sub_agent_names = (refl, (refl, (refl, (refl, (refl, tt))))) in
    let one : IsKnown ("support_agent" ∷ []) = (refl, tt) in
    let two : IsKnown ("catalog_agent" ∷ "support_agent" ∷ []) = (refl, (refl, tt)) in
    (every, ((refl, (refl, tt)), (every, (two, (two, (one, (one, tt)))))))

defaults_for-IsPolicy : (o : Option StateValue) → IsPolicy (defaults_for o)
unfolding defaults_for
defaults_for-IsPolicy none = tt
defaults_for-IsPolicy (some (items raw)) = tt
defaults_for-IsPolicy (some (text name)) =
    find_defaults-IsPolicy name default_enabled_agents default_enabled_agents-AreDefaults
defaults_for-IsPolicy (some other) = tt

first_of-IsPolicy : (o p : Option (List String)) → IsPolicy o → IsPolicy p → IsPolicy (first_of o p)
first_of-IsPolicy none p h k = k
first_of-IsPolicy (some agents) p h k = h

or_support-IsKnown : (o : Option (List String)) → IsPolicy o → IsKnown (or_support o)
or_support-IsKnown none h = (refl, tt)
or_support-IsKnown (some agents) h = h

-- Whatever a state or a template holds, only agents that exist are enabled.
resolved-IsKnown :
    (state template : Dict StateValue) (capabilities : Option StateValue)
    → IsPolicy (resolve_enabled_agents_from_state state)
      × IsKnown (resolve_enabled_agents_from_template template capabilities)
unfolding resolve_enabled_agents_from_state resolve_enabled_agents_from_template
resolved-IsKnown state template capabilities =
    let own = normalize-IsPolicy (lookup "app:enabled_agents" state) in
    let by_template = defaults_for-IsPolicy (lookup "app:industry_template_id" state) in
    let by_industry = defaults_for-IsPolicy (lookup "app:industry" state) in
    let inferred = infer-IsPolicy (lookup "app:capabilities" state) in
    (
      first_of-IsPolicy _ _ own
          (first_of-IsPolicy _ _ by_template (first_of-IsPolicy _ _ by_industry inferred)),
      or_support-IsKnown _ (
          first_of-IsPolicy _ _ (normalize-IsPolicy (lookup "enabled_agents" template))
            (infer-IsPolicy capabilities)),
    )

key_in-if :
    (b : Bool) (agent name : String) (rest : List String)
    → key_in agent (if b then name ∷ rest else rest)
      ≡ (if b then str_eq name agent || key_in agent rest else key_in agent rest)
key_in-if true agent name rest = refl
key_in-if false agent name rest = refl

key_in-unless :
    (b : Bool) (agent name : String) (rest : List String)
    → key_in agent (if b then rest else name ∷ rest)
      ≡ (if b then key_in agent rest else str_eq name agent || key_in agent rest)
key_in-unless true agent name rest = refl
key_in-unless false agent name rest = refl

-- One more name, by what the two filters say of it.
filter_step :
    (known empty here rest_known rest_texts agent_known : Bool)
    → (here ≡ true → agent_known ≡ known)
    → (empty ≡ true → known ≡ false)
    → rest_known ≡ (rest_texts && agent_known)
    → (if known then here || rest_known else rest_known)
      ≡ ((if empty then rest_texts else here || rest_texts) && agent_known)
filter_step known empty here rest_known rest_texts agent_known same blank ih =
    ground (arith, same, blank)

key_in-known_names :
    (raw : List (Option String)) (agent : String)
    → key_in agent (known_names raw)
      ≡ (key_in agent (stripped_texts raw) && key_in agent known_sub_agent_names)
unfolding known_names stripped_texts
key_in-known_names [] agent = refl
key_in-known_names (none ∷ raw) agent = key_in-known_names raw agent
key_in-known_names (some name ∷ raw) agent =
    key_in-if (key_in (strip name) known_sub_agent_names) agent (strip name) (known_names raw)
    ∙ filter_step (key_in (strip name) known_sub_agent_names) (str_eq (strip name) "")
        (str_eq (strip name) agent) (key_in agent (known_names raw))
        (key_in agent (stripped_texts raw)) (key_in agent known_sub_agent_names)
        (λ h.
          ap (λ (a : String). key_in a known_sub_agent_names)
            (sym ((eq_iff (strip name) agent).0 h)))
        (λ h. ap (λ (a : String). key_in a known_sub_agent_names) ((eq_iff (strip name) "").0 h))
        (key_in-known_names raw agent)
    ∙ ap (λ (b : Bool). b && key_in agent known_sub_agent_names)
        (sym (key_in-unless (str_eq (strip name) "") agent (strip name) (stripped_texts raw)))

-- An explicit list in the state decides, also if it enables nothing: the enabled agents are the
-- names in it, stripped, that are those of agents, and neither the industry nor the capabilities add
-- one.
pub explicit_list_decides :
    (state : Dict StateValue) (raw : List (Option String)) (agent : String)
    → lookup "app:enabled_agents" state ≡ some (items raw)
    → (agents : List String) × (resolve_enabled_agents_from_state state ≡ some agents)
      × (key_in agent agents
          ≡ (key_in agent (stripped_texts raw) && key_in agent known_sub_agent_names))
unfolding resolve_enabled_agents_from_state normalize_enabled_agents
explicit_list_decides state raw agent h =
    (known_names raw, rw (resolve_enabled_agents_from_state, h) refl, key_in-known_names raw agent)
