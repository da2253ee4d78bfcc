-- ===== src/Agents/Guards.antt =====
-- app/agents/callbacks.py: the guards before an agent and before a tool, which keep a session to the
-- agents and the capabilities that are enabled for it.
pub mod Isolation
pub mod Trace
pub mod Heard
mod Tests
use Prim.Native.String.{◌++◌ as str_append}
use ekaette.Prelude.{
  ℕ, String, Bool, true, false, ◌&&◌, ◌||◌, Option, none, some, List, [], ◌∷◌, str_eq,
  if◌then◌else◌, strip,
}
use ekaette.Dict.{Dict, lookup, key_in}
use ekaette.At.Webhooks.{remove_prefix, starts_with}
use ekaette.Agents.Policy.{StateValue, known_sub_agent_names, resolve_enabled_agents_from_state}
use ekaette.Agents.Policy
use ekaette.Agents.Dedup.{DedupState, root_agent_name, dedup_before_agent}
use ekaette.Agents.Messages.{
  Json, list, Items, nil, cons, Fields, end, field, Session, queue_server_message,
}
use ekaette.Agents.Messages

abbrev pub tool_capability_map : Dict String
tool_capability_map =
    ("create_booking", "booking_reservations")
    ∷ ("cancel_booking", "booking_reservations")
    ∷ ("check_availability", "booking_reservations")
    ∷ ("search_catalog", "catalog_lookup")
    ∷ ("get_product_details", "catalog_lookup")
    ∷ ("analyze_device_image_tool", "valuation_tradein")
    ∷ ("grade_and_value_tool", "valuation_tradein")
    ∷ ("grade_condition", "valuation_tradein")
    ∷ ("calculate_trade_in_value", "valuation_tradein")
    ∷ ("search_company_knowledge", "policy_qa")
    ∷ ("get_company_profile_fact", "policy_qa")
    ∷ ("query_company_system", "connector_dispatch")
    ∷ ("send_whatsapp_message", "outbound_messaging")
    ∷ ("get_device_questionnaire_tool", "valuation_tradein")
    ∷ []

-- The stripped text of a value, if it is a text with more than spaces.
abbrev pub name_of : Option StateValue → Option String
name_of (some (Policy.text s)) = if str_eq (strip s) "" then none else some (strip s)
name_of _ = none

abbrev pub or_else {ℓ} : {A : Type ℓ} → A → Option A → A
or_else default none = default
or_else default (some a) = a

unfoldable pub industry_scope_label : Dict StateValue → String
unfolding lookup
industry_scope_label state =
    or_else (or_else "current" (name_of (lookup "app:industry" state)))
      (name_of (lookup "app:industry_template_id" state))

unfoldable pub agent_not_enabled_message : String → String → String
agent_not_enabled_message scope_label agent_name = str_append "This " (
    str_append scope_label (
      str_append " session is isolated and cannot switch to '"
        (str_append agent_name "'. I can only use the agents enabled for the current industry.")))

abbrev pub texts : List String → Items
texts [] = nil
texts (s ∷ ss) = cons (Messages.text s) (texts ss)

-- `if isinstance(value, str) and value: payload[key] = value`
abbrev pub optional_field : String → Option StateValue → Fields → Fields
optional_field key (some (Policy.text s)) rest =
    if str_eq s "" then rest else field key (Messages.text s) rest
optional_field key _ rest = rest

-- the fields behind those that a caller adds
unfoldable pub agent_not_enabled_payload : Dict StateValue → String → List String → Fields → Fields
unfolding lookup industry_scope_label agent_not_enabled_message
agent_not_enabled_payload state agent_name allowed_agents added =
    field "type" (Messages.text "error") (
      field "code" (Messages.text "AGENT_NOT_ENABLED") (
        field "message"
          (Messages.text (agent_not_enabled_message (industry_scope_label state) agent_name))
          (field "agentName" (Messages.text agent_name) (
            field "allowedAgents" (list (texts allowed_agents)) (
              optional_field "tenantId" (lookup "app:tenant_id" state) (
                optional_field "industryTemplateId" (lookup "app:industry_template_id" state)
                  added))))))

-- `args.get("agent_name", args.get("agentName"))`, a text with more than spaces
unfoldable pub requested_transfer_agent_name : Dict StateValue → Option String
unfolding lookup
requested_transfer_agent_name args = elim (lookup "agent_name" args) [
  | none ↦ name_of (lookup "agentName" args)
  | some raw ↦ name_of (some raw)
]

unfoldable pub is_transfer_tool_name : String → Bool
unfolding starts_with
is_transfer_tool_name tool_name =
    str_eq tool_name "transfer_to_agent" || starts_with "transfer_to_" tool_name

-- the agent that a tool's name names
unfoldable pub named_target : String → Option String
unfolding starts_with remove_prefix
named_target tool_name =
    let candidate = strip (remove_prefix "transfer_to_" tool_name) in
    if starts_with "transfer_to_" tool_name && key_in candidate known_sub_agent_names
    then some candidate
    else none

unfoldable pub tool_transfer_target_agent_name : String → Dict StateValue → Option String
unfolding is_transfer_tool_name requested_transfer_agent_name named_target
tool_transfer_target_agent_name tool_name args =
    if is_transfer_tool_name tool_name
    then elim (requested_transfer_agent_name args) [
      | none ↦ named_target tool_name
      | some requested ↦ some requested
    ]
    else none

-- `enabled_agents is None or agent in enabled_agents`
abbrev pub is_enabled : Option (List String) → String → Bool
is_enabled none agent = true
is_enabled (some allowed) agent = key_in agent allowed

abbrev pub listed : Option (List String) → List String
listed none = []
listed (some allowed) = allowed

-- the text that answers instead of the agent, and the state
unfoldable pub before_agent_isolation_guard : String → Session → Option String × Session
unfolding resolve_enabled_agents_from_state agent_not_enabled_payload queue_server_message
before_agent_isolation_guard agent_name state =
    let enabled_agents = resolve_enabled_agents_from_state state.entries in
    if str_eq agent_name root_agent_name || is_enabled enabled_agents agent_name
    then (none, state)
    else (
      some (agent_not_enabled_message (industry_scope_label state.entries) agent_name),
      queue_server_message
          (agent_not_enabled_payload state.entries agent_name (listed enabled_agents) end) state,
    )

-- What the agent framework gets from a guard before an agent.
pub data AgentAnswer : Type 0 where
  runs : AgentAnswer
  skipped : AgentAnswer
  refused : String → AgentAnswer

module _ (hash : String → String) where
  abbrev pub dedup_answer : Bool × DedupState → Session → AgentAnswer × (Session × DedupState)
  dedup_answer (suppressed, dedup) state = (if suppressed then skipped else runs, (state, dedup))

  abbrev pub after_guard :
      String
      → String
      → ℕ
      → Option String × Session
      → DedupState
      → AgentAnswer × (Session × DedupState)
  after_guard agent_name fingerprint now (some content, state) dedup =
      (refused content, (state, dedup))
  after_guard agent_name fingerprint now (none, state) dedup =
      dedup_answer (dedup_before_agent hash agent_name fingerprint now dedup) state

  unfoldable pub before_agent_isolation_guard_and_dedup :
      String → String → ℕ → Session × DedupState → AgentAnswer × (Session × DedupState)
  unfolding before_agent_isolation_guard dedup_before_agent
  before_agent_isolation_guard_and_dedup agent_name fingerprint now (state, dedup) =
      after_guard agent_name fingerprint now (before_agent_isolation_guard agent_name state) dedup

-- `required in capabilities`, of a list whose elements are texts or others
abbrev pub in_items : String → List (Option String) → Bool
in_items s [] = false
in_items s (none ∷ raw) = in_items s raw
in_items s (some t ∷ raw) = str_eq t s || in_items s raw

abbrev pub has_capability : String → Option StateValue → Bool
has_capability required (some (Policy.items capabilities)) = in_items required capabilities
has_capability required _ = true

-- What the agent framework gets from a guard before a tool: none lets the tool run.
unfoldable pub before_tool_capability_guard : String → Dict StateValue → Option Fields
unfolding lookup
before_tool_capability_guard tool_name state = elim (lookup tool_name tool_capability_map) [
  | none ↦ none
  | some required ↦
      if has_capability required (lookup "app:capabilities" state)
      then none
      else some (
          field "error" (Messages.text "capability_not_enabled") (
            field "tool" (Messages.text tool_name) (field "required" (Messages.text required) end)))
]

unfoldable pub before_tool_agent_transfer_guard :
    String → Dict StateValue → Dict StateValue → Option Fields
unfolding tool_transfer_target_agent_name resolve_enabled_agents_from_state
    agent_not_enabled_payload
before_tool_agent_transfer_guard tool_name args state =
    elim (tool_transfer_target_agent_name tool_name args) [
      | none ↦ none
      | some target ↦
          let enabled_agents = resolve_enabled_agents_from_state state in
          if is_enabled enabled_agents target
          then none
          else some (
              agent_not_enabled_payload state target (listed enabled_agents) (
                field "error" (Messages.text "agent_not_enabled")
                  (field "tool" (Messages.text tool_name) end)))
    ]

unfoldable pub before_tool_capability_guard_and_log :
    String → Dict StateValue → Dict StateValue → Option Fields
unfolding before_tool_agent_transfer_guard before_tool_capability_guard
before_tool_capability_guard_and_log tool_name args state =
    elim (before_tool_agent_transfer_guard tool_name args state) [
      | none ↦ before_tool_capability_guard tool_name state
      | some blocked ↦ some blocked
    ]
