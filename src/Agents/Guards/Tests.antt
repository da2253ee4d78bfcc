-- ===== src/Agents/Guards/Tests.antt =====
-- A hotel's session in app/agents/callbacks.py, which may book and not sell.
use ekaette.Prelude.{String, ◌≡◌, refl, Option, none, some, List, [], ◌∷◌, All, strip}
use ekaette.Prelude.Int.{ℤ, pos}
use ekaette.Dict.{lookup}
use ekaette.Agents.Policy.{StateValue, resolve_enabled_agents_from_state}
use ekaette.Agents.Policy
use ekaette.Agents.Dedup.{DedupState}
use ekaette.Agents.Messages.{
  next_server_message_id, on_tool_error_emit, Json, text, end, field, Session,
}
use ekaette.Agents.Messages.Results.{after_tool_emit_messages}
use ekaette.Agents.Guards.{
  before_agent_isolation_guard_and_dedup, before_tool_capability_guard_and_log,
  tool_transfer_target_agent_name,
}
use ekaette.Agents.Guards.Trace.{
  step, Callback, before_agent, before_tool, after_tool, tool_error, agent, nothing, tool, all_let,
  IsPermitted, all_let-IsPermitted,
}
use ekaette.Agents.Guards.Heard.{Counts, after_all, all_heard, all_heard-Counts}

same : String → String
same s = s

shown : Json → String
shown (text s) = s
shown _ = "?"

no_number : String → Option ℤ
no_number s = none

abbrev hotel : Session
hotel = record {
  entries =
      ("app:industry", Policy.text " Hotel ")
      ∷ ("app:capabilities", Policy.items (some "policy_qa" ∷ []))
      ∷ [];
  server_message_seq = none;
  last_server_message = none;
  last_analysis = none;
  last_offer_amount = none;
}

abbrev no_transfer : DedupState
no_transfer = record {
  last_agent = none;
  last_ts = none;
  last_signature = none;
  last_turn_hash = none;
}

abbrev calls : List Callback
calls =
    before_agent "booking_agent" "text:hi" 10
    ∷ before_agent "catalog_agent" "text:hi" 11
    ∷ before_tool "transfer_to_catalog_agent" []
    ∷ before_tool "create_booking" []
    ∷ before_tool "search_company_knowledge" []
    ∷ after_tool "create_booking" (some (field "error" (text "full") end))
    ∷ tool_error "create_booking"
    ∷ []

target_named : tool_transfer_target_agent_name "transfer_to_catalog_agent" [] ≡ some "catalog_agent"
unfolding tool_transfer_target_agent_name strip lookup
target_named = refl

hotel_let :
    all_let same shown no_number calls (hotel, no_transfer)
    ≡ agent "booking_agent"
      ∷ nothing
      ∷ nothing
      ∷ nothing
      ∷ tool "search_company_knowledge" []
      ∷ nothing
      ∷ nothing
      ∷ []
unfolding all_let strip lookup before_agent_isolation_guard_and_dedup
    before_tool_capability_guard_and_log
hotel_let = refl

hotel_heard : all_heard same shown no_number calls (hotel, no_transfer) ≡ pos 1 ∷ pos 2 ∷ pos 3 ∷ []
unfolding all_heard strip lookup step before_agent_isolation_guard_and_dedup next_server_message_id
    after_tool_emit_messages on_tool_error_emit
hotel_heard = refl

all_let-IsPermitted_example :
    All (IsPermitted hotel.entries) (all_let same shown no_number calls (hotel, no_transfer))
all_let-IsPermitted_example = all_let-IsPermitted same shown no_number calls hotel no_transfer

all_heard-Counts_example :
    Counts none
      (after_all same shown no_number calls (hotel, no_transfer)).0.server_message_seq
      (all_heard same shown no_number calls (hotel, no_transfer))
all_heard-Counts_example = all_heard-Counts same shown no_number calls hotel no_transfer refl
