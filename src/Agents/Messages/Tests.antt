-- ===== src/Agents/Messages/Tests.antt =====
-- Results of tools in app/agents/callbacks.py and the messages that they queue.
use ekaette.Prelude.{String, ◌≡◌, refl, true, Option, none, some, []}
use ekaette.Prelude.Int.{ℤ, pos}
use ekaette.Agents.Messages.{
  Json, flag, number, text, end, field, Session, tool_error_server_message, next_server_message_id,
}
use ekaette.Agents.Messages.Results.{after_tool_emit_messages}

shown : Json → String
shown (text s) = s
shown _ = "?"

no_number : String → Option ℤ
no_number s = none

abbrev fresh : Session
fresh = record {
  entries = [];
  server_message_seq = some (pos 4);
  last_server_message = none;
  last_analysis = none;
  last_offer_amount = none;
}

missing_capability :
    tool_error_server_message shown
      (field "error" (text "capability_not_enabled") (field "tool" (text "create_booking") end))
    ≡ field "type" (text "error") (
        field "code" (text "CAPABILITY_NOT_ENABLED") (
          field "message"
            (text "This action is not enabled for the current session.")
            (field "tool" (text "create_booking") end)))
unfolding tool_error_server_message
missing_capability = refl

offer_queued :
    after_tool_emit_messages shown no_number "grade_and_value_tool"
      (some (field "offer_amount" (number (pos 100)) end))
      fresh
    ≡ some (record fresh {
      server_message_seq = some (pos 5);
      last_offer_amount = some (pos 100);
      last_server_message = some (
        pos 5,
        field "type" (text "valuation_result") (
            field "deviceName" (text "Unknown") (
              field "condition" (text "Fair") (
                field "price" (number (pos 100)) (
                  field "currency"
                    (text "NGN")
                    (field "details" (text "") (field "negotiable" (flag true) end)))))),
      );
    })
unfolding after_tool_emit_messages next_server_message_id
offer_queued = refl
