-- ===== src/Agents/Messages/Numbering.antt =====
-- Each callback of app/agents/callbacks.py queues one message at most, with the next number, and
-- leaves the keys that the guards read.
use ekaette.Prelude.{
  String, ◌≡◌, refl, inl, inr, Bool, true, false, Option, none, some, str_eq, if◌then◌else◌,
  Bool-cases,
}
use ekaette.Prelude.Int.{ℤ}
use ekaette.Agents.Messages.{
  Json, text, number, flag, list, dict, null, Fields, get, truthy, Session, next_server_message_id,
  queue_server_message, on_tool_error_emit,
}
use ekaette.Agents.Messages.Results.{
  offer_amount, emit_products, emit_valuation, emit_analysis, emit_result, after_tool_emit_messages,
  questions_message, booking_message,
}

-- Nothing was queued, or the message with the next number.
pub data Queues (before after : Session) : Type 0 where
  silent :
      after.server_message_seq ≡ before.server_message_seq
      → after.last_server_message ≡ before.last_server_message
      → Queues before after
  spoke :
      (payload : Fields)
      → after.server_message_seq ≡ some (next_server_message_id before.server_message_seq)
      → after.last_server_message ≡ some (next_server_message_id before.server_message_seq, payload)
      → Queues before after

-- What holds of a callback from one state to another.
abbrev pub Keeps : Session → Session → Type 0
Keeps before after = (after.entries ≡ before.entries) × Queues before after

pub Keeps-refl : (s : Session) → Keeps s s
Keeps-refl s = (refl, silent refl refl)

pub queue_server_message-Keeps :
    (payload : Fields) (s : Session) → Keeps s (queue_server_message payload s)
unfolding queue_server_message
queue_server_message-Keeps payload s = (refl, spoke payload refl refl)

-- Of a callback that may raise, in which case it leaves the state.
unfoldable pub OptionKeeps : Session → Option Session → Type 0
OptionKeeps s none = Unit
OptionKeeps s (some after) = Keeps s after

if_Keeps :
    (s : Session) (test : Bool) (x y : Option Session)
    → OptionKeeps s x
    → OptionKeeps s y
    → OptionKeeps s (if test then x else y)
if_Keeps s true x y h k = h
if_Keeps s false x y h k = k

some-Keeps : (s : Session) → OptionKeeps s (some s)
unfolding OptionKeeps
some-Keeps s = Keeps-refl s

some_queue-Keeps :
    (payload : Fields) (s : Session) → OptionKeeps s (some (queue_server_message payload s))
unfolding OptionKeeps
some_queue-Keeps payload s = queue_server_message-Keeps payload s

module _ (show : Json → String) (read_int : String → Option ℤ) where
  emit_products-Keeps : (o : Option Json) (s : Session) → Keeps s (emit_products show read_int o s)
  unfolding emit_products
  emit_products-Keeps (some (list items)) s = queue_server_message-Keeps _ s
  emit_products-Keeps none s = Keeps-refl s
  emit_products-Keeps (some null) s = Keeps-refl s
  emit_products-Keeps (some (flag b)) s = Keeps-refl s
  emit_products-Keeps (some (number n)) s = Keeps-refl s
  emit_products-Keeps (some (text t)) s = Keeps-refl s
  emit_products-Keeps (some (dict d)) s = Keeps-refl s

  emit_valuation-Keeps :
      (o : Option ℤ) (result : Fields) (s : Session)
      → OptionKeeps s (emit_valuation show read_int o result s)
  unfolding emit_valuation queue_server_message OptionKeeps
  emit_valuation-Keeps none result s = tt
  emit_valuation-Keeps (some offer) result s = (refl, spoke _ refl refl)

  emit_analysis-Keeps :
      (result : Fields) (s : Session) → OptionKeeps s (some (emit_analysis show read_int result s))
  unfolding emit_analysis queue_server_message OptionKeeps
  emit_analysis-Keeps result s = (refl, spoke _ refl refl)

  some_products-Keeps :
      (o : Option Json) (s : Session) → OptionKeeps s (some (emit_products show read_int o s))
  unfolding OptionKeeps
  some_products-Keeps o s = emit_products-Keeps o s

  emit_result-Keeps :
      (tool_name : String) (result : Fields) (s : Session)
      → OptionKeeps s (emit_result show read_int tool_name result s)
  unfolding emit_result
  emit_result-Keeps tool_name result s =
      let is = str_eq tool_name in
      if_Keeps s (is "analyze_device_image_tool") _ _ (emit_analysis-Keeps result s) (
        if_Keeps s (is "get_device_questionnaire_tool") _ _
          (some_queue-Keeps (questions_message result) s)
          (if_Keeps s (is "grade_and_value_tool") _ _
            (emit_valuation-Keeps (offer_amount show read_int (get "offer_amount" result)) result s)
            (if_Keeps s (is "create_booking") _ _ (some_queue-Keeps (booking_message result) s) (
              if_Keeps s (is "search_catalog") _ _ (some_products-Keeps (get "products" result) s)
                (some-Keeps s)))))

  pub after_tool_emit_messages-Keeps :
      (tool_name : String) (o : Option Fields) (s : Session)
      → OptionKeeps s (after_tool_emit_messages show read_int tool_name o s)
  unfolding after_tool_emit_messages OptionKeeps
  after_tool_emit_messages-Keeps tool_name none s = Keeps-refl s
  after_tool_emit_messages-Keeps tool_name (some result) s =
      elim (Bool-cases (truthy (get "error" result))) [
        | inl error ↦ rw error (queue_server_message-Keeps _ s)
        | inr fine ↦ rw fine (emit_result-Keeps tool_name result s)
      ]

  pub tool_error-Keeps :
      (tool_name : String) (s : Session) → Keeps s (on_tool_error_emit show tool_name s)
  unfolding on_tool_error_emit
  tool_error-Keeps tool_name s = queue_server_message-Keeps _ s
