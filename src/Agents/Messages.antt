-- ===== src/Agents/Messages.antt =====
-- app/agents/callbacks.py: the messages that the callbacks queue for the web socket. Python's `str`
-- of a value and `int` of a text are parameters; the numbers of a tool's result are integers.
pub mod Numbering
pub mod Results
mod Tests
use Prim.Native.String.{◌++◌ as str_append}
use ekaette.Prelude.{
  zero, suc, String, Bool, true, false, not, Option, none, some, List, [], ◌∷◌, str_eq,
  if◌then◌else◌, strip,
}
use ekaette.Prelude.Int.{ℤ, pos, negsuc, ltb_ℤ, ◌+ℤ◌}
use ekaette.Dict.{Dict, lookup, insert}
use ekaette.Agents.Policy.{StateValue}

-- A value of a tool's result or of a message.
mutual
  pub data Json : Type 0 where
    null : Json
    flag : Bool → Json
    number : ℤ → Json
    text : String → Json
    list : Items → Json
    dict : Fields → Json

  pub data Items : Type 0 where
    nil : Items
    cons : Json → Items → Items

  pub data Fields : Type 0 where
    end : Fields
    field : String → Json → Fields → Fields

-- `d.get(key)`
unfoldable pub get : String → Fields → Option Json
get key end = none
get key (field k v rest) = if str_eq k key then some v else get key rest

-- `d.get(key, default)`
abbrev pub get_or : Json → Option Json → Json
get_or default none = default
get_or default (some v) = v

-- `bool(v)`, of a key that may be missing
abbrev pub truthy : Option Json → Bool
truthy none = false
truthy (some null) = false
truthy (some (flag b)) = b
truthy (some (number (pos zero))) = false
truthy (some (number (pos (suc n)))) = true
truthy (some (number (negsuc n))) = true
truthy (some (text s)) = not (str_eq s "")
truthy (some (list nil)) = false
truthy (some (list (cons x xs))) = true
truthy (some (dict end)) = false
truthy (some (dict (field k v rest))) = true

-- The session's state: what the guards read, and the "temp:" keys that the callbacks write. Of
-- "temp:server_message_seq" no number is kept where it is missing.
pub record Session : Type 0 where
  pub entries : Dict StateValue
  pub server_message_seq : Option ℤ
  pub last_server_message : Option (ℤ × Fields)
  pub last_analysis : Option Fields
  pub last_offer_amount : Option ℤ

unfoldable pub next_server_message_id : Option ℤ → ℤ
unfolding ◌+ℤ◌
next_server_message_id none = pos 1
next_server_message_id (some current) = current +ℤ pos 1

-- A message is its id and its other fields.
unfoldable pub queue_server_message : Fields → Session → Session
queue_server_message payload state =
    let message_id = next_server_message_id state.server_message_seq in
    record state {
      server_message_seq = some message_id;
      last_server_message = some (message_id, payload);
    }

-- `for key in keys: if key in result: payload[key] = result[key]`, behind the first fields
unfoldable pub copy_keys : List String → Fields → Fields
unfolding get
copy_keys [] result = end
copy_keys (key ∷ keys) result =
    let rest = copy_keys keys result in
    elim (get key result) [ none ↦ rest | some v ↦ field key v rest ]

-- The stripped text of a value that is a text.
abbrev pub text_of : Option Json → String
text_of (some (text s)) = strip s
text_of _ = ""

abbrev pub error_message : String → String → Fields → Fields
error_message code message rest =
    field "type" (text "error") (field "code" (text code) (field "message" (text message) rest))

abbrev pub copied_keys : List String
copied_keys =
    "agentName" ∷ "allowedAgents" ∷ "tenantId" ∷ "industryTemplateId" ∷ "tool" ∷ "required" ∷ []

-- `error_raw == "capability_not_enabled"`
abbrev pub is_text : String → Option Json → Bool
is_text s (some (text t)) = str_eq t s
is_text s _ = false

module _ (show : Json → String) where
  -- `str(error_raw or "Tool error")`
  abbrev pub error_text : Option Json → String
  error_text error_raw = if truthy error_raw then show (get_or null error_raw) else "Tool error"

  unfoldable pub tool_error_server_message : Fields → Fields
  unfolding copy_keys get
  tool_error_server_message result =
      let code = text_of (get "code" result) in
      let message = text_of (get "message" result) in
      if not (str_eq code "")
      then error_message code
          (if str_eq message "" then error_text (get "error" result) else message)
          (copy_keys copied_keys result)
      else if is_text "capability_not_enabled" (get "error" result)
      then error_message "CAPABILITY_NOT_ENABLED"
          "This action is not enabled for the current session."
          (copy_keys ("tool" ∷ "required" ∷ []) result)
      else error_message "TOOL_ERROR" (show (get_or null (get "error" result))) end

  unfoldable pub on_tool_error_emit : String → Session → Session
  unfolding queue_server_message
  on_tool_error_emit tool_name =
      queue_server_message
        (error_message "TOOL_EXCEPTION" (str_append tool_name " failed. Please try again.") end)
