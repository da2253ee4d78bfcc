-- ===== src/Agents/Messages/Results.antt =====
-- `after_tool_emit_messages` of app/agents/callbacks.py: the message that a tool's result queues.
use Prim.Native.String.{◌++◌ as str_append}
use ekaette.Prelude.{
  ℕ, zero, suc, String, Bool, true, false, Option, none, some, str_eq, ltb, if◌then◌else◌,
}
use ekaette.Prelude.Int.{ℤ, pos, negsuc}
use ekaette.Agents.Messages.{
  Json, null, flag, number, text, list, dict, Items, nil, cons, Fields, end, field, get, get_or,
  truthy, Session, queue_server_message, tool_error_server_message,
}

abbrev pub message_of : String → Fields → Fields
message_of type rest = field "type" (text type) rest

-- `d.get(key, default)` of a result
abbrev pub or_text : String → String → Fields → Json
or_text key default result = get_or (text default) (get key result)

abbrev pub items_length : Items → ℕ
items_length nil = 0
items_length (cons x xs) = suc (items_length xs)

abbrev pub question_count : Option Json → ℕ
question_count (some (list questions)) = items_length questions
question_count _ = 0

abbrev pub preview : Option Json → Fields
preview (some (text uri)) = if str_eq uri "" then end else field "previewUrl" (text uri) end
preview _ = end

abbrev pub first_items : ℕ → Items → Items
first_items zero xs = nil
first_items (suc n) nil = nil
first_items (suc n) (cons x xs) = cons x (first_items n xs)

-- `if key in result: message[name] = result[key]`
abbrev pub copy_as : String → Option Json → Fields → Fields
copy_as name none rest = rest
copy_as name (some v) rest = field name v rest

-- a price that is shown: a text, or a whole number
abbrev pub price_of : Option Json → Json
price_of (some (number n)) = number n
price_of (some (flag true)) = number (pos 1)
price_of (some (text s)) = text s
price_of _ = number (pos 0)

abbrev pub is_positive : ℤ → Bool
is_positive (pos n) = ltb 0 n
is_positive (negsuc n) = false

abbrev pub questions_message : Fields → Fields
questions_message result =
    message_of "questionnaire_started"
      (field "questionCount" (number (pos (question_count (get "questions" result)))) end)

abbrev pub booking_message : Fields → Fields
booking_message result = message_of "booking_confirmation" (
    field "confirmationId" (or_text "confirmation_id" "" result) (
      field "date" (or_text "date" "" result) (
        field "time" (or_text "time" "" result) (
          field "location" (or_text "location" "" result)
            (field "service" (or_text "service_type" "" result) end)))))

module _ (show : Json → String) (read_int : String → Option ℤ) where
  -- `int(result.get("offer_amount") or 0)`; none where `int` raises
  unfoldable pub offer_amount : Option Json → Option ℤ
  offer_amount none = some (pos 0)
  offer_amount (some null) = some (pos 0)
  offer_amount (some (flag b)) = some (if b then pos 1 else pos 0)
  offer_amount (some (number n)) = some n
  offer_amount (some (text s)) = if str_eq s "" then some (pos 0) else read_int s
  offer_amount (some (list nil)) = some (pos 0)
  offer_amount (some (list (cons x xs))) = none
  offer_amount (some (dict end)) = some (pos 0)
  offer_amount (some (dict (field k v rest))) = none

  -- `", ".join(str(item) for item in features)`
  unfoldable pub join : Items → String
  join nil = ""
  join (cons x nil) = show x
  join (cons x (cons y xs)) = str_append (show x) (str_append ", " (join (cons y xs)))

  unfoldable pub described : Option Json → Option Json → String
  unfolding join
  described (some (list (cons x xs))) description = join (first_items 3 (cons x xs))
  described features (some (text s)) = s
  described features description = ""

  unfoldable pub format_product_description : Fields → String
  unfolding described
  format_product_description product =
      described (get "features" product) (get "description" product)

  unfoldable pub product_of : Fields → Fields
  unfolding format_product_description
  product_of item = field "name" (or_text "name" "Unknown" item) (
      field "price" (price_of (get "price" item)) (
        field "currency" (or_text "currency" "NGN" item) (
          field "available" (flag (truthy (get "in_stock" item)))
            (field "description" (text (format_product_description item)) end))))

  unfoldable pub products_of : Items → Items
  unfolding product_of
  products_of nil = nil
  products_of (cons (dict item) items) = cons (dict (product_of item)) (products_of items)
  products_of (cons item items) = products_of items

  unfoldable pub emit_products : Option Json → Session → Session
  unfolding products_of queue_server_message
  emit_products (some (list items)) state =
      queue_server_message
        (message_of "product_recommendation"
          (field "products" (list (products_of (first_items 3 items))) end))
        state
  emit_products _ state = state

  abbrev pub valuation_message : ℤ → Fields → Fields
  valuation_message offer result = message_of "valuation_result" (
      field "deviceName" (or_text "device_name" "Unknown" result) (
        field "condition" (or_text "grade" "Fair" result) (
          field "price" (number offer) (
            field "currency" (or_text "currency" "NGN" result) (
              field "details" (or_text "summary" "" result) (
                field "negotiable" (flag (is_positive offer)) (
                  copy_as "originalGrade" (get "original_vision_grade" result)
                    (copy_as "adjustments" (get "adjustments" result) end))))))))

  unfoldable pub emit_valuation : Option ℤ → Fields → Session → Option Session
  unfolding queue_server_message
  emit_valuation none result state = none
  emit_valuation (some offer) result state = some (
      queue_server_message (valuation_message offer result)
        (record state { last_offer_amount = some offer }))

  unfoldable pub emit_analysis : Fields → Session → Session
  unfolding queue_server_message
  emit_analysis result state =
      queue_server_message
        (message_of "image_received"
          (field "status" (text "complete") (preview (get "gcs_uri" result))))
        (record state {
          last_analysis = some (
              field "device_name" (or_text "device_name" "Unknown" result) (
                field "condition" (or_text "condition" "Unknown" result)
                  (field "details" (get_or (dict end) (get "details" result)) end)));
        })

  -- none where the callback raises
  unfoldable pub emit_result : String → Fields → Session → Option Session
  unfolding emit_analysis emit_valuation emit_products offer_amount queue_server_message get
  emit_result tool_name result state =
      if str_eq tool_name "analyze_device_image_tool"
      then some (emit_analysis result state)
      else if str_eq tool_name "get_device_questionnaire_tool"
      then some (queue_server_message (questions_message result) state)
      else if str_eq tool_name "grade_and_value_tool"
      then emit_valuation (offer_amount (get "offer_amount" result)) result state
      else if str_eq tool_name "create_booking"
      then some (queue_server_message (booking_message result) state)
      else if str_eq tool_name "search_catalog"
      then some (emit_products (get "products" result) state)
      else some state

  -- `effective_result` is none where it is no dict.
  unfoldable pub after_tool_emit_messages : String → Option Fields → Session → Option Session
  unfolding emit_result tool_error_server_message queue_server_message get
  after_tool_emit_messages tool_name none state = some state
  after_tool_emit_messages tool_name (some result) state =
      if truthy (get "error" result)
      then some (queue_server_message (tool_error_server_message show result) state)
      else emit_result tool_name result state
