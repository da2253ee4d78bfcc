-- ===== src/Tools/Shipping/Store.antt =====
-- app/tools/shipping_tools.py: where the order records stand, in memory or in Firestore, and the
-- messages that went out. A document is read as it was set: a payload names every field of an
-- order, so that `merge=True` keeps none of the fields before.
use ekaette.Prelude.Split.{◌<>◌}
use ekaette.Prelude.{
  ℕ, String, Bool, true, false, Option, none, some, List, [], ◌∷◌, str_eq, if◌then◌else◌,
}
use ekaette.Dict.{Dict, lookup, insert}
use ekaette.Agents.Policy.{StateValue}
use ekaette.Tools.ScopedQueries.{scoped_collection_or_global}
use ekaette.Tools.Shipping.Records.{Order}

-- What a tool's call finds around it: whether there is a Firestore client, the state of the tool's
-- context, the clock, which stands still in a call, and how the messages of this call end.
-- `send_sms` returns or raises; WhatsApp answers with a status or raises.
pub record Context : Type 0 where
  pub db : Bool
  pub state : Option (Dict StateValue)
  pub now : String
  pub sms_returns : Bool
  pub whatsapp_status : Option ℕ

-- `AT_SMS_ENABLED`, `WHATSAPP_ENABLED`, `WHATSAPP_ACCESS_TOKEN` and `TOPSHIP_API_KEY`
pub record Settings : Type 0 where
  pub at_sms_enabled : Bool
  pub whatsapp_enabled : Bool
  pub whatsapp_access_token : String
  pub topship_api_key : String

-- The record of an order: a key of `_order_records`, or the path of a document.
pub data Place : Type 0 where
  memory : String → Place
  document : String → Place

abbrev pub same_place : Place → Place → Bool
same_place (memory a) (memory b) = str_eq a b
same_place (memory a) (document b) = false
same_place (document a) (memory b) = false
same_place (document a) (document b) = str_eq a b

pub data MessageChannel : Type 0 where
  sms : MessageChannel
  whatsapp : MessageChannel

-- A message that a provider took, and the order that it is about.
pub record Notice : Type 0 where
  pub place : Place
  pub channel : MessageChannel
  pub phone : String
  pub message : String

pub record Shipping : Type 0 where
  pub order_records : Dict Order
  pub documents : Dict Order
  pub outbox : List Notice

-- "a/b/c/"
unfoldable path_text : List String → String
path_text [] = ""
path_text (part ∷ parts) = part <> ("/" <> path_text parts)

abbrev place_in : String → Option (List String) → Option Place
place_in order_id none = none
place_in order_id (some path) = some (document (path_text path <> order_id))

-- `_orders_collection`: the place of an order, or none for "scope_error"
unfoldable pub orders_collection : Context → String → Option Place
unfolding scoped_collection_or_global path_text
orders_collection c order_id =
    if c.db
    then place_in order_id (scoped_collection_or_global true c.state "orders")
    else some (memory order_id)

abbrev pub stored : Place → Shipping → Option Order
stored (memory id) s = lookup id s.order_records
stored (document path) s = lookup path s.documents

abbrev pub store_at : Place → Order → Shipping → Shipping
store_at (memory id) o s = record s { order_records = insert id o s.order_records }
store_at (document path) o s = record s { documents = insert path o s.documents }

-- `data["order_id"] = order_id`, of a document
abbrev pub with_id : Place → String → Order → Order
with_id (memory id) order_id o = o
with_id (document path) order_id o = record o { order_id = order_id }

abbrev pub identified : Place → String → Option Order → Option Order
identified p order_id none = none
identified p order_id (some o) = some (with_id p order_id o)

-- `_read_order_record`, where the collection is available
abbrev pub read_order_record : Place → String → Shipping → Option Order
read_order_record p order_id s = identified p order_id (stored p s)

-- `_write_order_record`, where the collection is available
abbrev pub write_order_record : Context → Place → String → Order → Shipping → Shipping
write_order_record c p order_id o s =
    store_at p (record o { order_id = order_id; updated_at = c.now }) s
