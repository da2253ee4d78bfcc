-- ===== src/Tools/Shipping/Records.antt =====
-- app/tools/shipping_tools.py: an order and what it holds, and the texts that the tools clean. A
-- field that a dict may lack is an Option. `str.lower`, which reads the tables of Unicode, is the
-- parameter.
use Prim.Native.Char.{Char, code}
use Prim.Native.String.{count}
use ekaette.Prelude.Split.{◌<>◌}
use ekaette.Prelude.{
  ℕ, String, Bool, true, false, ◌&&◌, ◌||◌, Option, none, some, List, [], ◌∷◌, str_eq, leb, ◌==◌,
  if◌then◌else◌, strip,
}
use ekaette.Dict.{Dict, lookup}
use ekaette.Agents.Policy.{StateValue, text}

pub record Customer : Type 0 where
  pub name : String
  pub phone : Option String

pub record DeliveryRoute : Type 0 where
  pub sender_city : Option String
  pub receiver_city : Option String
  pub address : Option String

pub record TrackingEvent : Type 0 where
  pub status : String
  pub provider_status : String
  pub description : String
  pub location : String
  pub timestamp : String

pub record Tracking : Type 0 where
  pub provider : String
  pub status : String
  pub provider_status : String
  pub tracking_id : String
  pub shipment_id : String
  pub estimated_delivery_at : Option String
  pub delivered_at : Option String
  pub events : List TrackingEvent
  pub updated_at : String
  pub last_checked_at : Option String

pub record ReviewFollowup : Type 0 where
  pub requested : Bool
  pub requested_at : Option String
  pub message : String
  pub sms_sent : Bool
  pub whatsapp_sent : Bool

pub record Order : Type 0 where
  pub order_id : String
  pub tenant_id : String
  pub company_id : String
  pub customer : Customer
  pub items_summary : String
  pub amount_kobo : ℕ
  pub payment_reference : String
  pub delivery : DeliveryRoute
  pub tracking : Tracking
  pub review_followup : ReviewFollowup
  pub status : String
  pub created_at : String
  pub updated_at : String

-- `a or b`
abbrev pub or_text : String → String → String
or_text a b = if str_eq a "" then b else a

-- `_clean_str`
abbrev pub clean_str : Option String → String
clean_str none = ""
clean_str (some s) = strip s

-- `if value is not None: d[key] = _clean_str(value)`, on the text that stands there
abbrev pub given : Option String → String → String
given none before = before
given (some s) before = strip s

-- the same, on a key that the dict may lack
abbrev pub given_key : Option String → Option String → Option String
given_key none before = before
given_key (some s) before = some (strip s)

-- `[A-Za-z0-9._:-]`
unfoldable is_id_char : Char → Bool
is_id_char ch =
    let c = code ch in
    (leb b'A' c && leb c b'Z')
    || (leb b'a' c && leb c b'z')
    || (leb b'0' c && leb c b'9')
    || c == b'.'
    || c == b'_'
    || c == b':'
    || c == b'-'

unfoldable pub all_id_chars : String → Bool
unfolding is_id_char
all_id_chars String.[] = true
all_id_chars (String.◌∷◌ c s) = is_id_char c && all_id_chars s

-- `_ORDER_ID_RE.fullmatch`
unfoldable is_order_id : String → Bool
unfolding all_id_chars
is_order_id s = leb 4 (count s) && leb (count s) 80 && all_id_chars s

unfoldable pub validated_order_id : Option String → Option String
unfolding is_order_id
validated_order_id order_id =
    let candidate = clean_str order_id in if is_order_id candidate then some candidate else none

-- The ten hex digits of the UUID are the first argument.
unfoldable pub normalize_order_id : String → Option String → String
unfolding is_order_id
normalize_order_id hex order_id =
    let candidate = clean_str order_id in
    if is_order_id candidate then candidate else "EKT-ORD-" <> hex

-- `.replace("_", "").replace("-", "").replace(" ", "")`
unfoldable without_marks : String → String
without_marks String.[] = String.[]
without_marks (String.◌∷◌ ch s) =
    let c = code ch in
    let rest = without_marks s in
    if c == b'_' || c == b'-' || c == b' ' then rest else String.◌∷◌ ch rest

-- `.replace("-", "_").replace(" ", "_")`
unfoldable with_underscores : String → String
with_underscores String.[] = String.[]
with_underscores (String.◌∷◌ ch s) =
    let c = code ch in
    let rest = with_underscores s in
    if c == b'-' || c == b' ' then "_" <> rest else String.◌∷◌ ch rest

-- `_TRACKING_STATUS_MAP`
abbrev tracking_status_map : Dict String
tracking_status_map =
    ("pending", "pending")
    ∷ ("booked", "booked")
    ∷ ("awaitingpickup", "pickup_scheduled")
    ∷ ("pickupinprogress", "pickup_scheduled")
    ∷ ("successfullypicked", "picked_up")
    ∷ ("intransit", "in_transit")
    ∷ ("deliveryinprogress", "out_for_delivery")
    ∷ ("outfordelivery", "out_for_delivery")
    ∷ ("delivered", "delivered")
    ∷ ("cancelled", "cancelled")
    ∷ ("deliveryfailed", "failed")
    ∷ ("failed", "failed")
    ∷ ("returned", "returned")
    ∷ []

abbrev mapped_or : String → Option String → String
mapped_or default none = default
mapped_or default (some status) = status

module _ (lower : String → String) where
  unfoldable pub tracking_status_or_default : String → String
  unfolding lookup without_marks with_underscores
  tracking_status_or_default status =
      let raw = strip status in
      if str_eq raw ""
      then "pending"
      else mapped_or (with_underscores (lower raw))
          (lookup (lower (without_marks raw)) tracking_status_map)

unfoldable pub resolve_order_status_from_tracking : String → String
resolve_order_status_from_tracking tracking_status =
    let is = str_eq tracking_status in
    if is "delivered"
    then "fulfilled"
    else if is "failed" || is "cancelled" || is "returned"
    then tracking_status
    else if is "pending"
        || is "booked"
        || is "pickup_scheduled"
        || is "picked_up"
        || is "in_transit"
        || is "out_for_delivery"
    then "in_fulfillment"
    else tracking_status

-- `_base_review_followup_payload`
abbrev pub base_review_followup_payload : ReviewFollowup
base_review_followup_payload = record {
  requested = false;
  requested_at = none;
  message = "";
  sms_sent = false;
  whatsapp_sent = false;
}

module _ (lower : String → String) where
  -- The provider that a call names, or else the one that stands there.
  abbrev pub provider_or : String → String → String
  provider_or provider before = or_text (lower (strip provider)) (or_text (strip before) "topship")

  abbrev pub base_tracking_payload : String → String → Tracking
  base_tracking_payload provider now = record {
    provider = or_text (lower (strip provider)) "topship";
    status = "pending";
    provider_status = "";
    tracking_id = "";
    shipment_id = "";
    estimated_delivery_at = none;
    delivered_at = none;
    events = [];
    updated_at = now;
    last_checked_at = none;
  }

-- `_tenant_company_from_context`, from the state of the tool's context
abbrev state_text : Option StateValue → String
state_text (some (text s)) = strip s
state_text _ = ""

abbrev scope_text : String → Option (Dict StateValue) → String
scope_text key none = ""
scope_text key (some state) = state_text (lookup key state)

unfoldable pub tenant_company_from_context :
    Option (Dict StateValue) → Option String → Option String → String × String
unfolding lookup
tenant_company_from_context state tenant_id company_id =
    if str_eq (clean_str tenant_id) "" || str_eq (clean_str company_id) ""
    then (
      or_text (scope_text "app:tenant_id" state) "public",
      or_text (scope_text "app:company_id" state) "ekaette-electronics",
    )
    else (clean_str tenant_id, clean_str company_id)
