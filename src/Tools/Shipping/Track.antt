-- ===== src/Tools/Shipping/Track.antt =====
-- app/tools/shipping_tools.py: the tracking of an order, which may ask Topship first, and any calls
-- of the tools one after the other.
use ekaette.Prelude.{
  String, Bool, ◌&&◌, not, Option, none, some, List, [], ◌∷◌, map, str_eq, if◌then◌else◌, strip,
}
use ekaette.Dict.{lookup}
use ekaette.Agents.Messages.{Json, text, dict, end, field, truthy}
use ekaette.Tools.Shipping.Records.{TrackingEvent, Order, or_text, clean_str, validated_order_id}
use ekaette.Tools.Shipping.Store.{
  Context, Settings, Place, Shipping, orders_collection, read_order_record, write_order_record,
}
use ekaette.Tools.Shipping.Create.{
  CreateArgs, Code, order_not_found, order_scope_unavailable, order_invalid, create_order_record,
}
use ekaette.Tools.Shipping.Review.{send_order_review_followup}
use ekaette.Tools.Shipping.Update.{UpdateArgs, Updated, updated, update_order_tracking_status}
use ekaette.Tools.Shipping.Fetch.{
  TrackingResponse, Shipment, Fetched, fetched, failed, fetch_topship_tracking,
}

pub record TrackArgs : Type 0 where
  pub refresh_from_provider : Bool
  pub provider_tracking_id : Option String
  pub trigger_review_followup : Bool

pub data Tracked : Type 0 where
  refused : Code → Tracked
  crashed : Tracked
  tracked : Order → Option Fetched → Tracked

abbrev as_json : TrackingEvent → Json
as_json e = dict (
    field "status" (text e.status) (
      field "provider_status" (text e.provider_status) (
        field "description" (text e.description)
          (field "location" (text e.location) (field "timestamp" (text e.timestamp) end)))))

module _ (str_of : Json → String) where
  abbrev str_json : Option Json → String
  str_json none = ""
  str_json (some (text s)) = s
  str_json (some v) = if truthy (some v) then str_of v else ""

  -- `str(value or "") or None`
  abbrev str_or_none : Option Json → Option String
  str_or_none v = if str_eq (str_json v) "" then none else some (str_json v)

  abbrev pub args_of : TrackArgs → String → String → Shipment → UpdateArgs
  args_of args provider tracking_id shipment = record {
    tracking_status = or_text shipment.normalized_status "pending";
    provider_status = some shipment.provider_status;
    provider_tracking_id = some (or_text shipment.tracking_id tracking_id);
    provider_shipment_id = none;
    provider = some provider;
    event_description = none;
    location = none;
    event_timestamp = none;
    provider_events = map as_json shipment.events;
    estimated_delivery_at = str_or_none shipment.estimated_delivery_at;
    delivered_at = str_or_none shipment.delivered_at;
    trigger_review_followup = args.trigger_review_followup;
  }

-- `updated["order"]` where the update is ok
abbrev order_of : Order → Updated → Order
order_of o (Updated.refused code) = o
order_of o (updated p f) = p

abbrev pub with_update : Order → Fetched → Updated × Shipping → Tracked × Shipping
with_update o f (u, s) = (tracked (order_of o u) (some f), s)

abbrev pub checked_at : String → Order → Order
checked_at now o = record o { tracking = record o.tracking { last_checked_at = some now } }

module _ (lower : String → String) (str_of : Json → String) where
  -- The answer of Topship, for an order that was read before the request.
  unfoldable pub refreshed :
      Settings
      → Context
      → Place
      → String
      → TrackArgs
      → String
      → String
      → Order
      → Fetched
      → Shipping
      → Tracked × Shipping
  unfolding lookup update_order_tracking_status
  refreshed config c p id args provider tracking_id o (fetched shipment) s =
      with_update o (fetched shipment) (
        update_order_tracking_status lower config c id
          (args_of str_of args provider tracking_id shipment) s)
  refreshed config c p id args provider tracking_id o (failed code) s =
      let checked = checked_at c.now o in
      (tracked checked (some (failed code)), write_order_record c p id checked s)
  refreshed config c p id args provider tracking_id o Fetched.crashed s = (crashed, s)

  abbrev pub track_order :
      Settings
      → Context
      → Place
      → String
      → TrackArgs
      → TrackingResponse
      → Option Order
      → Shipping
      → Tracked × Shipping
  track_order config c p id args response none s = (refused order_not_found, s)
  track_order config c p id args response (some o) s =
      let provider = or_text (lower (strip o.tracking.provider)) "topship" in
      let tracking_id =
        or_text (clean_str args.provider_tracking_id) (strip o.tracking.tracking_id) in
      if args.refresh_from_provider && str_eq provider "topship" && not (str_eq tracking_id "")
      then refreshed config c p id args provider tracking_id o
          (fetch_topship_tracking lower config.topship_api_key c.now tracking_id response) s
      else (tracked o none, s)

  abbrev pub track_at :
      Settings
      → Context
      → String
      → TrackArgs
      → TrackingResponse
      → Option Place
      → Shipping
      → Tracked × Shipping
  track_at config c id args response none s = (refused order_scope_unavailable, s)
  track_at config c id args response (some p) s =
      track_order config c p id args response (read_order_record p id s) s

  abbrev pub track_valid :
      Settings
      → Context
      → TrackArgs
      → TrackingResponse
      → Option String
      → Shipping
      → Tracked × Shipping
  track_valid config c args response none s = (refused order_invalid, s)
  track_valid config c args response (some id) s =
      track_at config c id args response (orders_collection c id) s

  unfoldable pub track_order_delivery :
      Settings → Context → String → TrackArgs → TrackingResponse → Shipping → Tracked × Shipping
  unfolding validated_order_id orders_collection lookup fetch_topship_tracking refreshed
  track_order_delivery config c order_id args response s =
      track_valid config c args response (validated_order_id (some order_id)) s

-- A call of one of the tools.
pub data Call : Type 0 where
  create : CreateArgs → Call
  review : String → Bool → Option String → Call
  update : String → UpdateArgs → Call
  track : String → TrackArgs → TrackingResponse → Call

module _ (lower : String → String) (str_of : Json → String) (config : Settings) where
  unfoldable pub step : Context × Call → Shipping → Shipping
  unfolding create_order_record send_order_review_followup update_order_tracking_status
      track_order_delivery
  step (c, create args) s = (create_order_record lower c args s).1
  step (c, review id force message) s = (send_order_review_followup config c id force message s).1
  step (c, update id args) s = (update_order_tracking_status lower config c id args s).1
  step (c, track id args response) s =
      (track_order_delivery lower str_of config c id args response s).1

  unfoldable pub run : List (Context × Call) → Shipping → Shipping
  unfolding step
  run [] s = s
  run (call ∷ calls) s = run calls (step call s)
