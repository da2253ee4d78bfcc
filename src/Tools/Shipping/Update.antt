-- ===== src/Tools/Shipping/Update.antt =====
-- app/tools/shipping_tools.py: a new tracking status, its event, and the follow-up of a delivery.
use ekaette.Prelude.{
  String, Bool, true, false, ◌&&◌, Option, none, some, List, [], ◌∷◌, str_eq, if◌then◌else◌, take,
  strip,
}
use ekaette.Dict.{lookup}
use ekaette.Agents.Messages.{Json, dict, Fields, get, truthy}
use ekaette.At.CampaignAnalytics.Directory.{text_le}
use ekaette.Tools.Shipping.Records.{
  Order, tracking_status_or_default, resolve_order_status_from_tracking, validated_order_id,
  provider_or, TrackingEvent, Tracking, clean_str, or_text, given,
}
use ekaette.Tools.Shipping.Store.{
  Context, Shipping, Settings, Place, orders_collection, read_order_record, write_order_record,
}
use ekaette.Tools.Shipping.Create.{Code, order_invalid, order_scope_unavailable, order_not_found}
use ekaette.Tools.Shipping.Review.{Followup, already_sent, send_order_review_followup, sent}

-- The arguments of `update_order_tracking_status`.
pub record UpdateArgs : Type 0 where
  pub tracking_status : String
  pub provider_status : Option String
  pub provider_tracking_id : Option String
  pub provider_shipment_id : Option String
  pub provider : Option String
  pub event_description : Option String
  pub location : Option String
  pub event_timestamp : Option String
  pub provider_events : List Json
  pub estimated_delivery_at : Option String
  pub delivered_at : Option String
  pub trigger_review_followup : Bool

abbrev pub text_or_empty : Option Json → String
text_or_empty (some (Json.text s)) = s
text_or_empty _ = ""

-- `_clean_str`, of a value under a key
abbrev pub clean_json : Option Json → String
clean_json v = strip (text_or_empty v)

-- `value if value is not None else before`
abbrev replaced : Option String → Option String → Option String
replaced none before = before
replaced (some s) before = some s

abbrev is_unset : Option String → Bool
is_unset none = true
is_unset (some s) = str_eq s ""

-- `delivered_at`, that of the call or, for a delivery without one, the time of the call
abbrev delivered_when : String → String → Option String → Option String → Option String
delivered_when now status (some s) before = some s
delivered_when now status none before =
    if str_eq status "delivered" && is_unset before then some now else before

-- `events.sort(key=..., reverse=True)`, which keeps the order of equal times
unfoldable pub insert_newest : TrackingEvent → List TrackingEvent → List TrackingEvent
unfolding text_le
insert_newest e [] = e ∷ []
insert_newest e (f ∷ fs) =
    if text_le f.timestamp e.timestamp then e ∷ f ∷ fs else f ∷ insert_newest e fs

unfoldable pub sort_newest : List TrackingEvent → List TrackingEvent
unfolding insert_newest
sort_newest [] = []
sort_newest (e ∷ es) = insert_newest e (sort_newest es)

module _ (lower : String → String) where
  abbrev merged_event : String → String → String → Fields → TrackingEvent
  merged_event now normalized_status resolved_provider_status raw_event =
      let raw_status =
        or_text (clean_json (get "provider_status" raw_event))
          (clean_json (get "status" raw_event)) in
      let raw_or_resolved = or_text raw_status resolved_provider_status in
      record {
        status = tracking_status_or_default lower (
            if truthy (get "status" raw_event)
            then text_or_empty (get "status" raw_event)
            else or_text raw_status normalized_status);
        provider_status = raw_or_resolved;
        description = or_text (clean_json (get "description" raw_event)) raw_or_resolved;
        location = clean_json (get "location" raw_event);
        timestamp = or_text (clean_json (get "timestamp" raw_event)) now;
      }

  -- The loop over `provider_events`.
  unfoldable pub merged_events : String → String → String → List Json → List TrackingEvent
  unfolding get tracking_status_or_default
  merged_events now status provider_status [] = []
  merged_events now status provider_status (dict raw_event ∷ raws) =
      merged_event now status provider_status raw_event
      ∷ merged_events now status provider_status raws
  merged_events now status provider_status (_ ∷ raws) =
      merged_events now status provider_status raws

  abbrev events_or : List TrackingEvent → List TrackingEvent → List TrackingEvent
  events_or [] events = events
  events_or (e ∷ es) events = e ∷ es

  abbrev new_event : Context → UpdateArgs → String → String → TrackingEvent
  new_event c args normalized_status resolved_provider_status = record {
    status = normalized_status;
    provider_status = resolved_provider_status;
    description =
        or_text (clean_str args.event_description)
          (or_text resolved_provider_status normalized_status);
    location = clean_str args.location;
    timestamp = or_text (clean_str args.event_timestamp) c.now;
  }

  -- The events of the provider, or else those before with the one of this call.
  abbrev pub next_events :
      Context → UpdateArgs → String → String → List Json → List TrackingEvent → List TrackingEvent
  next_events c args status provider_status [] events =
      new_event c args status provider_status ∷ events
  next_events c args status provider_status (raw ∷ raws) events =
      events_or (merged_events c.now status provider_status (raw ∷ raws)) events

  abbrev provider_given : Option String → String → String
  provider_given none before = before
  provider_given (some provider) before = provider_or lower provider before

  abbrev pub tracking_status_of : UpdateArgs → String
  tracking_status_of args = tracking_status_or_default lower (
      if str_eq args.tracking_status ""
      then clean_str args.provider_status
      else args.tracking_status)

  abbrev updated_tracking : Context → UpdateArgs → Tracking → Tracking
  updated_tracking c args before =
      let status = tracking_status_of args in
      let provider_status = or_text (clean_str args.provider_status) (strip args.tracking_status) in
      record {
        provider = provider_given args.provider before.provider;
        status = status;
        provider_status = provider_status;
        tracking_id = given args.provider_tracking_id before.tracking_id;
        shipment_id = given args.provider_shipment_id before.shipment_id;
        estimated_delivery_at = replaced args.estimated_delivery_at before.estimated_delivery_at;
        delivered_at = delivered_when c.now status args.delivered_at before.delivered_at;
        events = take 50 (
            sort_newest
              (next_events c args status provider_status args.provider_events before.events));
        updated_at = c.now;
        last_checked_at = some c.now;
      }

  abbrev pub tracked_order : Context → UpdateArgs → Order → Order
  tracked_order c args o = record o {
    tracking = updated_tracking c args o.tracking;
    status = resolve_order_status_from_tracking (tracking_status_of args);
    updated_at = c.now;
  }

-- What `update_order_tracking_status` answers: the order, and the follow-up's answer.
pub data Updated : Type 0 where
  refused : Code → Updated
  updated : Order → Option Followup → Updated

-- The order that the answer names: the follow-up's where that is ok.
abbrev order_after : Order → Followup → Order
order_after o (Followup.refused code) = o
order_after o (already_sent p) = p
order_after o (sent p) = p

abbrev pub with_followup : Order → Followup × Shipping → Updated × Shipping
with_followup o (f, s) = (updated (order_after o f) (some f), s)

module _ (lower : String → String) where
  unfoldable pub update_order :
      Settings
      → Context
      → Place
      → String
      → UpdateArgs
      → Option Order
      → Shipping
      → Updated × Shipping
  unfolding lookup tracking_status_or_default resolve_order_status_from_tracking merged_events
      sort_newest send_order_review_followup
  update_order config c p id args none s = (refused order_not_found, s)
  update_order config c p id args (some o) s =
      let after = tracked_order lower c args o in
      let saved = write_order_record c p id after s in
      if str_eq (tracking_status_of lower args) "delivered" && args.trigger_review_followup
      then with_followup after (send_order_review_followup config c id false none saved)
      else (updated after none, saved)

  abbrev pub update_at :
      Settings → Context → String → UpdateArgs → Option Place → Shipping → Updated × Shipping
  update_at config c id args none s = (refused order_scope_unavailable, s)
  update_at config c id args (some p) s =
      update_order config c p id args (read_order_record p id s) s

  abbrev pub update_valid :
      Settings → Context → UpdateArgs → Option String → Shipping → Updated × Shipping
  update_valid config c args none s = (refused order_invalid, s)
  update_valid config c args (some id) s = update_at config c id args (orders_collection c id) s

  unfoldable pub update_order_tracking_status :
      Settings → Context → String → UpdateArgs → Shipping → Updated × Shipping
  unfolding validated_order_id orders_collection lookup update_order
  update_order_tracking_status config c order_id args s =
      update_valid config c args (validated_order_id (some order_id)) s
