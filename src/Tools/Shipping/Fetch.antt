-- ===== src/Tools/Shipping/Fetch.antt =====
-- app/tools/shipping_tools.py: what Topship answers about a shipment, and what is read of it. The
-- parameters are `str.lower` and `str` of a JSON value other than a text.
use ekaette.Prelude.{
  ℕ, String, Bool, true, false, Option, none, some, List, [], ◌∷◌, str_eq, leb, if◌then◌else◌, take,
  strip,
}
use ekaette.Agents.Messages.{Json, text, dict, Fields, get, Items, flag, end, cons, nil, list}
use ekaette.Tools.Shipping.Records.{TrackingEvent, or_text, tracking_status_or_default}
use ekaette.Tools.Shipping.Update.{clean_json, sort_newest}

-- The request raises, or is answered with a status code and a body, none where that is not JSON.
pub data TrackingResponse : Type 0 where
  raised : TrackingResponse
  answered : ℕ → Option Json → TrackingResponse

pub data FetchCode : Type 0 where
  topship_not_configured : FetchCode
  topship_tracking_id_required : FetchCode
  topship_tracking_request_failed : FetchCode
  topship_tracking_api_error : FetchCode
  topship_tracking_not_found : FetchCode
  topship_tracking_invalid_response : FetchCode

pub record Shipment : Type 0 where
  pub tracking_id : String
  pub provider_status : String
  pub normalized_status : String
  pub estimated_delivery_at : Option Json
  pub delivered_at : Option Json
  pub events : List TrackingEvent

-- `crashed` is an exception, a method or a loop of a value that has none.
pub data Fetched : Type 0 where
  failed : FetchCode → Fetched
  fetched : Shipment → Fetched
  crashed : Fetched

-- `payload.get("status") is not True`
abbrev pub is_true_flag : Option Json → Bool
is_true_flag (some (flag true)) = true
is_true_flag _ = false

-- What the loop over `data.get("events", [])` runs over, none where that raises. The keys of a
-- dict and the characters of a text are skipped.
abbrev raw_events : Option Json → Option Items
raw_events none = some nil
raw_events (some (list raws)) = some raws
raw_events (some (dict fields)) = some nil
raw_events (some (text s)) = some nil
raw_events (some _) = none

abbrev json_or_empty : Option Json → Json
json_or_empty none = dict end
json_or_empty (some payload) = payload

module _ (lower : String → String) where
  abbrev fetched_event : String → String → String → Fields → TrackingEvent
  fetched_event now provider_status normalized_status raw_event =
      let raw_status = clean_json (get "status" raw_event) in
      let raw_or_provider = or_text raw_status provider_status in
      record {
        status = tracking_status_or_default lower (or_text raw_status normalized_status);
        provider_status = raw_or_provider;
        description = or_text (clean_json (get "description" raw_event)) raw_or_provider;
        location = clean_json (get "location" raw_event);
        timestamp = or_text (clean_json (get "timestamp" raw_event)) now;
      }

  unfoldable fetched_events : String → String → String → Items → List TrackingEvent
  unfolding get tracking_status_or_default
  fetched_events now provider_status normalized_status nil = []
  fetched_events now provider_status normalized_status (cons (dict raw_event) raws) =
      fetched_event now provider_status normalized_status raw_event
      ∷ fetched_events now provider_status normalized_status raws
  fetched_events now provider_status normalized_status (cons _ raws) =
      fetched_events now provider_status normalized_status raws

  abbrev with_events : String → String → Fields → Option Items → Fetched
  with_events now tracking_id shipment none = crashed
  with_events now tracking_id shipment (some raws) =
      let provider_status = clean_json (get "status" shipment) in
      let normalized_status = tracking_status_or_default lower provider_status in
      fetched (record {
        tracking_id = or_text (clean_json (get "trackingId" shipment)) (strip tracking_id);
        provider_status = provider_status;
        normalized_status = normalized_status;
        estimated_delivery_at = get "estimatedDeliveryDate" shipment;
        delivered_at = get "deliveredAt" shipment;
        events = take 50 (sort_newest (fetched_events now provider_status normalized_status raws));
      })

  abbrev read_shipment : String → String → Option Json → Fetched
  read_shipment now tracking_id (some (dict shipment)) =
      with_events now tracking_id shipment (raw_events (get "events" shipment))
  read_shipment now tracking_id _ = failed topship_tracking_invalid_response

  -- A payload that is no dict has no `get`.
  abbrev tracking_payload : String → String → Json → Fetched
  tracking_payload now tracking_id (dict payload) =
      if is_true_flag (get "status" payload)
      then read_shipment now tracking_id (get "data" payload)
      else failed topship_tracking_not_found
  tracking_payload now tracking_id _ = crashed

  abbrev read_response : String → String → TrackingResponse → Fetched
  read_response now tracking_id raised = failed topship_tracking_request_failed
  read_response now tracking_id (answered status_code body) =
      if leb 400 status_code
      then failed topship_tracking_api_error
      else tracking_payload now tracking_id (json_or_empty body)

  -- The key of the API, the tracking id, and what the request would give.
  unfoldable pub fetch_topship_tracking : String → String → String → TrackingResponse → Fetched
  unfolding get tracking_status_or_default fetched_events sort_newest
  fetch_topship_tracking api_key now tracking_id response =
      if str_eq api_key ""
      then failed topship_not_configured
      else if str_eq (strip tracking_id) ""
      then failed topship_tracking_id_required
      else read_response now tracking_id response
