-- ===== src/Tools/Shipping/Sound.antt =====
-- The orders of app/tools/shipping_tools.py: every stored order stays sound, over any calls of the tools.
use ekaette.Prelude.{String, false, ◌&&◌, not, Option, none, some, List, [], ◌∷◌, str_eq, strip}
use ekaette.Agents.Messages.{Json}
use ekaette.Tools.Shipping.Records.{Order, or_text, clean_str, validated_order_id}
use ekaette.Tools.Shipping.Store.{
  Context, Settings, orders_collection, Place, Notice, Shipping, read_order_record,
  write_order_record,
}
use ekaette.Tools.Shipping.Stored.{
  IsSound, IsSoundIf, AllSound, write-AllSound, read-IsSoundIf, AllSound-if,
}
use ekaette.Tools.Shipping.Events.{sort_newest-IsNewestFirst, take-IsNewestFirst, length-take_le}
use ekaette.Tools.Shipping.Review.{send_order_review_followup}
use ekaette.Tools.Shipping.Update.{
  updated, UpdateArgs, update_order, update_at, update_valid, next_events,
  update_order_tracking_status, tracked_order, tracking_status_of, with_followup, sort_newest,
}
use ekaette.Tools.Shipping.Fetch.{
  TrackingResponse, Fetched, fetched, failed, fetch_topship_tracking,
}
use ekaette.Tools.Shipping.Track.{
  TrackArgs, tracked, refreshed, track_order, track_at, track_valid, track_order_delivery, Call,
  create, review, update, track, step, run, checked_at, args_of,
}
use ekaette.Tools.Shipping.Followed.{
  create_order_record-AllSound, send_order_review_followup-AllSound,
}

module _ (lower : String → String) (config : Settings) (c : Context) where
  tracked_order-IsSound :
      (p : Place) (outbox : List Notice) (args : UpdateArgs) (o : Order)
      → IsSound p outbox o
      → IsSound p outbox (tracked_order lower c args o)
  tracked_order-IsSound p outbox args o h =
      let provider_status = or_text (clean_str args.provider_status) (strip args.tracking_status) in
      let events = sort_newest (
        next_events lower c args (tracking_status_of lower args) provider_status
          args.provider_events o.tracking.events) in
      record {
        bounded = length-take_le 50 events;
        newest_first = take-IsNewestFirst 50 events (sort_newest-IsNewestFirst _);
        named = h.named;
        sms_told = h.sms_told;
        whatsapp_told = h.whatsapp_told;
      }

  update_order-AllSound :
      (p : Place) (id : String) (args : UpdateArgs) (o : Option Order) (s : Shipping)
      → IsSoundIf p s.outbox o
      → AllSound s
      → AllSound (update_order lower config c p id args o s).1
  unfolding update_order
  update_order-AllSound p id args none s h all = all
  update_order-AllSound p id args (some o) s h all =
      let after = tracked_order lower c args o in
      let saved = write_order_record c p id after s in
      let told = send_order_review_followup config c id false none saved in
      let kept : AllSound saved =
        write-AllSound c p id after s (tracked_order-IsSound p s.outbox args o h) all in
      AllSound-if
        (str_eq (tracking_status_of lower args) "delivered" && args.trigger_review_followup)
        (with_followup after told) (updated after none, saved)
        (λ _. send_order_review_followup-AllSound config c id false none saved kept) (λ _. kept)

  update_order_tracking_status-AllSound :
      (order_id : String) (args : UpdateArgs) (s : Shipping)
      → AllSound s
      → AllSound (update_order_tracking_status lower config c order_id args s).1
  unfolding update_order_tracking_status
  update_order_tracking_status-AllSound order_id args s h =
      valid (validated_order_id (some order_id))
    where
      at : (id : String) (p : Option Place) → AllSound (update_at lower config c id args p s).1
      at id none = h
      at id (some p) =
          update_order-AllSound p id args (read_order_record p id s) s (read-IsSoundIf p id s h) h

      valid : (id : Option String) → AllSound (update_valid lower config c args id s).1
      valid none = h
      valid (some id) = at id (orders_collection c id)

  module _ (str_of : Json → String) (args : TrackArgs) where
    refreshed-AllSound :
        (p : Place) (id provider tracking_id : String) (o : Order) (f : Fetched) (s : Shipping)
        → IsSound p s.outbox o
        → AllSound s
        → AllSound (refreshed lower str_of config c p id args provider tracking_id o f s).1
    unfolding refreshed
    refreshed-AllSound p id provider tracking_id o (fetched shipment) s h all =
        update_order_tracking_status-AllSound id (args_of str_of args provider tracking_id shipment)
          s all
    refreshed-AllSound p id provider tracking_id o (failed code) s h all =
        write-AllSound c p id (checked_at c.now o) s
          (record {
            bounded = h.bounded;
            newest_first = h.newest_first;
            named = h.named;
            sms_told = h.sms_told;
            whatsapp_told = h.whatsapp_told;
          })
          all
    refreshed-AllSound p id provider tracking_id o Fetched.crashed s h all = all

    track_order-AllSound :
        (p : Place) (id : String) (response : TrackingResponse) (o : Option Order) (s : Shipping)
        → IsSoundIf p s.outbox o
        → AllSound s
        → AllSound (track_order lower str_of config c p id args response o s).1
    track_order-AllSound p id response none s h all = all
    track_order-AllSound p id response (some o) s h all =
        let provider = or_text (lower (strip o.tracking.provider)) "topship" in
        let tracking_id =
          or_text (clean_str args.provider_tracking_id) (strip o.tracking.tracking_id) in
        let f = fetch_topship_tracking lower config.topship_api_key c.now tracking_id response in
        AllSound-if
          (args.refresh_from_provider && str_eq provider "topship" && not (str_eq tracking_id ""))
          (refreshed lower str_of config c p id args provider tracking_id o f s) (tracked o none, s)
          (λ _. refreshed-AllSound p id provider tracking_id o f s h all) (λ _. all)

    track_order_delivery-AllSound :
        (order_id : String) (response : TrackingResponse) (s : Shipping)
        → AllSound s
        → AllSound (track_order_delivery lower str_of config c order_id args response s).1
    unfolding track_order_delivery
    track_order_delivery-AllSound order_id response s h = valid (validated_order_id (some order_id))
      where
        at :
            (id : String) (p : Option Place)
            → AllSound (track_at lower str_of config c id args response p s).1
        at id none = h
        at id (some p) =
            track_order-AllSound p id response (read_order_record p id s) s
              (read-IsSoundIf p id s h) h

        valid :
            (id : Option String) → AllSound (track_valid lower str_of config c args response id s).1
        valid none = h
        valid (some id) = at id (orders_collection c id)

module _ (lower : String → String) (str_of : Json → String) (config : Settings) where
  step-AllSound :
      (call : Context × Call) (s : Shipping)
      → AllSound s
      → AllSound (step lower str_of config call s)
  unfolding step
  step-AllSound (c, create args) s h = create_order_record-AllSound c lower args s h
  step-AllSound (c, review id force message) s h =
      send_order_review_followup-AllSound config c id force message s h
  step-AllSound (c, update id args) s h =
      update_order_tracking_status-AllSound lower config c id args s h
  step-AllSound (c, track id args response) s h =
      track_order_delivery-AllSound lower config c str_of args id response s h

  -- Any calls of the four tools, in any order and from any sessions, with force or without, keep of
  -- every stored order: it has at most 50 events, no event stands before a later one, a review follow-up
  -- that is noted in it names text message or WhatsApp as a channel that it was sent on, and for each
  -- channel that it names, a message about this order, with the text that is noted, went out on that
  -- channel.
  pub run-AllSound :
      (calls : List (Context × Call)) (s : Shipping)
      → AllSound s
      → AllSound (run lower str_of config calls s)
  unfolding run
  run-AllSound [] s h = h
  run-AllSound (call ∷ calls) s h =
      run-AllSound calls (step lower str_of config call s) (step-AllSound call s h)
