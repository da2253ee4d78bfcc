-- ===== src/Tools/Shipping/Once.antt =====
-- Review follow-ups of app/tools/shipping_tools.py: one per order, over any calls of the tools.
use ekaette.Prelude.{
  ◌≤◌, String, ◌≡◌, refl, sym, ap, Bool, true, false, ◌&&◌, ◌||◌, not, Option, none, some, List, [],
  ◌∷◌, arith, str_eq, All, strip,
}
use ekaette.Agents.Messages.{Json}
use ekaette.Tools.Shipping.Records.{
  Order, normalize_order_id, clean_str, or_text, validated_order_id,
}
use ekaette.Tools.Shipping.Store.{
  Context, Settings, orders_collection, Place, MessageChannel, Shipping, stored, read_order_record,
  write_order_record,
}
use ekaette.Tools.Shipping.Notices.{
  bit, is_requested, notices, Step, requested-read, write-Step, Step-if, Step-trans,
  send_order_review_followup-Step,
}
use ekaette.Tools.Shipping.Create.{
  CreateArgs, create_order_record, create_at, Created, existing_or_blank, updated_order, is_bad_id,
  order_invalid,
}
use ekaette.Tools.Shipping.Review.{Followup, send_order_review_followup}
use ekaette.Tools.Shipping.Update.{
  Updated, updated, UpdateArgs, update_order, update_at, update_valid, update_order_tracking_status,
  tracked_order, tracking_status_of, with_followup,
}
use ekaette.Tools.Shipping.Fetch.{
  TrackingResponse, Fetched, fetched, failed, fetch_topship_tracking,
}
use ekaette.Tools.Shipping.Track.{
  TrackArgs, tracked, refreshed, track_order, track_at, track_valid, track_order_delivery, Call,
  create, review, update, track, step, run, checked_at, with_update, args_of,
}

module _ (ch : MessageChannel) (j : Place) (c : Context) (lower : String → String) where
  existing-le :
      (args : CreateArgs) (id : String) (o : Option Order)
      → bit (is_requested o)
        ≤ bit
            (updated_order lower c args id
              (existing_or_blank lower c args o)).review_followup.requested
  existing-le args id none = omega arith
  existing-le args id (some o) = omega arith

  create_at-Step :
      (args : CreateArgs) (id : String) (p : Option Place) (s : Shipping)
      → Step ch j s (create_at lower c args id p s).1
  create_at-Step args id none s = omega arith
  create_at-Step args id (some p) s =
      let read = read_order_record p id s in
      write-Step ch j p c id (updated_order lower c args id (existing_or_blank lower c args read)) s
        (rw (sym (requested-read p id s)) (existing-le args id read))

  create_order_record-Step :
      (args : CreateArgs) (s : Shipping) → Step ch j s (create_order_record lower c args s).1
  unfolding create_order_record
  create_order_record-Step args s =
      let id = normalize_order_id args.uuid_hex args.order_id in
      let place = orders_collection c id in
      Step-if ch j s (str_eq (strip args.customer_name) "" || is_bad_id args.order_id)
        (Created.refused order_invalid, s) (create_at lower c args id place s) (λ _. omega arith)
        (λ _. create_at-Step args id place s)

module _ (ch : MessageChannel) (j : Place) (lower : String → String) (config : Settings)
    (c : Context) where
  with_followup-Step :
      (o : Order) (s : Shipping) (r : Followup × Shipping)
      → Step ch j s r.1
      → Step ch j s (with_followup o r).1
  with_followup-Step o s (f, t) h = h

  update_order-Step :
      (p : Place) (id : String) (args : UpdateArgs) (o : Option Order) (s : Shipping)
      → is_requested o ≡ is_requested (stored p s)
      → Step ch j s (update_order lower config c p id args o s).1
  unfolding update_order
  update_order-Step p id args none s h = omega arith
  update_order-Step p id args (some o) s h =
      let after = tracked_order lower c args o in
      let saved = write_order_record c p id after s in
      let told = send_order_review_followup config c id false none saved in
      let written : Step ch j s saved = write-Step ch j p c id after s (omega (arith, ap bit h)) in
      Step-if ch j s
        (str_eq (tracking_status_of lower args) "delivered" && args.trigger_review_followup)
        (with_followup after told) (updated after none, saved)
        (λ _. Step-trans ch j s saved _ written (
          with_followup-Step after saved told
            (send_order_review_followup-Step config ch j c id none saved)))
        (λ _. written)

  update_at-Step :
      (id : String) (args : UpdateArgs) (p : Option Place) (s : Shipping)
      → Step ch j s (update_at lower config c id args p s).1
  update_at-Step id args none s = omega arith
  update_at-Step id args (some p) s =
      update_order-Step p id args (read_order_record p id s) s (requested-read p id s)

  update_valid-Step :
      (args : UpdateArgs) (id : Option String) (s : Shipping)
      → Step ch j s (update_valid lower config c args id s).1
  update_valid-Step args none s = omega arith
  update_valid-Step args (some id) s = update_at-Step id args (orders_collection c id) s

  update_order_tracking_status-Step :
      (order_id : String) (args : UpdateArgs) (s : Shipping)
      → Step ch j s (update_order_tracking_status lower config c order_id args s).1
  unfolding update_order_tracking_status
  update_order_tracking_status-Step order_id args s =
      update_valid-Step args (validated_order_id (some order_id)) s

  module _ (str_of : Json → String) (args : TrackArgs) where
    with_update-Step :
        (o : Order) (f : Fetched) (s : Shipping) (r : Updated × Shipping)
        → Step ch j s r.1
        → Step ch j s (with_update o f r).1
    with_update-Step o f s (u, t) h = h

    refreshed-Step :
        (p : Place) (id provider tracking_id : String) (o : Order) (f : Fetched) (s : Shipping)
        → is_requested (some o) ≡ is_requested (stored p s)
        → Step ch j s (refreshed lower str_of config c p id args provider tracking_id o f s).1
    unfolding refreshed
    refreshed-Step p id provider tracking_id o (fetched shipment) s h =
        let sent = args_of str_of args provider tracking_id shipment in
        with_update-Step o (fetched shipment) s
          (update_order_tracking_status lower config c id sent s)
          (update_order_tracking_status-Step id sent s)
    refreshed-Step p id provider tracking_id o (failed code) s h =
        write-Step ch j p c id (checked_at c.now o) s (omega (arith, ap bit h))
    refreshed-Step p id provider tracking_id o Fetched.crashed s h = omega arith

    track_order-Step :
        (p : Place) (id : String) (response : TrackingResponse) (o : Option Order) (s : Shipping)
        → is_requested o ≡ is_requested (stored p s)
        → Step ch j s (track_order lower str_of config c p id args response o s).1
    track_order-Step p id response none s h = omega arith
    track_order-Step p id response (some o) s h =
        let provider = or_text (lower (strip o.tracking.provider)) "topship" in
        let tracking_id =
          or_text (clean_str args.provider_tracking_id) (strip o.tracking.tracking_id) in
        let f = fetch_topship_tracking lower config.topship_api_key c.now tracking_id response in
        Step-if ch j s
          (args.refresh_from_provider && str_eq provider "topship" && not (str_eq tracking_id ""))
          (refreshed lower str_of config c p id args provider tracking_id o f s) (tracked o none, s)
          (λ _. refreshed-Step p id provider tracking_id o f s h) (λ _. omega arith)

    track_at-Step :
        (id : String) (response : TrackingResponse) (p : Option Place) (s : Shipping)
        → Step ch j s (track_at lower str_of config c id args response p s).1
    track_at-Step id response none s = omega arith
    track_at-Step id response (some p) s =
        track_order-Step p id response (read_order_record p id s) s (requested-read p id s)

    track_valid-Step :
        (response : TrackingResponse) (id : Option String) (s : Shipping)
        → Step ch j s (track_valid lower str_of config c args response id s).1
    track_valid-Step response none s = omega arith
    track_valid-Step response (some id) s = track_at-Step id response (orders_collection c id) s

    track_order_delivery-Step :
        (order_id : String) (response : TrackingResponse) (s : Shipping)
        → Step ch j s (track_order_delivery lower str_of config c order_id args response s).1
    unfolding track_order_delivery
    track_order_delivery-Step order_id response s =
        track_valid-Step response (validated_order_id (some order_id)) s

-- `force` is not given.
abbrev IsUnforced : Context × Call → Type 0
IsUnforced (c, review id force message) = force ≡ false
IsUnforced (c, create args) = Unit
IsUnforced (c, update id args) = Unit
IsUnforced (c, track id args response) = Unit

module _ (lower : String → String) (str_of : Json → String) (config : Settings) where
  step-Step :
      (ch : MessageChannel) (j : Place) (call : Context × Call) (s : Shipping)
      → IsUnforced call
      → Step ch j s (step lower str_of config call s)
  unfolding step
  step-Step ch j (c, create args) s h = create_order_record-Step ch j c lower args s
  step-Step ch j (c, review id force message) s h =
      rw h (send_order_review_followup-Step config ch j c id message s)
  step-Step ch j (c, update id args) s h =
      update_order_tracking_status-Step ch j lower config c id args s
  step-Step ch j (c, track id args response) s h =
      track_order_delivery-Step ch j lower config c str_of args id response s

  run-Step :
      (ch : MessageChannel) (j : Place) (calls : List (Context × Call)) (s : Shipping)
      → All IsUnforced calls
      → Step ch j s (run lower str_of config calls s)
  unfolding run
  run-Step ch j [] s h = omega arith
  run-Step ch j (call ∷ calls) s (h, hs) =
      let after = step lower str_of config call s in
      Step-trans ch j s after _ (step-Step ch j call s h) (run-Step ch j calls after hs)

  at_most_one : (b : Bool) → bit b ≤ 1
  at_most_one true = omega arith
  at_most_one false = omega arith

  -- From orders of which no message has gone out yet, and over any calls of the four tools, in any
  -- order and from any sessions, without force: at most one text message and at most one WhatsApp
  -- message goes out about an order.
  pub run-one_notice :
      (ch : MessageChannel) (j : Place) (calls : List (Context × Call)) (s : Shipping)
      → s.outbox ≡ []
      → All IsUnforced calls
      → notices ch j (run lower str_of config calls s).outbox ≤ 1
  run-one_notice ch j calls s empty h =
      let t = run lower str_of config calls s in
      let none_before : notices ch j s.outbox ≡ 0 = rw empty refl in
      omega (arith, run-Step ch j calls s h, none_before, at_most_one (is_requested (stored j t)))
