-- ===== src/Tools/Shipping/Followed.antt =====
-- The orders of app/tools/shipping_tools.py: the creation and the review follow-up keep them sound.
use ekaette.Prelude.{
  String, ◌≡◌, Bool, true, ◌&&◌, ◌||◌, not, Option, none, some, List, arith, str_eq, if◌then◌else◌,
  strip,
}
use ekaette.Tools.Shipping.Records.{
  Order, or_text, clean_str, normalize_order_id, validated_order_id,
}
use ekaette.Tools.Shipping.Store.{
  Context, Settings, orders_collection, Place, Notice, MessageChannel, Shipping, read_order_record,
  write_order_record, sms, whatsapp,
}
use ekaette.Tools.Shipping.Stored.{
  IsSound, IsSoundIf, AllSound, write-AllSound, read-IsSoundIf, IsTold, IsTold-note_if,
  note_if-IsTold, note_if-IsSound, note_if-AllSound, AllSound-if,
}
use ekaette.Tools.Shipping.Create.{
  CreateArgs, create_order_record, create_at, Created, existing_or_blank, updated_order, is_bad_id,
  order_invalid, order_review_notification_failed, order_review_contact_missing,
}
use ekaette.Tools.Shipping.Review.{
  Followup, send_order_review_followup, noted, notify, sms_goes_out, whatsapp_goes_out, sent,
  followed_up, send_message, follow_up, follow_up_at, follow_up_valid, already_sent,
  review_message_for,
}

module _ (c : Context) (lower : String → String) where
  existing-IsSound :
      (p : Place) (outbox : List Notice) (args : CreateArgs) (id : String) (o : Option Order)
      → IsSoundIf p outbox o
      → IsSound p outbox (updated_order lower c args id (existing_or_blank lower c args o))
  existing-IsSound p outbox args id none h = record {
    bounded = omega arith;
    newest_first = tt;
    named = λ e. absurd (ground (arith, e));
    sms_told = λ e. absurd (ground (arith, e));
    whatsapp_told = λ e. absurd (ground (arith, e));
  }
  existing-IsSound p outbox args id (some o) h = record {
    bounded = h.bounded;
    newest_first = h.newest_first;
    named = h.named;
    sms_told = h.sms_told;
    whatsapp_told = h.whatsapp_told;
  }

  create_at-AllSound :
      (args : CreateArgs) (id : String) (p : Option Place) (s : Shipping)
      → AllSound s
      → AllSound (create_at lower c args id p s).1
  create_at-AllSound args id none s h = h
  create_at-AllSound args id (some p) s h =
      let read = read_order_record p id s in
      write-AllSound c p id (updated_order lower c args id (existing_or_blank lower c args read)) s
        (existing-IsSound p s.outbox args id read (read-IsSoundIf p id s h)) h

  pub create_order_record-AllSound :
      (args : CreateArgs) (s : Shipping)
      → AllSound s
      → AllSound (create_order_record lower c args s).1
  unfolding create_order_record
  create_order_record-AllSound args s h =
      let id = normalize_order_id args.uuid_hex args.order_id in
      let place = orders_collection c id in
      AllSound-if (str_eq (strip args.customer_name) "" || is_bad_id args.order_id)
        (Created.refused order_invalid, s) (create_at lower c args id place s) (λ _. h)
        (λ _. create_at-AllSound args id place s h)

module _ (config : Settings) (c : Context) where
  noted-AllSound :
      (p : Place) (id : String) (a w : Bool) (o : Order) (s : Shipping) (message : String)
      → (a ≡ true → IsTold sms p message s.outbox)
      → (w ≡ true → IsTold whatsapp p message s.outbox)
      → IsSound p s.outbox o
      → AllSound s
      → AllSound (noted c p id a w o s message).1
  noted-AllSound p id a w o s message sms_told whatsapp_told h all =
      let followed = followed_up c message a w o in
      AllSound-if (a || w) (sent followed, write_order_record c p id followed s)
        (Followup.refused order_review_notification_failed, s)
        (λ e.
          write-AllSound c p id followed s
            (record {
              bounded = h.bounded;
              newest_first = h.newest_first;
              named = λ _. e;
              sms_told = sms_told;
              whatsapp_told = whatsapp_told;
            })
            all)
        (λ _. all)

  notify-AllSound :
      (p : Place) (id phone message : String) (o : Order) (s : Shipping)
      → IsSound p s.outbox o
      → AllSound s
      → AllSound (notify config c p id phone message o s).1
  unfolding notify
  notify-AllSound p id phone message o s h all =
      let a = sms_goes_out config c phone in
      let w = whatsapp_goes_out config c phone in
      let texted = send_message a p sms phone message s in
      let about : MessageChannel → Notice = λ channel. record {
        place = p;
        channel = channel;
        phone = strip phone;
        message = message;
      } in
      noted-AllSound p id a w o (send_message w p whatsapp phone message texted) message
        (λ e.
          IsTold-note_if sms p message w (about whatsapp) texted.outbox
            (note_if-IsTold a (about sms) s.outbox e))
        (note_if-IsTold w (about whatsapp) texted.outbox)
        (note_if-IsSound p w (about whatsapp) texted.outbox o
          (note_if-IsSound p a (about sms) s.outbox o h))
        (note_if-AllSound texted w (about whatsapp) (note_if-AllSound s a (about sms) all))

  follow_up-AllSound :
      (p : Place) (id : String) (force : Bool) (message : Option String) (o : Option Order)
      (s : Shipping)
      → IsSoundIf p s.outbox o
      → AllSound s
      → AllSound (follow_up config c p id force message o s).1
  follow_up-AllSound p id force message none s h all = all
  follow_up-AllSound p id force message (some o) s h all =
      let phone = clean_str o.customer.phone in
      let body = or_text (clean_str message) (review_message_for id) in
      let told = notify config c p id phone body o s in
      let checked : Followup × Shipping =
        if str_eq phone "" then (Followup.refused order_review_contact_missing, s) else told in
      AllSound-if (o.review_followup.requested && not force) (already_sent o, s) checked (λ _. all)
        (λ _.
          AllSound-if (str_eq phone "") (Followup.refused order_review_contact_missing, s) told
            (λ _. all) (λ _. notify-AllSound p id phone body o s h all))

  follow_up_at-AllSound :
      (id : String) (force : Bool) (message : Option String) (p : Option Place) (s : Shipping)
      → AllSound s
      → AllSound (follow_up_at config c id force message p s).1
  follow_up_at-AllSound id force message none s h = h
  follow_up_at-AllSound id force message (some p) s h =
      follow_up-AllSound p id force message (read_order_record p id s) s (read-IsSoundIf p id s h) h

  follow_up_valid-AllSound :
      (force : Bool) (message id : Option String) (s : Shipping)
      → AllSound s
      → AllSound (follow_up_valid config c force message id s).1
  follow_up_valid-AllSound force message none s h = h
  follow_up_valid-AllSound force message (some id) s h =
      follow_up_at-AllSound id force message (orders_collection c id) s h

  pub send_order_review_followup-AllSound :
      (order_id : String) (force : Bool) (message : Option String) (s : Shipping)
      → AllSound s
      → AllSound (send_order_review_followup config c order_id force message s).1
  unfolding send_order_review_followup
  send_order_review_followup-AllSound order_id force message s h =
      follow_up_valid-AllSound force message (validated_order_id (some order_id)) s h
