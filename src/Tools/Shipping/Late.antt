-- ===== src/Tools/Shipping/Late.antt =====
-- A failed refresh of app/tools/shipping_tools.py, which writes the order that it read before the
-- request.
use ekaette.Prelude.{
  suc, String, ◌≡◌, ap, ◌∙◌, Bool, true, false, none, some, arith, str_eq, eq_refl,
}
use ekaette.Dict.{lookup-insert}
use ekaette.Agents.Messages.{Json}
use ekaette.Tools.Shipping.Records.{Order, clean_str}
use ekaette.Tools.Shipping.Store.{
  Context, Settings, Place, Shipping, read_order_record, identified, memory, document,
  write_order_record, sms, whatsapp,
}
use ekaette.Tools.Shipping.Notices.{notices, same_place_refl, outbox-store_at}
use ekaette.Tools.Shipping.Review.{
  follow_up_at, follow_up, notify, sms_goes_out, whatsapp_goes_out, noted, followed_up,
  send_message, review_message_for,
}
use ekaette.Tools.Shipping.Fetch.{FetchCode, failed}
use ekaette.Tools.Shipping.Track.{TrackArgs, refreshed, checked_at}

abbrev written : Context → String → Order → Order
written c id o = record o { order_id = id; updated_at = c.now }

read-write :
    (p : Place) (c : Context) (id : String) (o : Order) (s : Shipping)
    → read_order_record p id (write_order_record c p id o s) ≡ some (written c id o)
read-write (memory a) c id o s =
    ap (identified (memory a) id)
      (rw (eq_refl a) at (lookup-insert a a (written c id o) s.order_records))
read-write (document a) c id o s =
    ap (identified (document a) id)
      (rw (eq_refl a) at (lookup-insert a a (written c id o) s.documents))

module _ (config : Settings) (c : Context) (p : Place) (id : String) where
  module _ (phone message : String) (o : Order) (s : Shipping) where
    abbrev messaged : Bool → Bool → Shipping
    messaged a w = send_message w p whatsapp phone message (send_message a p sms phone message s)

    notices-messaged :
        (w : Bool) → notices sms p (messaged true w).outbox ≡ suc (notices sms p s.outbox)
    notices-messaged true = rw (same_place_refl p) (omega arith)
    notices-messaged false = rw (same_place_refl p) (omega arith)

    notices-noted :
        (a w : Bool)
        → a ≡ true
        → notices sms p (noted c p id a w o (messaged a w) message).1.outbox
          ≡ suc (notices sms p s.outbox)
    notices-noted true w h =
        rw (outbox-store_at p (written c id (followed_up c message true w o)) (messaged true w))
          (notices-messaged w)
    notices-noted false w h = absurd (ground (arith, h))

    notices-notify :
        sms_goes_out config c phone ≡ true
        → notices sms p (notify config c p id phone message o s).1.outbox
          ≡ suc (notices sms p s.outbox)
    unfolding notify
    notices-notify h =
        notices-noted (sms_goes_out config c phone) (whatsapp_goes_out config c phone) h

  module _ (o : Order) (s : Shipping) where
    follow_up-notices :
        o.review_followup.requested ≡ false
        → str_eq (clean_str o.customer.phone) "" ≡ false
        → sms_goes_out config c (clean_str o.customer.phone) ≡ true
        → notices sms p (follow_up config c p id false none (some o) s).1.outbox
          ≡ suc (notices sms p s.outbox)
    unfolding notify
    follow_up-notices unasked phone goes =
        rw (unasked, phone)
          (notices-notify (clean_str o.customer.phone) (review_message_for id) o s goes)

  module _ (lower : String → String) (str_of : Json → String) where
    -- A refresh that fails writes back the order that was read before the request. If no follow-up
    -- was noted in it then, the next follow-up sends a text message, although one may have been sent
    -- and noted in the stored order during the request. The customer has a phone, and text messages
    -- go out.
    pub refreshed-sends_again :
        (args : TrackArgs) (provider tracking_id : String) (o : Order) (code : FetchCode)
        (s : Shipping)
        → o.review_followup.requested ≡ false
        → str_eq (clean_str o.customer.phone) "" ≡ false
        → sms_goes_out config c (clean_str o.customer.phone) ≡ true
        → let t =
            (refreshed lower str_of config c p id args provider tracking_id o (failed code) s).1 in
          notices sms p (follow_up_at config c id false none (some p) t).1.outbox
          ≡ suc (notices sms p s.outbox)
    unfolding refreshed
    refreshed-sends_again args provider tracking_id o code s unasked phone goes =
        let checked = checked_at c.now o in
        let t = write_order_record c p id checked s in
        rw (read-write p c id checked s) (
          follow_up-notices (written c id checked) t unasked phone goes
          ∙ ap (λ ob. suc (notices sms p ob)) (outbox-store_at p (written c id checked) s))
