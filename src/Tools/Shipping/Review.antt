-- ===== src/Tools/Shipping/Review.antt =====
-- app/tools/shipping_tools.py: the review follow-up of an order.
use ekaette.Prelude.Split.{◌<>◌}
use ekaette.Prelude.{
  ℕ, String, Bool, true, false, ◌&&◌, ◌||◌, not, Option, none, some, List, ◌∷◌, str_eq, ltb,
  if◌then◌else◌, strip,
}
use ekaette.Dict.{lookup}
use ekaette.Tools.Shipping.Records.{Order, validated_order_id, clean_str, or_text}
use ekaette.Tools.Shipping.Store.{
  Context, Settings, Place, Notice, Shipping, orders_collection, MessageChannel, whatsapp,
  read_order_record, sms, write_order_record,
}
use ekaette.Tools.Shipping.Create.{
  Code, order_scope_unavailable, order_invalid, order_not_found, order_review_contact_missing,
  order_review_notification_failed,
}

unfoldable pub review_message_for : String → String
review_message_for order_id =
    "Thanks for your order "
    <> (order_id <> ". Please rate your delivery experience 1-5 and share a short review.")

-- Whether a message goes out: `_send_sms_message` and `_send_whatsapp_message`.
abbrev pub sms_goes_out : Settings → Context → String → Bool
sms_goes_out config c phone =
    config.at_sms_enabled && not (str_eq (strip phone) "") && c.sms_returns

-- `status_code < 400`, or false where the provider raised
abbrev is_accepted : Option ℕ → Bool
is_accepted none = false
is_accepted (some status_code) = ltb status_code 400

abbrev pub whatsapp_goes_out : Settings → Context → String → Bool
whatsapp_goes_out config c phone =
    config.whatsapp_enabled
    && not (str_eq config.whatsapp_access_token "")
    && not (str_eq (strip phone) "")
    && is_accepted c.whatsapp_status

-- A message that goes out is noted.
abbrev pub note_if : Bool → Notice → List Notice → List Notice
note_if false notice outbox = outbox
note_if true notice outbox = notice ∷ outbox

abbrev pub send_message : Bool → Place → MessageChannel → String → String → Shipping → Shipping
send_message goes_out p channel phone message s = record s {
  outbox =
      note_if goes_out
        (record { place = p; channel = channel; phone = strip phone; message = message }) s.outbox;
}

-- What `send_order_review_followup` answers.
pub data Followup : Type 0 where
  refused : Code → Followup
  already_sent : Order → Followup
  sent : Order → Followup

abbrev pub followed_up : Context → String → Bool → Bool → Order → Order
followed_up c message sms_sent whatsapp_sent o = record o {
  review_followup = record {
    requested = true;
    requested_at = some c.now;
    message = message;
    sms_sent = sms_sent;
    whatsapp_sent = whatsapp_sent;
  };
  updated_at = c.now;
}

-- The follow-up is noted in the order if one of the messages went out.
abbrev pub noted :
    Context → Place → String → Bool → Bool → Order → Shipping → String → Followup × Shipping
noted c p id sms_sent whatsapp_sent o s message =
    let followed = followed_up c message sms_sent whatsapp_sent o in
    if sms_sent || whatsapp_sent
    then (sent followed, write_order_record c p id followed s)
    else (refused order_review_notification_failed, s)

unfoldable pub notify :
    Settings → Context → Place → String → String → String → Order → Shipping → Followup × Shipping
unfolding lookup
notify config c p id phone message o s =
    let sms_sent = sms_goes_out config c phone in
    let whatsapp_sent = whatsapp_goes_out config c phone in
    noted c p id sms_sent whatsapp_sent o
      (send_message whatsapp_sent p whatsapp phone message
        (send_message sms_sent p sms phone message s))
      message

-- An order that was read: `force` and the message are the caller's.
abbrev pub follow_up :
    Settings
    → Context
    → Place
    → String
    → Bool
    → Option String
    → Option Order
    → Shipping
    → Followup × Shipping
follow_up config c p id force message none s = (refused order_not_found, s)
follow_up config c p id force message (some o) s =
    let phone = clean_str o.customer.phone in
    if o.review_followup.requested && not force
    then (already_sent o, s)
    else if str_eq phone ""
    then (refused order_review_contact_missing, s)
    else notify config c p id phone (or_text (clean_str message) (review_message_for id)) o s

abbrev pub follow_up_at :
    Settings
    → Context
    → String
    → Bool
    → Option String
    → Option Place
    → Shipping
    → Followup × Shipping
follow_up_at config c id force message none s = (refused order_scope_unavailable, s)
follow_up_at config c id force message (some p) s =
    follow_up config c p id force message (read_order_record p id s) s

abbrev pub follow_up_valid :
    Settings → Context → Bool → Option String → Option String → Shipping → Followup × Shipping
follow_up_valid config c force message none s = (refused order_invalid, s)
follow_up_valid config c force message (some id) s =
    follow_up_at config c id force message (orders_collection c id) s

unfoldable pub send_order_review_followup :
    Settings → Context → String → Bool → Option String → Shipping → Followup × Shipping
unfolding validated_order_id orders_collection lookup
send_order_review_followup config c order_id force message s =
    follow_up_valid config c force message (validated_order_id (some order_id)) s
