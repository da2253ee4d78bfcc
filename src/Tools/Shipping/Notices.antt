-- ===== src/Tools/Shipping/Notices.antt =====
-- Review follow-ups of app/tools/shipping_tools.py: the messages that go out about an order.
use ekaette.Prelude.{
  ℕ, ◌+◌, ◌≤◌, String, ◌≡◌, refl, sym, ap, inl, inr, Bool, true, false, ◌&&◌, Option, none, some,
  List, [], ◌∷◌, arith, str_eq, eq_iff, eq_refl, if◌then◌else◌, Bool-cases, strip,
}
use ekaette.Tools.Shipping.Review.{
  noted, note_if, notify, sms_goes_out, whatsapp_goes_out, Followup, followed_up, send_message,
  follow_up, follow_up_at, follow_up_valid, send_order_review_followup, already_sent,
  review_message_for,
}
use ekaette.Tools.Shipping.Create.{order_review_contact_missing}
use ekaette.Dict.{lookup-insert}
use ekaette.Tools.Shipping.Records.{Order, or_text, clean_str, validated_order_id}
use ekaette.Tools.Shipping.Store.{
  Context, Settings, orders_collection, Place, memory, document, same_place, MessageChannel, sms,
  whatsapp, Notice, Shipping, stored, store_at, with_id, read_order_record, write_order_record,
}

abbrev pub bit : Bool → ℕ
bit false = 0
bit true = 1

abbrev pub is_requested : Option Order → Bool
is_requested none = false
is_requested (some o) = o.review_followup.requested

abbrev same_channel : MessageChannel → MessageChannel → Bool
same_channel sms sms = true
same_channel whatsapp whatsapp = true
same_channel sms whatsapp = false
same_channel whatsapp sms = false

-- The messages on a channel about the order at a place.
abbrev pub notices : MessageChannel → Place → List Notice → ℕ
notices ch j [] = 0
notices ch j (n ∷ ns) = bit (same_place n.place j && same_channel n.channel ch) + notices ch j ns

-- A message more only with a follow-up that is noted in the order from then on.
abbrev pub Step : MessageChannel → Place → Shipping → Shipping → Type 0
Step ch j s t =
    notices ch j t.outbox + bit (is_requested (stored j s))
    ≤ notices ch j s.outbox + bit (is_requested (stored j t))

pub stored-store_at :
    (j p : Place) (o : Order) (s : Shipping)
    → stored j (store_at p o s) ≡ (if same_place p j then some o else stored j s)
stored-store_at (memory a) (memory b) o s = lookup-insert b a o s.order_records
stored-store_at (memory a) (document b) o s = refl
stored-store_at (document a) (memory b) o s = refl
stored-store_at (document a) (document b) o s = lookup-insert b a o s.documents

pub outbox-store_at : (p : Place) (o : Order) (s : Shipping) → (store_at p o s).outbox ≡ s.outbox
outbox-store_at (memory a) o s = refl
outbox-store_at (document a) o s = refl

pub same_place_refl : (p : Place) → same_place p p ≡ true
same_place_refl (memory a) = eq_refl a
same_place_refl (document a) = eq_refl a

pub same_place-≡ : (p j : Place) → same_place p j ≡ true → p ≡ j
same_place-≡ (memory a) (memory b) h = ap memory ((eq_iff a b).0 h)
same_place-≡ (memory a) (document b) h = ground arith
same_place-≡ (document a) (memory b) h = ground arith
same_place-≡ (document a) (document b) h = ap document ((eq_iff a b).0 h)

requested-with_id :
    (p : Place) (id : String) (o : Order)
    → (with_id p id o).review_followup.requested ≡ o.review_followup.requested
requested-with_id (memory a) id o = refl
requested-with_id (document a) id o = refl

pub requested-read :
    (p : Place) (id : String) (s : Shipping)
    → is_requested (read_order_record p id s) ≡ is_requested (stored p s)
requested-read p id s = go (stored p s)
  where
    go :
        (o : Option Order)
        → is_requested (elim o [ none ↦ none | some o ↦ some (with_id p id o) ]) ≡ is_requested o
    go none = refl
    go (some o) = requested-with_id p id o

requested-store_at :
    (j p : Place) (o : Order) (s : Shipping)
    → is_requested (stored j (store_at p o s))
      ≡ (if same_place p j then o.review_followup.requested else is_requested (stored j s))
requested-store_at j p o s =
    rw (stored-store_at j p o s)
      (elim (Bool-cases (same_place p j)) [ inl e ↦ rw e refl | inr e ↦ rw e refl ])

pub write-Step :
    (ch : MessageChannel) (j p : Place) (c : Context) (id : String) (o : Order) (s : Shipping)
    → bit (is_requested (stored p s)) ≤ bit o.review_followup.requested
    → Step ch j s (write_order_record c p id o s)
write-Step ch j p c id o s h =
    let o' : Order = record o { order_id = id; updated_at = c.now } in
    rw (outbox-store_at p o' s, requested-store_at j p o' s)
      (elim (Bool-cases (same_place p j)) [
        | inl e ↦ rw (e, sym (same_place-≡ p j e)) (omega (arith, h))
        | inr e ↦ rw e (omega arith)
      ])

stored-outbox :
    (j : Place) (s : Shipping) (outbox : List Notice)
    → stored j (record s { outbox = outbox }) ≡ stored j s
stored-outbox (memory id) s outbox = refl
stored-outbox (document path) s outbox = refl

module _ (ch : MessageChannel) (j p : Place) (phone message : String) where
  abbrev about : MessageChannel → Notice
  about channel = record { place = p; channel = channel; phone = phone; message = message }

  -- A text message and a WhatsApp message add at most one to the messages on a channel.
  notices-note_if :
      (w a : Bool) (ns : List Notice)
      → notices ch j (note_if w (about whatsapp) (note_if a (about sms) ns))
        ≤ notices ch j ns + bit (same_place p j)
  notices-note_if w a ns = ground arith

  -- Where no follow-up was noted before.
  sent-Step :
      (c : Context) (id : String) (o : Order) (s : Shipping) (w a : Bool)
      → o.review_followup.requested ≡ true
      → is_requested (stored p s) ≡ false
      → Step ch j s (
          write_order_record c p id o
            (record s { outbox = note_if w (about whatsapp) (note_if a (about sms) s.outbox) }))
  sent-Step c id o s w a h unasked =
      let ob = note_if w (about whatsapp) (note_if a (about sms) s.outbox) in
      let o' : Order = record o { order_id = id; updated_at = c.now } in
      let m : Shipping = record s { outbox = ob } in
      rw (outbox-store_at p o' m, requested-store_at j p o' m, stored-outbox j s ob)
        (elim (Bool-cases (same_place p j)) [
          | inl e ↦
              let asked : is_requested (stored j s) ≡ false =
                rw (sym (same_place-≡ p j e)) unasked in
              rw (e, h, asked) (omega (arith, rw e at (notices-note_if w a s.outbox)))
          | inr e ↦ rw e (omega (arith, rw e at (notices-note_if w a s.outbox)))
        ])

-- A test on which an answer and its state depend.
pub Step-if :
    {A : Type 0} (ch : MessageChannel) (j : Place) (s : Shipping) (b : Bool) (x y : A × Shipping)
    → (b ≡ true → Step ch j s x.1)
    → (b ≡ false → Step ch j s y.1)
    → Step ch j s (if b then x else y).1
Step-if ch j s true x y yes_case no_case = yes_case refl
Step-if ch j s false x y yes_case no_case = no_case refl

module _ (config : Settings) (ch : MessageChannel) (j p : Place) (c : Context) (id : String) where
  module _ (phone message : String) (o : Order) (s : Shipping) where
    -- Whichever messages went out.
    outcome-Step :
        (a w : Bool)
        → is_requested (stored p s) ≡ false
        → Step ch j s
            (noted c p id a w o
              (send_message w p whatsapp phone message (send_message a p sms phone message s))
              message).1
    outcome-Step false false unasked = omega arith
    outcome-Step true w unasked =
        sent-Step ch j p (strip phone) message c id (followed_up c message true w o) s w true refl
          unasked
    outcome-Step false true unasked =
        sent-Step ch j p (strip phone) message c id (followed_up c message false true o) s true
          false refl unasked

    notify-Step :
        is_requested (stored p s) ≡ false → Step ch j s (notify config c p id phone message o s).1
    unfolding notify
    notify-Step = outcome-Step (sms_goes_out config c phone) (whatsapp_goes_out config c phone)

  follow_up-Step :
      (message : Option String) (o : Option Order) (s : Shipping)
      → is_requested o ≡ is_requested (stored p s)
      → Step ch j s (follow_up config c p id false message o s).1
  follow_up-Step message none s h = omega arith
  follow_up-Step message (some o) s h =
      let phone = clean_str o.customer.phone in
      let body = or_text (clean_str message) (review_message_for id) in
      let noted = notify config c p id phone body o s in
      let checked : Followup × Shipping =
        if str_eq phone "" then (Followup.refused order_review_contact_missing, s) else noted in
      Step-if ch j s (o.review_followup.requested && true) (already_sent o, s) checked
        (λ _. omega arith)
        (λ unasked.
          Step-if ch j s (str_eq phone "") (Followup.refused order_review_contact_missing, s) noted
            (λ _. omega arith) (λ _. notify-Step phone body o s (ground (arith, h, unasked))))

module _ (config : Settings) (ch : MessageChannel) (j : Place) (c : Context) where
  follow_up_at-Step :
      (id : String) (message : Option String) (p : Option Place) (s : Shipping)
      → Step ch j s (follow_up_at config c id false message p s).1
  follow_up_at-Step id message none s = omega arith
  follow_up_at-Step id message (some p) s =
      follow_up-Step config ch j p c id message (read_order_record p id s) s (requested-read p id s)

  follow_up_valid-Step :
      (message id : Option String) (s : Shipping)
      → Step ch j s (follow_up_valid config c false message id s).1
  follow_up_valid-Step message none s = omega arith
  follow_up_valid-Step message (some id) s = follow_up_at-Step id message (orders_collection c id) s

  pub send_order_review_followup-Step :
      (order_id : String) (message : Option String) (s : Shipping)
      → Step ch j s (send_order_review_followup config c order_id false message s).1
  unfolding send_order_review_followup
  send_order_review_followup-Step order_id message s =
      follow_up_valid-Step message (validated_order_id (some order_id)) s

pub Step-trans :
    (ch : MessageChannel) (j : Place) (s t u : Shipping)
    → Step ch j s t
    → Step ch j t u
    → Step ch j s u
Step-trans ch j s t u h k = omega (arith, h, k)
