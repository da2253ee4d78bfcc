-- ===== src/At/Payments/Paid.antt =====
-- Payments of app/api/v1/at/service_payments.py: a success that is delivered again counts once.
use mathlib.Core.Path.{subst}
use ekaette.Prelude.Split.{◌<>◌, cons_not_empty}
use ekaette.Prelude.{
  ℕ, ◌+◌, ◌<◌, String, ◌≡◌, refl, ap, ◌∙◌, true, false, Option, none, some, List, arith, str_eq,
  length, strip,
}
use ekaette.Agents.Messages.{Json, Fields, get, null, flag, number, text, list, dict}
use ekaette.Tools.Shipping.Rates.{Python, str_or}
use ekaette.At.CampaignAnalytics.{Analytics}
use ekaette.At.CampaignAnalytics.Once.{Report, report, report_all, event_counts_once}
use ekaette.At.Payments.Records.{Payments, Clock, coerce_amount_kobo, validate_reference}
use ekaette.At.Payments.Gateway.{
  Charge, Processed, processed, process_gateway_event, store_charge, report_if, process_data,
  process_reference, process_amount, charge_report, charge_of, success_report, is_success,
}
use ekaette.At.Payments.Create.{Config}
use ekaette.At.Payments.Webhook.{Call, run}
use ekaette.At.Payments.Reported.{store_charge-kept}
use ekaette.At.Payments.Counted.{run-Reported}

abbrev report_to : Option Report → Analytics → Analytics
report_to none a = a
report_to (some r) a = report r a

report_if-analytics :
    (o : Option Report) (s : Payments) (a : Analytics)
    → s.analytics ≡ a
    → (report_if o s).analytics ≡ report_to o a
report_if-analytics none s a h = h
report_if-analytics (some r) s a h = ap (report r) h

-- The analytics after a charge that was processed.
abbrev IsReported : Clock → Processed → Payments → Payments → Type 0
IsReported clock (processed c) s t =
    t.analytics ≡ report_to (charge_report clock c c.context.campaign_id) s.analytics
IsReported clock (Processed.rejected status) s t = Unit
IsReported clock Processed.crashed s t = Unit

module _ (py : Python) (clock : Clock) where
  abbrev Reports : Processed × Payments → Payments → Type 0
  Reports r s = IsReported clock r.0 s r.1

  process_amount-IsReported :
      (event : String) (raw : Fields) (reference : String) (amount : Option ℕ) (s : Payments)
      → Reports (process_amount py clock event raw reference amount s) s
  process_amount-IsReported event raw reference none s = tt
  process_amount-IsReported event raw reference (some amount_kobo) s =
      let c = charge_of py event raw reference amount_kobo s in
      report_if-analytics (charge_report clock c c.context.campaign_id) (store_charge py clock c s)
        s.analytics (store_charge-kept py clock c s)

  process_reference-IsReported :
      (event : String) (raw : Fields) (reference : Option String) (s : Payments)
      → Reports (process_reference py clock event raw reference s) s
  process_reference-IsReported event raw none s = tt
  process_reference-IsReported event raw (some reference) s =
      process_amount-IsReported event raw reference (coerce_amount_kobo py (get "amount" raw)) s

  process_data-IsReported :
      (event : String) (raw : Option Json) (s : Payments)
      → Reports (process_data py clock event raw s) s
  process_data-IsReported event (some (dict raw)) s =
      process_reference-IsReported event raw
        (validate_reference (str_or py (get "reference" raw) "")) s
  process_data-IsReported event none s = tt
  process_data-IsReported event (some null) s = tt
  process_data-IsReported event (some (flag b)) s = tt
  process_data-IsReported event (some (number n)) s = tt
  process_data-IsReported event (some (text t)) s = tt
  process_data-IsReported event (some (list l)) s = tt

  process_gateway_event-IsReported :
      (payload : Fields) (s : Payments) → Reports (process_gateway_event py clock payload s) s
  unfolding process_gateway_event
  process_gateway_event-IsReported payload s =
      process_data-IsReported (py.lower (strip (str_or py (get "event" payload) "")))
        (get "data" payload) s

  processed-IsReported :
      (payload : Fields) (s : Payments) (c : Charge)
      → (process_gateway_event py clock payload s).0 ≡ processed c
      → (process_gateway_event py clock payload s).1.analytics
        ≡ report_to (charge_report clock c c.context.campaign_id) s.analytics
  processed-IsReported payload s c h =
      let t = (process_gateway_event py clock payload s).1 in
      subst (λ p. IsReported clock p s t) h (process_gateway_event-IsReported payload s)

success_named : (reference : String) → str_eq ("paystack:success:" <> reference) "" ≡ false
unfolding ◌<>◌
success_named reference = cons_not_empty _ _

charge_report_success :
    (clock : Clock) (c : Charge) (campaign_id : String)
    → is_success c.event ≡ true
    → charge_report clock c (some campaign_id) ≡ some (success_report clock c campaign_id)
charge_report_success clock c campaign_id h = rw h refl

-- A success, for a campaign or for none, changes nothing where its report changes nothing.
report_to_again :
    (clock : Clock) (c : Charge) (o : Option String) (a : Analytics)
    → is_success c.event ≡ true
    → ((campaign_id : String) → report (success_report clock c campaign_id) a ≡ a)
    → report_to (charge_report clock c o) a ≡ a
report_to_again clock c none a h again = refl
report_to_again clock c (some campaign_id) a h again =
    ap (λ o. report_to o a) (charge_report_success clock c campaign_id h) ∙ again campaign_id

module _ (py : Python) (config : Config) where
  -- After a success that was counted for a campaign, whatever calls of the service come next, a
  -- success with the same reference changes nothing in the campaign analytics, as long as the event
  -- ids seen and the calls in between are at most 10000.
  pub process_gateway_event-counts_once :
      (clock clock' : Clock) (payload payload' : Fields) (between : List (Clock × Call))
      (s : Payments) (c c' : Charge) (campaign_id : String)
      → (process_gateway_event py clock payload s).0 ≡ processed c
      → is_success c.event ≡ true
      → c.context.campaign_id ≡ some campaign_id
      → length s.analytics.seen_event_ids + length between < 10000
      → let t = run py config between (process_gateway_event py clock payload s).1 in
        (process_gateway_event py clock' payload' t).0 ≡ processed c'
        → is_success c'.event ≡ true
        → c'.reference ≡ c.reference
        → (process_gateway_event py clock' payload' t).1.analytics ≡ t.analytics
  process_gateway_event-counts_once clock clock' payload payload' between s c c' campaign_id h paid
        campaign room h' paid' same =
      let u = (process_gateway_event py clock payload s).1 in
      let t = run py config between u in
      let first = success_report clock c campaign_id in
      let counted : u.analytics ≡ report first s.analytics =
        processed-IsReported py clock payload s c h
        ∙ ap (λ o. report_to (charge_report clock c o) s.analytics) campaign
        ∙ ap (λ o. report_to o s.analytics) (charge_report_success clock c campaign_id paid) in
      let rest = run-Reported py config between u in
      let now : t.analytics ≡ report_all rest.reports (report first s.analytics) =
        rest.seen ∙ ap (report_all rest.reports) counted in
      let again : (k : String) → report (success_report clock' c' k) t.analytics ≡ t.analytics =
        λ k. rw now (
          event_counts_once first (success_report clock' c' k) rest.reports s.analytics
            ("paystack:success:" <> c.reference) refl
            (ap (λ r. some ("paystack:success:" <> r)) same) (success_named c.reference)
            (omega (arith, rest.few, room))) in
      processed-IsReported py clock' payload' t c' h'
      ∙ report_to_again clock' c' c'.context.campaign_id t.analytics paid' again
