-- ===== src/At/Payments/Reported.antt =====
-- What the calls of app/api/v1/at/service_payments.py report to the campaign analytics.
use ekaette.Prelude.{
  ℕ, ◌+◌, ◌≤◌, String, ◌≡◌, refl, sym, ap, ◌∙◌, inl, inr, Bool, true, false, Option, none, some,
  List, [], ◌∷◌, ◌++◌, arith, str_eq, if◌then◌else◌, Bool-cases, length, length-append, strip,
}
use ekaette.Agents.Messages.{Json, get, null, flag, number, text, list, Fields, dict}
use ekaette.Tools.Shipping.Rates.{Python, str_or}
use ekaette.At.CampaignAnalytics.{Analytics}
use ekaette.At.CampaignAnalytics.Once.{Report, report, report_all}
use ekaette.At.Payments.Records.{
  validate_reference, Payments, Clock, store_payment, store_virtual_account, coerce_amount_kobo,
}
use ekaette.At.Payments.Gateway.{
  payment_payload, Charge, Processed, process_gateway_event, store_charge, sync_account, report_if,
  process_data, process_reference, process_amount, charge_report, charge_of,
}
use ekaette.At.Payments.Create.{Config, Body, wrong, right, read_body, paystack_is_enabled}
use ekaette.At.Payments.Webhook.{verify_transaction, verify_valid, verify_body, verified_event}

-- The analytics after a call have seen at most so many reports more.
pub record Reported (n : ℕ) (s t : Payments) : Type 0 where
  pub reports : List Report
  pub seen : t.analytics ≡ report_all reports s.analytics
  pub few : length reports ≤ n

pub report_all-append :
    (rs rs' : List Report) (a : Analytics)
    → report_all (rs ++ rs') a ≡ report_all rs' (report_all rs a)
unfolding report_all
report_all-append [] rs' a = refl
report_all-append (r ∷ rs) rs' a = report_all-append rs rs' (report r a)

pub nothing-Reported : (s t : Payments) → t.analytics ≡ s.analytics → Reported 1 s t
unfolding report_all
nothing-Reported s t h = record { reports = []; seen = h; few = omega arith }

pub report_if-Reported : (o : Option Report) (s : Payments) → Reported 1 s (report_if o s)
unfolding report_all
report_if-Reported none s = nothing-Reported s s refl
report_if-Reported (some r) s = record { reports = r ∷ []; seen = refl; few = omega arith }

pub Reported-trans :
    (m n : ℕ) (s t u : Payments) → Reported m s t → Reported n t u → Reported (m + n) s u
Reported-trans m n s t u h k = record {
  reports = h.reports ++ k.reports;
  seen =
      k.seen
      ∙ ap (report_all k.reports) h.seen
      ∙ sym (report_all-append h.reports k.reports s.analytics);
  few = omega (arith, h.few, k.few, length-append h.reports k.reports);
}

module _ (py : Python) where
  sync_account-kept :
      (clock : Clock) (c : Charge) (o : Option String) (s : Payments)
      → (sync_account py clock c o s).analytics ≡ s.analytics
  unfolding store_payment store_virtual_account
  sync_account-kept clock c none s = refl
  sync_account-kept clock c (some reference) s = elim (Bool-cases (str_eq reference c.reference)) [
    | inl same ↦ rw same refl
    | inr other ↦ rw other refl
  ]

  pub store_charge-kept :
      (clock : Clock) (c : Charge) (s : Payments)
      → (store_charge py clock c s).analytics ≡ s.analytics
  unfolding store_charge store_payment
  store_charge-kept clock c s =
      sync_account-kept clock c c.context.virtual_account_reference
        (store_payment clock.iso c.reference (payment_payload clock.iso c) s)

-- The analytics may stand before the records.
pub Reported-after :
    (n : ℕ) (s s' t : Payments) → s'.analytics ≡ s.analytics → Reported n s' t → Reported n s t
Reported-after n s s' t h k = record {
  reports = k.reports;
  seen = k.seen ∙ ap (report_all k.reports) h;
  few = k.few;
}

pub Reported-if :
    {A : Type 0} (s : Payments) (b : Bool) (x y : A × Payments)
    → Reported 1 s x.1
    → Reported 1 s y.1
    → Reported 1 s (if b then x else y).1
Reported-if s true x y h k = h
Reported-if s false x y h k = k

module _ (py : Python) (clock : Clock) where
  process_amount-Reported :
      (event : String) (raw : Fields) (reference : String) (amount : Option ℕ) (s : Payments)
      → Reported 1 s (process_amount py clock event raw reference amount s).1
  process_amount-Reported event raw reference none s = nothing-Reported s s refl
  process_amount-Reported event raw reference (some amount_kobo) s =
      let c = charge_of py event raw reference amount_kobo s in
      let stored = store_charge py clock c s in
      Reported-after 1 s stored _ (store_charge-kept py clock c s)
        (report_if-Reported (charge_report clock c c.context.campaign_id) stored)

  process_reference-Reported :
      (event : String) (raw : Fields) (reference : Option String) (s : Payments)
      → Reported 1 s (process_reference py clock event raw reference s).1
  process_reference-Reported event raw none s = nothing-Reported s s refl
  process_reference-Reported event raw (some reference) s =
      process_amount-Reported event raw reference (coerce_amount_kobo py (get "amount" raw)) s

  process_data-Reported :
      (event : String) (raw : Option Json) (s : Payments)
      → Reported 1 s (process_data py clock event raw s).1
  process_data-Reported event (some (dict raw)) s =
      process_reference-Reported event raw (validate_reference (str_or py (get "reference" raw) ""))
        s
  process_data-Reported event none s = nothing-Reported s s refl
  process_data-Reported event (some null) s = nothing-Reported s s refl
  process_data-Reported event (some (flag b)) s = nothing-Reported s s refl
  process_data-Reported event (some (number n)) s = nothing-Reported s s refl
  process_data-Reported event (some (text t)) s = nothing-Reported s s refl
  process_data-Reported event (some (list l)) s = nothing-Reported s s refl

  pub process_gateway_event-Reported :
      (payload : Fields) (s : Payments) → Reported 1 s (process_gateway_event py clock payload s).1
  unfolding process_gateway_event
  process_gateway_event-Reported payload s =
      process_data-Reported (py.lower (strip (str_or py (get "event" payload) "")))
        (get "data" payload) s

  module _ (config : Config) where
    verify_body-Reported :
        (body : Body) (s : Payments) → Reported 1 s (verify_body py clock body s).1
    verify_body-Reported (wrong status) s = nothing-Reported s s refl
    verify_body-Reported (right raw) s = process_gateway_event-Reported (verified_event py raw) s

    verify_valid-Reported :
        (reference : Option String) (answer : ℕ × Fields) (s : Payments)
        → Reported 1 s (verify_valid py clock reference answer s).1
    verify_valid-Reported none answer s = nothing-Reported s s refl
    verify_valid-Reported (some reference) answer s = verify_body-Reported (read_body answer) s

    pub verify_transaction-Reported :
        (reference : String) (answer : ℕ × Fields) (s : Payments)
        → Reported 1 s (verify_transaction py config clock reference answer s).1
    unfolding verify_transaction
    verify_transaction-Reported reference answer s =
        Reported-if s (paystack_is_enabled config)
          (verify_valid py clock (validate_reference reference) answer s)
          (Processed.rejected 503, s)
          (verify_valid-Reported (validate_reference reference) answer s)
          (nothing-Reported s s refl)
