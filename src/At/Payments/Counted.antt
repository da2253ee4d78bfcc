-- ===== src/At/Payments/Counted.antt =====
-- What the checkouts, the virtual accounts and any calls of app/api/v1/at/service_payments.py report.
use ekaette.Prelude.{
  ℕ, String, ◌≡◌, refl, inl, inr, not, Option, some, List, [], ◌∷◌, arith, str_eq, leb,
  if◌then◌else◌, Bool-cases, length, strip,
}
use ekaette.Prelude.Int.{ℤ}
use ekaette.Agents.Messages.{get, Fields}
use ekaette.Tools.Shipping.Rates.{Python, str_or}
use ekaette.At.CampaignAnalytics.Once.{report_all}
use ekaette.Prelude.Split.{◌<>◌}
use ekaette.At.Payments.Records.{
  normalize_reference, Payments, Clock, store_payment, store_virtual_account,
}
use ekaette.At.Payments.Gateway.{report_if}
use ekaette.At.Payments.Create.{
  Config, Payer, Body, wrong, right, read_body, paystack_is_enabled, initialize_transaction,
  checked_out, Initialized, checkout_payload, checkout_metadata, init_report,
}
use ekaette.At.Payments.VirtualAccounts.{
  AccountArgs, create_virtual_account, customer_code_from_create_response, provision_body, Account,
  Provisioned, with_code, customer_code_in, extract_virtual_account_payload, provision,
  transfer_payload, account_record, phone_of, provisioned,
}
use ekaette.At.Payments.Webhook.{
  Call, gateway_event, verification, checkout, transfer_account, step, run,
}
use ekaette.At.Payments.Reported.{
  Reported, Reported-trans, nothing-Reported, report_if-Reported, Reported-after, Reported-if,
  process_gateway_event-Reported, verify_transaction-Reported,
}

module _ (py : Python) (clock : Clock) (config : Config) where
  checked_out-Reported :
      (payer : Payer) (amount_kobo : ℤ) (currency drawn reference : String) (body : Body)
      (s : Payments)
      → Reported 1 s (checked_out py clock payer amount_kobo currency drawn reference body s).1
  unfolding store_payment
  checked_out-Reported payer amount_kobo currency drawn reference (wrong status) s =
      nothing-Reported s s refl
  checked_out-Reported payer amount_kobo currency drawn reference (right raw) s =
      let resolved = normalize_reference (some (str_or py (get "reference" raw) reference)) drawn in
      let payload =
        checkout_payload py clock payer amount_kobo currency resolved
          (checkout_metadata py payer reference) raw in
      let stored = store_payment clock.iso resolved payload s in
      Reported-after 1 s stored _ refl (report_if-Reported _ stored)

  initialize_transaction-Reported :
      (payer : Payer) (amount_kobo : ℤ) (currency : String) (reference : Option String)
      (drawn drawn_after : String) (answer : ℕ × Fields) (s : Payments)
      → Reported 1 s
          (initialize_transaction py config clock payer amount_kobo currency reference drawn
            drawn_after answer s).1
  unfolding initialize_transaction
  initialize_transaction-Reported payer amount_kobo currency reference drawn drawn_after answer s =
      let normalized = normalize_reference reference drawn in
      Reported-if s (paystack_is_enabled config)
        (checked_out py clock payer amount_kobo currency drawn_after normalized (read_body answer)
          s)
        (Initialized.rejected 503, s)
        (checked_out-Reported payer amount_kobo currency drawn_after normalized (read_body answer)
          s)
        (nothing-Reported s s refl)

  provision-Reported :
      (payer : Payer) (args : AccountArgs) (reference email mode : String) (account : Account)
      (s : Payments)
      → Reported 1 s (provision py config clock payer args reference email mode account s).1
  unfolding store_payment store_virtual_account
  provision-Reported payer args reference email mode account s =
      let stored =
        store_payment clock.iso reference
          (transfer_payload py clock payer args reference email account)
          (store_virtual_account py clock.iso reference
            (account_record py config clock payer args reference email mode account) s) in
      let told =
        init_report clock payer ("paystack:va:init:" <> reference)
          (phone_of payer.customer_phone args.phone) payer.campaign_id in
      Reported-if s (str_eq account.account_number "") (Provisioned.rejected 409, s)
        (provisioned reference account, report_if told stored) (nothing-Reported s s refl)
        (Reported-after 1 s stored _ refl (report_if-Reported told stored))

  provision_body-Reported :
      (payer : Payer) (args : AccountArgs) (reference email mode : String) (body : Body)
      (s : Payments)
      → Reported 1 s (provision_body py config clock payer args reference email mode body s).1
  provision_body-Reported payer args reference email mode (wrong status) s =
      nothing-Reported s s refl
  provision_body-Reported payer args reference email mode (right raw) s =
      provision-Reported payer args reference email mode (extract_virtual_account_payload py raw) s

  with_code-Reported :
      (payer : Payer) (args : AccountArgs) (reference email : String) (create assign : ℕ × Fields)
      (s : Payments) (coded : String × Payments)
      → coded.1.analytics ≡ s.analytics
      → Reported 1 s (with_code py config clock payer args reference email create assign coded).1
  with_code-Reported payer args reference email create assign s (code, t) h =
      Reported-if s (str_eq code "")
        (provision_body py config clock payer args reference email "assign" (read_body assign) t)
        (provision_body py config clock payer args reference email "create" (read_body create) t)
        (Reported-after 1 s t _ h
          (provision_body-Reported payer args reference email "assign" (read_body assign) t))
        (Reported-after 1 s t _ h
          (provision_body-Reported payer args reference email "create" (read_body create) t))

  customer_code-kept :
      (email : String) (body : Fields) (s : Payments)
      → (customer_code_from_create_response email body s).1.analytics ≡ s.analytics
  unfolding customer_code_from_create_response
  customer_code-kept email body s =
      elim (Bool-cases (str_eq (customer_code_in (get "data" body)) "")) [
        | inl absent ↦ rw absent refl
        | inr there ↦ rw there refl
      ]

  create_virtual_account-Reported :
      (payer : Payer) (args : AccountArgs) (drawn : String) (customer create assign : ℕ × Fields)
      (s : Payments)
      → Reported 1 s
          (create_virtual_account py config clock payer args drawn customer create assign s).1
  unfolding create_virtual_account
  create_virtual_account-Reported payer args drawn customer create assign s =
      let email = py.lower (strip payer.email) in
      let reference = normalize_reference args.reference drawn in
      let coded = customer_code_from_create_response email customer.1 s in
      let made : Provisioned × Payments =
        with_code py config clock payer args reference email create assign coded in
      let answered : Provisioned × Payments =
        if leb 500 customer.0 then (Provisioned.rejected 502, s) else made in
      let named : Provisioned × Payments =
        if str_eq email "" then (Provisioned.rejected 400, s) else answered in
      let none_seen = nothing-Reported s s refl in
      Reported-if s (not (paystack_is_enabled config)) (Provisioned.rejected 503, s) named none_seen
        (Reported-if s (str_eq email "") (Provisioned.rejected 400, s) answered none_seen
          (Reported-if s (leb 500 customer.0) (Provisioned.rejected 502, s) made none_seen
            (with_code-Reported payer args reference email create assign s coded
              (customer_code-kept email customer.1 s))))

module _ (py : Python) (config : Config) where
  step-Reported : (call : Clock × Call) (s : Payments) → Reported 1 s (step py config call s)
  unfolding step
  step-Reported (clock, gateway_event payload) s = process_gateway_event-Reported py clock payload s
  step-Reported (clock, verification reference answer) s =
      verify_transaction-Reported py clock config reference answer s
  step-Reported (clock, checkout payer amount_kobo currency reference drawn drawn_after answer) s =
      initialize_transaction-Reported py clock config payer amount_kobo currency reference drawn
        drawn_after answer s
  step-Reported (clock, transfer_account payer args drawn customer create assign) s =
      create_virtual_account-Reported py clock config payer args drawn customer create assign s

  pub run-Reported :
      (calls : List (Clock × Call)) (s : Payments)
      → Reported (length calls) s (run py config calls s)
  unfolding run report_all
  run-Reported [] s = record { reports = []; seen = refl; few = omega arith }
  run-Reported (call ∷ calls) s =
      let t = step py config call s in
      let both =
        Reported-trans 1 (length calls) s t _ (step-Reported call s) (run-Reported calls t) in
      record { reports = both.reports; seen = both.seen; few = omega (arith, both.few) }
