-- ===== src/At/Payments/Webhook.antt =====
-- app/api/v1/at/service_payments.py and app/api/v1/at/payments.py: the webhook of Paystack, the
-- verification of a transaction, and any calls one after the other. The HMAC and the parser of JSON
-- are parameters.
use ekaette.Prelude.Split.{◌<>◌}
use ekaette.Prelude.{
  ℕ, String, Bool, true, false, ◌||◌, Option, none, some, List, [], ◌∷◌, str_eq, if◌then◌else◌,
  strip,
}
use ekaette.Prelude.Int.{ℤ}
use ekaette.Agents.Messages.{Json, Fields, get, text, dict, end, field}
use ekaette.Tools.Shipping.Records.{or_text, clean_str}
use ekaette.Tools.Shipping.Rates.{Python, str_or}
use ekaette.At.ServiceAuth.{compare_digest}
use ekaette.At.Payments.Records.{Payments, Clock, validate_reference}
use ekaette.At.Payments.Gateway.{Processed, process_gateway_event}
use ekaette.At.Payments.Create.{
  Config, paystack_is_enabled, Payer, Body, read_body, initialize_transaction, wrong, right,
}
use ekaette.At.Payments.VirtualAccounts.{AccountArgs, create_virtual_account}

-- The status of the refusal, or what the event gave; `broken` is the TypeError of `compare_digest`.
pub data Answered : Type 0 where
  refused : ℕ → Answered
  broken : Answered
  ok : Processed → Answered

-- `_webhook_secret`
abbrev pub webhook_secret_of : Config → String
webhook_secret_of config = or_text (strip config.webhook_secret) (strip config.secret_key)

module _ (py : Python) (hmac_sha512 : String → String → String) (json : String → Option Json) where
  -- `verify_webhook_signature`, none where `compare_digest` raises
  unfoldable pub verify_webhook_signature : Config → String → Option String → Option Bool
  unfolding compare_digest
  verify_webhook_signature config raw_body signature =
      let secret = webhook_secret_of config in
      let provided = py.lower (clean_str signature) in
      if str_eq secret "" || str_eq provided ""
      then some false
      else compare_digest (py.lower (hmac_sha512 secret raw_body)) provided

  abbrev answered_ok : Processed × Payments → Answered × Payments
  answered_ok (Processed.rejected status, s) = (refused status, s)
  answered_ok (p, s) = (ok p, s)

  abbrev webhook_payload : Clock → Option Json → Payments → Answered × Payments
  webhook_payload clock (some (dict payload)) s =
      answered_ok (process_gateway_event py clock payload s)
  webhook_payload clock _ s = (refused 400, s)

  abbrev pub webhook_checked : Clock → String → Option Bool → Payments → Answered × Payments
  webhook_checked clock raw_body none s = (broken, s)
  webhook_checked clock raw_body (some false) s = (refused 401, s)
  webhook_checked clock raw_body (some true) s = webhook_payload clock (json raw_body) s

  unfoldable pub paystack_webhook :
      Config → Clock → String → Option String → Payments → Answered × Payments
  unfolding verify_webhook_signature process_gateway_event
  paystack_webhook config clock raw_body signature s =
      webhook_checked clock raw_body (verify_webhook_signature config raw_body signature) s

module _ (py : Python) where
  -- The event that a verification makes of the data.
  abbrev pub verified_event : Fields → Fields
  verified_event raw =
      field "event" (text ("charge." <> py.lower (str_or py (get "status" raw) "")))
        (field "data" (dict raw) end)

  abbrev pub verify_body : Clock → Body → Payments → Processed × Payments
  verify_body clock (wrong status) s = (Processed.rejected status, s)
  verify_body clock (right raw) s = process_gateway_event py clock (verified_event raw) s

  abbrev pub verify_valid : Clock → Option String → ℕ × Fields → Payments → Processed × Payments
  verify_valid clock none answer s = (Processed.rejected 400, s)
  verify_valid clock (some reference) answer s = verify_body clock (read_body answer) s

  -- The answer of Paystack is the last argument before the state.
  unfoldable pub verify_transaction :
      Config → Clock → String → ℕ × Fields → Payments → Processed × Payments
  unfolding validate_reference read_body get process_gateway_event
  verify_transaction config clock reference answer s =
      if paystack_is_enabled config
      then verify_valid clock (validate_reference reference) answer s
      else (Processed.rejected 503, s)

-- A call of the service: an event, by a webhook that passed, a verification, and what creates.
pub data Call : Type 0 where
  gateway_event : Fields → Call
  verification : String → ℕ × Fields → Call
  checkout : Payer → ℤ → String → Option String → String → String → ℕ × Fields → Call
  transfer_account : Payer → AccountArgs → String → ℕ × Fields → ℕ × Fields → ℕ × Fields → Call

module _ (py : Python) (config : Config) where
  unfoldable pub step : Clock × Call → Payments → Payments
  unfolding process_gateway_event verify_transaction initialize_transaction create_virtual_account
  step (clock, gateway_event payload) s = (process_gateway_event py clock payload s).1
  step (clock, verification reference answer) s =
      (verify_transaction py config clock reference answer s).1
  step (clock, checkout payer amount_kobo currency reference drawn drawn_after answer) s =
      (initialize_transaction py config clock payer amount_kobo currency reference drawn drawn_after
        answer s).1
  step (clock, transfer_account payer args drawn customer create assign) s =
      (create_virtual_account py config clock payer args drawn customer create assign s).1

  unfoldable pub run : List (Clock × Call) → Payments → Payments
  unfolding step
  run [] s = s
  run (call ∷ calls) s = run calls (step call s)
