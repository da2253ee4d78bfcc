-- ===== src/At/Payments/Signed.antt =====
-- The webhook of Paystack (app/api/v1/at/payments.py): only what Paystack signed is processed.
use ekaette.Prelude.{
  String, ◌≡◌, refl, ap, ◌⊎◌, inl, inr, Bool, true, false, ◌&&◌, ◌||◌, Option, none, some, str_eq,
  if◌then◌else◌, Bool-cases,
}
use ekaette.Agents.Messages.{Json}
use ekaette.Tools.Shipping.Records.{clean_str}
use ekaette.Tools.Shipping.Rates.{Python}
use ekaette.At.ServiceAuth.{compare_digest, is_ascii}
use ekaette.At.Payments.Records.{Payments, Clock}
use ekaette.At.Payments.Create.{Config}
use ekaette.At.Payments.Webhook.{
  refused, broken, webhook_secret_of, verify_webhook_signature, paystack_webhook, webhook_checked,
}

compare_digest_differs :
    (a b : String)
    → str_eq a b ≡ false
    → (compare_digest a b ≡ some false) ⊎ (compare_digest a b ≡ none)
unfolding compare_digest
compare_digest_differs a b h = elim (Bool-cases (is_ascii a && is_ascii b)) [
  | inl ascii ↦ inl (rw (ascii, h) refl)
  | inr other ↦ inr (rw other refl)
]

-- A test in front that refuses too.
guarded :
    (b : Bool) (o : Option Bool)
    → (o ≡ some false) ⊎ (o ≡ none)
    → ((if b then some false else o) ≡ some false) ⊎ ((if b then some false else o) ≡ none)
guarded true o h = inl refl
guarded false o h = h

module _ (py : Python) (hmac_sha512 : String → String → String) (json : String → Option Json)
    (config : Config) where
  abbrev IsUnsigned : String → Option String → Type 0
  IsUnsigned raw_body signature =
      str_eq (py.lower (hmac_sha512 (webhook_secret_of config) raw_body))
        (py.lower (clean_str signature))
      ≡ false

  verify_webhook_signature_unsigned :
      (raw_body : String) (signature : Option String)
      → IsUnsigned raw_body signature
      → (verify_webhook_signature py hmac_sha512 json config raw_body signature ≡ some false)
        ⊎ (verify_webhook_signature py hmac_sha512 json config raw_body signature ≡ none)
  unfolding verify_webhook_signature
  verify_webhook_signature_unsigned raw_body signature h =
      let computed = py.lower (hmac_sha512 (webhook_secret_of config) raw_body) in
      let provided = py.lower (clean_str signature) in
      guarded (str_eq (webhook_secret_of config) "" || str_eq provided "")
        (compare_digest computed provided) (compare_digest_differs computed provided h)

  -- A webhook whose signature, stripped and in lower case, is not the HMAC of its body under the
  -- webhook's secret, or the secret key where there is none, is refused, and nothing is recorded.
  pub paystack_webhook-refuses :
      (clock : Clock) (raw_body : String) (signature : Option String) (s : Payments)
      → IsUnsigned raw_body signature
      → (paystack_webhook py hmac_sha512 json config clock raw_body signature s ≡ (refused 401, s))
        ⊎ (paystack_webhook py hmac_sha512 json config clock raw_body signature s ≡ (broken, s))
  unfolding paystack_webhook
  paystack_webhook-refuses clock raw_body signature s h =
      elim (verify_webhook_signature_unsigned raw_body signature h) [
        | inl e ↦ inl (ap (λ v. webhook_checked py hmac_sha512 json clock raw_body v s) e)
        | inr e ↦ inr (ap (λ v. webhook_checked py hmac_sha512 json clock raw_body v s) e)
      ]
