-- ===== src/At/Webhooks/Guards.antt =====
-- Who passes the guards of the webhooks.
use ekaette.Prelude.{
  ℕ, String, ◌≡◌, refl, ap, ◌≢◌, ◌⊎◌, inl, inr, Bool, true, false, Option, none, some, arith,
  str_eq, eq_iff, Bool-cases, strip,
}
use ekaette.At.ServiceAuth.{compare_digest}
use ekaette.At.Webhooks.{
  is_text, not_false, Limiter, accepted, rate_limited, WebhookRequest, remove_prefix, signed_gate,
  verify_wa_webhook, Claims, TokenResult, verified, TaskRequest, TaskSettings, passed, check_claims,
  verify_cloud_tasks_oidc, or_empty, starts_with,
}

signed_gate-refuses :
    (o : Option Bool) (mode : String) (r : WebhookRequest) (now : ℕ) (limiter : Limiter)
    → o ≢ some true
    → ((signed_gate o mode r now limiter).1 ≡ limiter)
      × ((signed_gate o mode r now limiter).0 ≢ accepted)
      × ((signed_gate o mode r now limiter).0 ≢ rate_limited)
unfolding signed_gate
signed_gate-refuses none mode r now limiter h = (refl, cc, cc)
signed_gate-refuses (some false) mode r now limiter h = (refl, cc, cc)
signed_gate-refuses (some true) mode r now limiter h = absurd (h refl)

-- A WhatsApp webhook whose signature is not the HMAC of its body is refused, for another reason than
-- the rate limit, and does not count towards the rate limit of its client.
pub verify_wa_webhook-refuses :
    (hmac : String → String → String) (app_secret mode : String) (r : WebhookRequest) (now : ℕ)
    (limiter : Limiter)
    → compare_digest (hmac app_secret r.body) (remove_prefix "sha256=" r.signature) ≢ some true
    → ((verify_wa_webhook hmac app_secret mode r now limiter).1 ≡ limiter)
      × ((verify_wa_webhook hmac app_secret mode r now limiter).0 ≢ accepted)
      × ((verify_wa_webhook hmac app_secret mode r now limiter).0 ≢ rate_limited)
unfolding verify_wa_webhook
verify_wa_webhook-refuses hmac app_secret mode r now limiter h =
    elim (Bool-cases (str_eq r.signature "")) [
      | inl unsigned ↦ rw unsigned (refl, cc, cc)
      | inr signed ↦ elim (Bool-cases (str_eq app_secret "")) [
        | inl unset ↦ rw (signed, unset) (refl, cc, cc)
        | inr secret ↦ rw (signed, secret) (signed_gate-refuses _ mode r now limiter h)
      ]
    ]

-- The claims that let a task pass.
pub record Trusts (settings : TaskSettings) (claims : Claims) : Type 0 where
  pub audience : claims.aud ≡ some settings.audience
  pub issuer :
      (or_empty claims.iss ≡ "https://accounts.google.com")
      ⊎ (or_empty claims.iss ≡ "accounts.google.com")
  pub configured : strip settings.invoker_email ≢ ""
  pub invoker : or_empty claims.email ≡ strip settings.invoker_email
  pub email : claims.email_verified ≢ some false

audience_checked :
    (settings : TaskSettings) (aud : Option String)
    → is_text aud settings.audience ≡ true
    → aud ≡ some settings.audience
audience_checked settings none h = cc
audience_checked settings (some s) h = ap some ((eq_iff s settings.audience).0 h)

email_checked :
    (email_verified : Option Bool) → not_false email_verified ≡ true → email_verified ≢ some false
email_checked none h = cc
email_checked (some true) h = cc
email_checked (some false) h = cc

check_claims-Trusts :
    (settings : TaskSettings) (result : TokenResult)
    → check_claims settings result ≡ passed
    → (claims : Claims) × (result ≡ verified claims) × Trusts settings claims
unfolding check_claims
check_claims-Trusts settings TokenResult.invalid_token h = cc
check_claims-Trusts settings TokenResult.unavailable h = cc
check_claims-Trusts settings (verified claims) h = (
  claims,
  refl,
  record {
    audience = audience_checked settings claims.aud (ground arith);
    issuer = ground (
      arith,
      eq_iff "https://accounts.google.com" (or_empty claims.iss),
      eq_iff "accounts.google.com" (or_empty claims.iss),
      eq_iff (or_empty claims.iss) "https://accounts.google.com",
      eq_iff (or_empty claims.iss) "accounts.google.com",
    );
    configured = ground (arith, eq_iff (strip settings.invoker_email) "");
    invoker = ground (arith, eq_iff (or_empty claims.email) (strip settings.invoker_email));
    email = email_checked claims.email_verified (ground arith);
  },
)

-- A Cloud Tasks request passes only with the configured queue, a task name that starts with "wa-", and
-- a bearer token that verifies, with the configured audience, Google as its issuer, and the
-- configured service account as its e-mail, which is not marked as unverified.
pub verify_cloud_tasks_oidc-Trusts :
    (verify_oidc_token : String → TokenResult) (settings : TaskSettings) (r : TaskRequest)
    → verify_cloud_tasks_oidc verify_oidc_token settings r ≡ passed
    → (claims : Claims) × (verify_oidc_token (remove_prefix "Bearer " r.authorization)
        ≡ verified claims)
      × Trusts settings claims
      × (r.queue_name ≡ settings.queue)
      × (starts_with "wa-" r.task_name ≡ true)
      × (starts_with "Bearer " r.authorization ≡ true)
unfolding verify_cloud_tasks_oidc
verify_cloud_tasks_oidc-Trusts verify_oidc_token settings r h =
    let result = verify_oidc_token (remove_prefix "Bearer " r.authorization) in
    let reached : check_claims settings result ≡ passed = ground arith in
    let (claims, token, trusted) = check_claims-Trusts settings result reached in
    (
      claims,
      token,
      trusted,
      ground (arith, eq_iff r.queue_name settings.queue),
      ground arith,
      ground arith,
    )
