-- ===== src/At/Webhooks/Tests.antt =====
-- Webhooks and tasks, with an HMAC that is the secret itself.
use ekaette.Prelude.{String, ◌≡◌, refl, ◌≢◌, true, some, [], str_eq, if◌then◌else◌, strip}
use ekaette.At.ServiceAuth.{compare_digest}
use ekaette.At.Webhooks.{
  Limiter, accepted, rate_limited, WebhookRequest, remove_prefix, verify_wa_webhook, Claims,
  TokenResult, verified, TaskRequest, TaskSettings, passed, verify_cloud_tasks_oidc, starts_with,
}
use ekaette.At.Webhooks.Guards.{Trusts, verify_wa_webhook-refuses, verify_cloud_tasks_oidc-Trusts}

keyed : String → String → String
keyed secret message = secret

abbrev fresh : Limiter
fresh = record { buckets = []; last_prune = 0 }

abbrev forged : WebhookRequest
forged = record {
  body = "{}";
  signature = "sha256=guess";
  edge_header = "1";
  client_ip = "1.1.1.1";
}

prefix_removed : remove_prefix "sha256=" "sha256=guess" ≡ "guess"
unfolding remove_prefix
prefix_removed = refl

forged_signature :
    compare_digest (keyed "key" forged.body) (remove_prefix "sha256=" forged.signature) ≢ some true
unfolding compare_digest remove_prefix keyed
forged_signature = cc

verify_wa_webhook-refuses_example :
    ((verify_wa_webhook keyed "key" "edge_enforced" forged 5 fresh).1 ≡ fresh)
    × ((verify_wa_webhook keyed "key" "edge_enforced" forged 5 fresh).0 ≢ accepted)
    × ((verify_wa_webhook keyed "key" "edge_enforced" forged 5 fresh).0 ≢ rate_limited)
verify_wa_webhook-refuses_example =
    verify_wa_webhook-refuses keyed "key" "edge_enforced" forged 5 fresh forged_signature

abbrev claims : Claims
claims = record {
  aud = some "https://api";
  iss = some "accounts.google.com";
  email = some "tasks@x";
  email_verified = some true;
}

oidc : String → TokenResult
oidc token = if str_eq token "jwt" then verified claims else TokenResult.invalid_token

abbrev settings : TaskSettings
settings = record { queue = "wa"; audience = "https://api"; invoker_email = "tasks@x " }

abbrev task : TaskRequest
task = record { queue_name = "wa"; task_name = "wa-1"; authorization = "Bearer jwt" }

task_passes : verify_cloud_tasks_oidc oidc settings task ≡ passed
unfolding verify_cloud_tasks_oidc oidc strip
task_passes = refl

verify_cloud_tasks_oidc-Trusts_example :
    (c : Claims) × (oidc (remove_prefix "Bearer " "Bearer jwt") ≡ verified c)
    × Trusts settings c
    × (task.queue_name ≡ settings.queue)
    × (starts_with "wa-" "wa-1" ≡ true)
    × (starts_with "Bearer " "Bearer jwt" ≡ true)
verify_cloud_tasks_oidc-Trusts_example =
    verify_cloud_tasks_oidc-Trusts oidc settings task task_passes
