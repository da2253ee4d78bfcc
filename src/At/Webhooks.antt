-- ===== src/At/Webhooks.antt =====
-- app/api/v1/at/wa_security.py: `verify_wa_webhook` and `verify_cloud_tasks_oidc`, and
-- app/api/v1/at/security.py: `verify_at_webhook`. HMACs and the verification of Google's tokens are
-- parameters.
pub mod Guards
mod Tests
use Prim.Native.Char.{Char, code}
use ekaette.Prelude.{
  ℕ, ◌*◌, String, Bool, true, false, ◌&&◌, ◌||◌, not, Option, none, some, List, [], ◌∷◌, str_eq,
  ◌==◌, if◌then◌else◌, second, strip,
}
use ekaette.Dict.{key_in}
use ekaette.At.ServiceAuth.{compare_digest}
use ekaette.Public.RateLimit.{Buckets, check_rate_limit}

-- The rest of a text after a prefix.
unfoldable pub after_prefix : String → String → Option String
after_prefix String.[] s = some s
after_prefix (String.◌∷◌ c p) String.[] = none
after_prefix (String.◌∷◌ c p) (String.◌∷◌ d s) = elim (code c == code d) [
  | true ↦ after_prefix p s
  | false ↦ none
]

-- `s.removeprefix(p)`
unfoldable pub remove_prefix : String → String → String
unfolding after_prefix
remove_prefix p s = elim (after_prefix p s) [ none ↦ s | some rest ↦ rest ]

-- `s.startswith(p)`
unfoldable pub starts_with : String → String → Bool
unfolding after_prefix
starts_with p s = elim (after_prefix p s) [ none ↦ false | some rest ↦ true ]

-- The buckets of a rate limit and the time of its last pruning.
pub record Limiter : Type 0 where
  pub buckets : Buckets
  pub last_prune : ℕ

-- `_check_rate_limit`, on the limiter of a router
unfoldable pub limited : String → String → ℕ → ℕ → ℕ → Limiter → Bool × Limiter
limited client_ip bucket limit window now limiter =
    let (allowed, buckets, last_prune) =
      check_rate_limit client_ip bucket limit window 1000 now limiter.buckets limiter.last_prune in
    (allowed, record { buckets = buckets; last_prune = last_prune })

-- The answers, by the status and the detail of the exception; `broken` is the TypeError of
-- `compare_digest`.
pub data Answer : Type 0 where
  accepted : Answer
  missing_signature : Answer
  not_configured : Answer
  invalid_signature : Answer
  edge_required : Answer
  rate_limited : Answer
  bad_mode : Answer
  broken : Answer
  unauthorised_source : Answer

pub record WebhookRequest : Type 0 where
  pub body : String
  pub signature : String
  pub edge_header : String
  pub client_ip : String

unfoldable pub answer_limited : Bool × Limiter → Answer × Limiter
answer_limited (allowed, limiter) = (if allowed then accepted else rate_limited, limiter)

-- the rate-limit gate of `verify_wa_webhook`, by its mode
unfoldable pub rate_gate : String → WebhookRequest → ℕ → Limiter → Answer × Limiter
unfolding limited answer_limited
rate_gate mode r now limiter =
    if str_eq mode "edge_enforced"
    then (if str_eq r.edge_header "1" then accepted else edge_required, limiter)
    else if str_eq mode "best_effort_local"
    then answer_limited (limited r.client_ip "wa_webhook" 60 (60 * second) now limiter)
    else (bad_mode, limiter)

unfoldable pub signed_gate : Option Bool → String → WebhookRequest → ℕ → Limiter → Answer × Limiter
unfolding rate_gate
signed_gate none mode r now limiter = (broken, limiter)
signed_gate (some false) mode r now limiter = (invalid_signature, limiter)
signed_gate (some true) mode r now limiter = rate_gate mode r now limiter

module _ (hmac : String → String → String) where
  unfoldable pub verify_wa_webhook :
      String → String → WebhookRequest → ℕ → Limiter → Answer × Limiter
  unfolding signed_gate compare_digest remove_prefix
  verify_wa_webhook app_secret mode r now limiter =
      if str_eq r.signature ""
      then (missing_signature, limiter)
      else if str_eq app_secret ""
      then (not_configured, limiter)
      else signed_gate
          (compare_digest (hmac app_secret r.body) (remove_prefix "sha256=" r.signature)) mode r now
          limiter

abbrev pub is_empty : List String → Bool
is_empty [] = true
is_empty (s ∷ ss) = false

-- `verify_at_webhook`
unfoldable pub verify_at_webhook : List String → String → ℕ → Limiter → Answer × Limiter
unfolding limited answer_limited
verify_at_webhook allowed_source_ips client_ip now limiter =
    if not (is_empty allowed_source_ips) && not (key_in client_ip allowed_source_ips)
    then (unauthorised_source, limiter)
    else answer_limited (limited client_ip "at" 30 (60 * second) now limiter)

-- What the checks read of a token's claims; `email_verified` is its truth value. A claim that is no
-- text fails the checks as a missing one does.
pub record Claims : Type 0 where
  pub aud : Option String
  pub iss : Option String
  pub email : Option String
  pub email_verified : Option Bool

pub data TokenResult : Type 0 where
  verified : Claims → TokenResult
  invalid_token : TokenResult
  unavailable : TokenResult

pub record TaskRequest : Type 0 where
  pub queue_name : String
  pub task_name : String
  pub authorization : String

pub record TaskSettings : Type 0 where
  pub queue : String
  pub audience : String
  pub invoker_email : String

-- The status of the answer.
pub data Status : Type 0 where
  passed : Status
  forbidden : Status
  server_error : Status

abbrev pub or_empty : Option String → String
or_empty none = ""
or_empty (some s) = s

abbrev pub is_text : Option String → String → Bool
is_text none s = false
is_text (some t) s = str_eq t s

abbrev pub not_false : Option Bool → Bool
not_false (some false) = false
not_false _ = true

-- the checks of the claims
unfoldable pub check_claims : TaskSettings → TokenResult → Status
check_claims settings invalid_token = forbidden
check_claims settings unavailable = server_error
check_claims settings (verified claims) =
    if not (is_text claims.aud settings.audience)
    then forbidden
    else if not
        (key_in (or_empty claims.iss) ("https://accounts.google.com" ∷ "accounts.google.com" ∷ []))
    then forbidden
    else if str_eq (strip settings.invoker_email) ""
    then server_error
    else if not (str_eq (or_empty claims.email) (strip settings.invoker_email))
    then forbidden
    else if not_false claims.email_verified
    then passed
    else forbidden

module _ (verify_oidc_token : String → TokenResult) where
  unfoldable pub verify_cloud_tasks_oidc : TaskSettings → TaskRequest → Status
  unfolding check_claims remove_prefix starts_with
  verify_cloud_tasks_oidc settings r =
      if str_eq r.queue_name "" || str_eq r.task_name ""
      then forbidden
      else if not (str_eq r.queue_name settings.queue)
      then forbidden
      else if not (starts_with "wa-" r.task_name)
      then forbidden
      else if not (starts_with "Bearer " r.authorization)
      then forbidden
      else check_claims settings (verify_oidc_token (remove_prefix "Bearer " r.authorization))
