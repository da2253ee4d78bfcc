-- ===== src/At/ServiceAuth/Tests.antt =====
-- Requests to app/api/v1/at/wa_security.py, with an HMAC that is the secret itself.
use ekaette.Prelude.{
  ◌*◌, String, ◌≡◌, refl, ◌≢◌, Option, some, [], ◌∷◌, arith, str_eq, if◌then◌else◌, second,
}
use ekaette.Prelude.Int.{pos}
use ekaette.Dict.{lookup, insert, erase_all, keys_where}
use ekaette.At.ServiceAuth.{
  check_nonce, NonceStore, Request, Secrets, Float, ticks, authorised, nonce_replay,
  verify_service_auth,
}
use ekaette.At.ServiceAuth.Nonces.{IsSynced}
use ekaette.At.ServiceAuth.Replay.{Arrival, serve, no_replay, replay_ahead}

keyed : String → String → String
keyed secret message = secret

-- Only the text "soon" stands for 1000 s, and any other for 500 s.
read : String → Option Float
read s = some (ticks (pos (if str_eq s "soon" then 1000 * second else 500 * second)))

abbrev secrets : Secrets
secrets = record { current = "key"; previous = ""; max_skew = 300 * second }

abbrev request : Request
request = record { timestamp = "then"; nonce = "n"; auth = "key"; body = "{}" }

abbrev ahead : Request
ahead = record request { timestamp = "soon" }

abbrev empty : NonceStore
empty = record { nonces = []; timestamps = [] }

empty-IsSynced : IsSynced empty
unfolding lookup
empty-IsSynced = record { unique = tt; same = λ n. refl }

first_passes :
    (verify_service_auth keyed read secrets request (510 * second) (511 * second) empty).0
    ≡ authorised
unfolding verify_service_auth check_nonce keyed read keys_where
first_passes = refl

ahead_passes :
    (verify_service_auth keyed read secrets ahead (700 * second) (700 * second) empty).0
    ≡ authorised
unfolding verify_service_auth check_nonce keyed read keys_where
ahead_passes = refl

second_refused :
    (verify_service_auth keyed read secrets request
      (600 * second)
      (601 * second)
      (verify_service_auth keyed read secrets request (510 * second) (511 * second) empty).1).0
    ≡ nonce_replay
unfolding verify_service_auth check_nonce keyed read keys_where insert erase_all
second_refused = refl

-- with a skew of 290 s, and a body that takes 2 s
abbrev strict : Secrets
strict = record secrets { max_skew = 290 * second }

strict_passes :
    (verify_service_auth keyed read strict request (510 * second) (511 * second) empty).0
    ≡ authorised
unfolding verify_service_auth check_nonce keyed read keys_where
strict_passes = refl

abbrev between : Arrival
between = record { request = ahead; at = 550 * second; nonce_at = 551 * second }

no_replay_example :
    (verify_service_auth keyed read strict request (600 * second) (602 * second) (
      serve keyed read strict
        (between ∷ [])
        (verify_service_auth keyed read strict request (510 * second) (511 * second) empty).1)).0
    ≢ authorised
unfolding read
no_replay_example =
    no_replay keyed read strict request (510 * second) (511 * second) (500 * second) empty
      (between ∷ []) (600 * second) (602 * second) (10 * second) empty-IsSynced (omega arith) refl
      (omega arith) strict_passes (omega arith) (omega arith)

-- the same request at 700 s and at 1001 s
replay_ahead_example :
    (verify_service_auth keyed read secrets ahead
      (1001 * second)
      (1001 * second)
      (verify_service_auth keyed read secrets ahead (700 * second) (700 * second) empty).1).0
    ≡ authorised
unfolding read
replay_ahead_example =
    replay_ahead keyed read secrets ahead (700 * second) (700 * second) (1001 * second)
      (1001 * second) (ticks (pos (1000 * second))) empty empty-IsSynced ahead_passes refl refl
      (omega arith)

-- at 800 s, with a body that is there at 812 s
late_body :
    (verify_service_auth keyed read secrets request
      (800 * second)
      (812 * second)
      (verify_service_auth keyed read secrets request (510 * second) (511 * second) empty).1).0
    ≡ authorised
unfolding verify_service_auth check_nonce keyed read keys_where insert erase_all
late_body = refl
