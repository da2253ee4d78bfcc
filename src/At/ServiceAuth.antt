-- ===== src/At/ServiceAuth.antt =====
-- app/api/v1/at/wa_security.py: `verify_service_auth`, with the nonces kept in the process. The HMAC
-- and the reading of a float are parameters; a body is its text, as it is decoded for the HMAC. The clock is
-- read before the body is awaited and again when the nonce is checked; the store is the one found then.
pub mod Nonces
pub mod Replay
mod Tests
use Prim.Native.Char.{code}
use ekaette.Prelude.{
  ℕ, ◌+◌, ◌-◌, ◌*◌, String, Bool, true, false, ◌&&◌, ◌||◌, Option, none, some, List, [], ◌∷◌,
  str_eq, ltb, if◌then◌else◌, colon, second,
}
use ekaette.Prelude.Int.{ℤ, pos, negsuc}
use ekaette.Dict.{Dict, key_in, insert, erase_all, keys_where}

abbrev pub nonce_ttl : ℕ
nonce_ttl = 300 * second

-- `_nonce_store` and `_nonce_timestamps`
pub record NonceStore : Type 0 where
  pub nonces : List String
  pub timestamps : Dict ℕ

-- `nonces.discard(n)`
unfoldable pub discard : String → List String → List String
discard n [] = []
discard n (m ∷ ms) = let rest = discard n ms in if str_eq n m then rest else m ∷ rest

unfoldable pub discard_all : List String → List String → List String
unfolding discard
discard_all [] nonces = nonces
discard_all (n ∷ ns) nonces = discard_all ns (discard n nonces)

abbrev pub is_expired : ℕ → ℕ → Bool
is_expired now ts = ltb nonce_ttl (now - ts)

unfoldable pub prune_nonces : ℕ → NonceStore → NonceStore
unfolding discard_all
prune_nonces now store =
    let expired = keys_where (is_expired now) store.timestamps in
    record {
      nonces = discard_all expired store.nonces;
      timestamps = erase_all expired store.timestamps;
    }

-- the rest of `_check_nonce`, after pruning
unfoldable pub use_nonce : String → ℕ → NonceStore → Bool × NonceStore
use_nonce nonce now store = if key_in nonce store.nonces then (false, store) else (
  true,
  record { nonces = nonce ∷ store.nonces; timestamps = insert nonce now store.timestamps },
)

unfoldable pub check_nonce : String → ℕ → NonceStore → Bool × NonceStore
unfolding prune_nonces use_nonce
check_nonce nonce now store = use_nonce nonce now (prune_nonces now store)

-- The three headers and the body. A header that is missing is empty.
pub record Request : Type 0 where
  pub timestamp : String
  pub nonce : String
  pub auth : String
  pub body : String

pub record Secrets : Type 0 where
  pub current : String
  pub previous : String
  pub max_skew : ℕ

-- What `float` returns: a number of ticks, or a value with which no comparison holds, or an infinity.
pub data Float : Type 0 where
  ticks : ℤ → Float
  not_a_number : Float
  infinite : Float

-- `skew > max_skew`
abbrev pub is_skewed : ℕ → ℕ → Float → Bool
is_skewed max_skew now (ticks (pos ts)) = ltb max_skew (now - ts) || ltb max_skew (ts - now)
is_skewed max_skew now (ticks (negsuc n)) = ltb max_skew (now + n + 1)
is_skewed max_skew now not_a_number = false
is_skewed max_skew now infinite = true

-- The answers, by the detail of the exception; `broken` is the TypeError of `compare_digest`.
pub data Verdict : Type 0 where
  authorised : Verdict
  missing_headers : Verdict
  invalid_timestamp : Verdict
  timestamp_expired : Verdict
  invalid_auth : Verdict
  nonce_replay : Verdict
  broken : Verdict

unfoldable pub is_ascii : String → Bool
is_ascii String.[] = true
is_ascii (String.◌∷◌ c s) = ltb (code c) 128 && is_ascii s

-- `hmac.compare_digest` of two texts
unfoldable pub compare_digest : String → String → Option Bool
unfolding is_ascii
compare_digest a b = if is_ascii a && is_ascii b then some (str_eq a b) else none

-- the nonce, once the HMAC is checked
unfoldable pub use_request : String → ℕ → Option Bool → NonceStore → Verdict × NonceStore
use_request nonce now none store = (broken, store)
use_request nonce now (some false) store = (invalid_auth, store)
use_request nonce now (some true) store =
    let (fresh, store') = check_nonce nonce now store in
    (if fresh then authorised else nonce_replay, store')

module _ (hmac : String → String → String) (read_float : String → Option Float) where
  -- `_verify_hmac_with_secret`
  unfoldable pub verify_hmac_with_secret : String → String → String → Option Bool
  unfolding compare_digest
  verify_hmac_with_secret secret message received_hmac =
      if str_eq secret "" then some false else compare_digest (hmac secret message) received_hmac

  -- against the current secret, and the previous one
  unfoldable pub is_authentic : Secrets → Request → Option Bool
  unfolding verify_hmac_with_secret
  is_authentic secrets r =
      let message = colon r.timestamp (colon r.nonce r.body) in
      elim (verify_hmac_with_secret secrets.current message r.auth) [
        | none ↦ none
        | some true ↦ some true
        | some false ↦ verify_hmac_with_secret secrets.previous message r.auth
      ]

  -- The checks after the headers are there. The clock is read twice: `now` for the timestamp, and `later`
  -- in `_check_nonce`, once the body has come.
  unfoldable pub verify_timed :
      Secrets → Request → ℕ → ℕ → Option Float → NonceStore → Verdict × NonceStore
  unfolding use_request is_authentic
  verify_timed secrets r now later none store = (invalid_timestamp, store)
  verify_timed secrets r now later (some ts) store =
      if is_skewed secrets.max_skew now ts
      then (timestamp_expired, store)
      else use_request r.nonce later (is_authentic secrets r) store

  unfoldable pub verify_service_auth : Secrets → Request → ℕ → ℕ → NonceStore → Verdict × NonceStore
  unfolding verify_timed
  verify_service_auth secrets r now later store =
      if str_eq r.timestamp "" || str_eq r.nonce "" || str_eq r.auth ""
      then (missing_headers, store)
      else verify_timed secrets r now later (read_float r.timestamp) store
