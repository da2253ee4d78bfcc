-- ===== src/At/ServiceAuth/Replay.antt =====
-- Whether a request to app/api/v1/at/wa_security.py that was authorised can be sent again.
use ekaette.Prelude.{
  ℕ, ◌+◌, ◌≤◌, ◌<◌, String, ◌≡◌, refl, ◌≢◌, ◌⊎◌, inl, inr, Bool, true, false, ◌||◌, Option, none,
  some, List, [], ◌∷◌, arith, str_eq, eq_iff, if◌then◌else◌, Bool-cases, All, dec_lt,
}
use ekaette.Prelude.Int.{pos}
use ekaette.Dict.{lookup}
use ekaette.At.ServiceAuth.{
  NonceStore, nonce_ttl, check_nonce, Request, Secrets, Float, ticks, is_skewed, Verdict,
  authorised, nonce_replay, is_authentic, use_request, verify_timed, verify_service_auth,
}
use ekaette.At.ServiceAuth.Nonces.{
  IsSynced, check_nonce-IsSynced, check_nonce_answer, check_nonce_entry,
}

-- A request, the time at which it comes, and the time at which its body is there and its nonce is checked.
pub record Arrival : Type 0 where
  pub request : Request
  pub at : ℕ
  pub nonce_at : ℕ

-- A request is refused and leaves the nonces alone, or passes its checks and has its nonce checked.
abbrev Checked : ℕ → Request → ℕ → ℕ → NonceStore → Option Float → Verdict × NonceStore → Type 0
Checked max_skew r now later store read (verdict, after) =
    ((verdict ≢ authorised) × (after ≡ store))
    ⊎ ((ts : Float) × (read ≡ some ts)
        × (is_skewed max_skew now ts ≡ false)
        × (verdict ≡ (if (check_nonce r.nonce later store).0 then authorised else nonce_replay))
        × (after ≡ (check_nonce r.nonce later store).1))

All-soon :
    (arrivals : List Arrival) (now t : ℕ)
    → All (λ a. a.nonce_at ≤ now) arrivals
    → now ≤ t
    → All (λ a. a.nonce_at ≤ t) arrivals
All-soon [] now t before le = tt
All-soon (a ∷ arrivals) now t before le = (omega arith, All-soon arrivals now t before.1 le)

module _ (hmac : String → String → String) (read_float : String → Option Float)
    (secrets : Secrets) where
  abbrev verify : Request → ℕ → ℕ → NonceStore → Verdict × NonceStore
  verify r now later store = verify_service_auth hmac read_float secrets r now later store

  -- The nonces after requests.
  pub serve : List Arrival → NonceStore → NonceStore
  serve [] store = store
  serve (a ∷ arrivals) store = serve arrivals (verify a.request a.at a.nonce_at store).1

  use_request_outcome :
      (r : Request) (now later : ℕ) (o : Option Bool) (store : NonceStore) (ts : Float)
      → is_skewed secrets.max_skew now ts ≡ false
      → Checked secrets.max_skew r now later store (some ts) (use_request r.nonce later o store)
  unfolding use_request
  use_request_outcome r now later none store ts h = inl (cc, refl)
  use_request_outcome r now later (some false) store ts h = inl (cc, refl)
  use_request_outcome r now later (some true) store ts h = inr (ts, refl, h, refl, refl)

  verify_timed_outcome :
      (r : Request) (now later : ℕ) (read : Option Float) (store : NonceStore)
      → Checked secrets.max_skew r now later store read
          (verify_timed hmac read_float secrets r now later read store)
  unfolding verify_timed
  verify_timed_outcome r now later none store = inl (cc, refl)
  verify_timed_outcome r now later (some ts) store =
      elim (Bool-cases (is_skewed secrets.max_skew now ts)) [
        | inl late ↦ rw late (inl (cc, refl))
        | inr soon ↦
            rw soon (
              use_request_outcome r now later (is_authentic hmac read_float secrets r) store ts
                soon)
      ]

  verify_outcome :
      (r : Request) (now later : ℕ) (store : NonceStore)
      → Checked secrets.max_skew r now later store
          (read_float r.timestamp)
          (verify r now later store)
  unfolding verify_service_auth
  verify_outcome r now later store =
      elim (Bool-cases (str_eq r.timestamp "" || str_eq r.nonce "" || str_eq r.auth "")) [
        | inl missing ↦ rw missing (inl (cc, refl))
        | inr there ↦ rw there (verify_timed_outcome r now later (read_float r.timestamp) store)
      ]

  verify-IsSynced :
      (r : Request) (now later : ℕ) (store : NonceStore)
      → IsSynced store
      → IsSynced (verify r now later store).1
  verify-IsSynced r now later store s = elim (verify_outcome r now later store) [
    | inl (refused, same) ↦ rw same s
    | inr (ts, read, soon, verdict, after) ↦ rw after (check_nonce-IsSynced r.nonce later store s)
  ]

  -- A nonce that has not expired stays.
  verify-keeps :
      (r : Request) (now later : ℕ) (store : NonceStore) (n : String) (used : ℕ)
      → IsSynced store
      → lookup n store.timestamps ≡ some used
      → later ≤ used + nonce_ttl
      → lookup n (verify r now later store).1.timestamps ≡ some used
  verify-keeps r now later store n used s there soon = elim (verify_outcome r now later store) [
    | inl (refused, same) ↦ rw same there
    | inr (ts, read, early, verdict, after) ↦ rw after (
        ground (
          arith,
          check_nonce_entry r.nonce n later store s,
          check_nonce_answer r.nonce later store s,
          eq_iff r.nonce n,
        ))
  ]

  serve-IsSynced :
      (arrivals : List Arrival) (store : NonceStore)
      → IsSynced store
      → IsSynced (serve arrivals store)
  unfolding serve
  serve-IsSynced [] store s = s
  serve-IsSynced (a ∷ arrivals) store s =
      serve-IsSynced arrivals (verify a.request a.at a.nonce_at store).1
        (verify-IsSynced a.request a.at a.nonce_at store s)

  serve-keeps :
      (arrivals : List Arrival) (store : NonceStore) (n : String) (used : ℕ)
      → IsSynced store
      → lookup n store.timestamps ≡ some used
      → All (λ a. a.nonce_at ≤ used + nonce_ttl) arrivals
      → lookup n (serve arrivals store).timestamps ≡ some used
  unfolding serve
  serve-keeps [] store n used s there soon = there
  serve-keeps (a ∷ arrivals) store n used s there soon =
      serve-keeps arrivals (verify a.request a.at a.nonce_at store).1 n used
        (verify-IsSynced a.request a.at a.nonce_at store s)
        (verify-keeps a.request a.at a.nonce_at store n used s there soon.0) soon.1

  -- An authorised request's nonce is kept.
  authorised-kept :
      (r : Request) (now later : ℕ) (store : NonceStore)
      → IsSynced store
      → (verify r now later store).0 ≡ authorised
      → (lookup r.nonce (verify r now later store).1.timestamps ≡ some later)
        × IsSynced (verify r now later store).1
  authorised-kept r now later store s h = elim (verify_outcome r now later store) [
    | inl (refused, same) ↦ absurd (refused h)
    | inr (ts, read, early, verdict, after) ↦ (
      rw after
          (ground (arith, check_nonce_entry r.nonce r.nonce later store s, eq_iff r.nonce r.nonce)),
      verify-IsSynced r now later store s,
    )
  ]

  refused_soon :
      (r : Request) (now later used : ℕ) (store : NonceStore)
      → IsSynced store
      → lookup r.nonce store.timestamps ≡ some used
      → later ≤ used + nonce_ttl
      → (verify r now later store).0 ≢ authorised
  refused_soon r now later used store s there soon = elim (verify_outcome r now later store) [
    | inl (refused, same) ↦ refused
    | inr (ts, read, early, verdict, after) ↦
        ground (arith, check_nonce_answer r.nonce later store s)
  ]

  refused_late :
      (r : Request) (now later ts : ℕ) (store : NonceStore)
      → read_float r.timestamp ≡ some (ticks (pos ts))
      → ts + secrets.max_skew < now
      → (verify r now later store).0 ≢ authorised
  refused_late r now later ts store stamped late = elim (verify_outcome r now later store) [
    | inl (refused, same) ↦ refused
    | inr (t, read, early, verdict, after) ↦ ground arith
  ]

  -- A request that was authorised, and whose timestamp was not ahead of the clock when its nonce was kept, is
  -- never authorised again, at whatever time it comes and whatever requests were checked before it, if its
  -- body is there within a delay that makes at most five minutes together with the skew.
  pub no_replay :
      (r : Request) (t kept_at ts : ℕ) (store : NonceStore) (arrivals : List Arrival)
      (now later delay : ℕ)
      → IsSynced store
      → secrets.max_skew + delay ≤ nonce_ttl
      → read_float r.timestamp ≡ some (ticks (pos ts))
      → ts ≤ kept_at
      → (verify r t kept_at store).0 ≡ authorised
      → All (λ a. a.nonce_at ≤ later) arrivals
      → later ≤ now + delay
      → (verify r now later (serve arrivals (verify r t kept_at store).1)).0 ≢ authorised
  no_replay r t kept_at ts store arrivals now later delay s skew stamped behind went before prompt =
      let (there, synced) = authorised-kept r t kept_at store s went in
      let after = (verify r t kept_at store).1 in
      elim (dec_lt (kept_at + nonce_ttl) later) [
        | yes late ↦ refused_late r now later ts (serve arrivals after) stamped (omega arith)
        | no soon ↦
            refused_soon r now later kept_at (serve arrivals after)
              (serve-IsSynced arrivals after synced)
              (serve-keeps arrivals after r.nonce kept_at synced there
                (All-soon arrivals later (kept_at + nonce_ttl) before (omega arith)))
              (omega arith)
      ]

  use_request-authorised :
      (n : String) (now : ℕ) (o : Option Bool) (store : NonceStore)
      → (use_request n now o store).0 ≡ authorised
      → o ≡ some true
  unfolding use_request
  use_request-authorised n now none store h = cc
  use_request-authorised n now (some false) store h = cc
  use_request-authorised n now (some true) store h = refl

  verify_timed-authorised :
      (r : Request) (now later : ℕ) (read : Option Float) (store : NonceStore)
      → (verify_timed hmac read_float secrets r now later read store).0 ≡ authorised
      → is_authentic hmac read_float secrets r ≡ some true
  unfolding verify_timed
  verify_timed-authorised r now later none store h = cc
  verify_timed-authorised r now later (some ts) store h =
      elim (Bool-cases (is_skewed secrets.max_skew now ts)) [
        | inl late ↦ let h' = rw late at h in cc
        | inr soon ↦
            use_request-authorised r.nonce later (is_authentic hmac read_float secrets r) store
              (rw soon at h)
      ]

  -- The checks that do not depend on the time or the nonces.
  authorised-genuine :
      (r : Request) (now later : ℕ) (store : NonceStore)
      → (verify r now later store).0 ≡ authorised
      → ((str_eq r.timestamp "" || str_eq r.nonce "" || str_eq r.auth "") ≡ false)
        × (is_authentic hmac read_float secrets r ≡ some true)
  unfolding verify_service_auth
  authorised-genuine r now later store h =
      elim (Bool-cases (str_eq r.timestamp "" || str_eq r.nonce "" || str_eq r.auth "")) [
        | inl missing ↦ let h' = rw missing at h in cc
        | inr there ↦ (
          there,
          verify_timed-authorised r now later (read_float r.timestamp) store (rw there at h),
        )
      ]

  replayed :
      (r : Request) (now later : ℕ) (ts : Float) (store : NonceStore)
      → (str_eq r.timestamp "" || str_eq r.nonce "" || str_eq r.auth "") ≡ false
      → is_authentic hmac read_float secrets r ≡ some true
      → read_float r.timestamp ≡ some ts
      → is_skewed secrets.max_skew now ts ≡ false
      → (check_nonce r.nonce later store).0 ≡ true
      → (verify r now later store).0 ≡ authorised
  unfolding verify_service_auth verify_timed use_request
  replayed r now later ts store headers genuine stamped early fresh =
      rw (headers, stamped, verify_timed, early, genuine, use_request, fresh) refl

  -- A request that was authorised is authorised again if its nonce has expired when the nonce is checked and
  -- its timestamp was within the skew when it came: with both at five minutes, one that has a timestamp ahead
  -- of the clock, or one whose body comes late.
  pub replay_ahead :
      (r : Request) (t kept_at now later : ℕ) (ts : Float) (store : NonceStore)
      → IsSynced store
      → (verify r t kept_at store).0 ≡ authorised
      → read_float r.timestamp ≡ some ts
      → is_skewed secrets.max_skew now ts ≡ false
      → kept_at + nonce_ttl < later
      → (verify r now later (verify r t kept_at store).1).0 ≡ authorised
  replay_ahead r t kept_at now later ts store s went stamped early late =
      let (headers, genuine) = authorised-genuine r t kept_at store went in
      let (there, synced) = authorised-kept r t kept_at store s went in
      let after = (verify r t kept_at store).1 in
      let fresh : (check_nonce r.nonce later after).0 ≡ true =
        ground (arith, check_nonce_answer r.nonce later after synced, there) in
      replayed r now later ts after headers genuine stamped early fresh
