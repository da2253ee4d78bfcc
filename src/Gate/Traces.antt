-- ===== src/Gate/Traces.antt =====
-- Sequences of preflights and commits against a store that keeps the contract, in the order in which
-- they take its lock.
use ekaette.Prelude.{
  ℕ, ◌+◌, String, ◌≡◌, refl, ◌∙◌, ◌≢◌, some, List, [], ◌∷◌, str_eq, if◌then◌else◌, All,
}
use ekaette.Gate.{pending, done, Entry, proceed, replay, payload_mismatch, in_progress, Gate}

-- One locked section: a preflight (key, fingerprint, time), or a commit (key, fingerprint, response,
-- time).
pub data Call (B : Type 0) : Type 0 where
  begin_call : String → String → ℕ → Call B
  finish_call : String → String → B → ℕ → Call B

module _ {B : Type 0} (G : Gate B) where
  open G use {Store, IsValid, find, pending_ttl, done_ttl, IsLive, begin, finish}

  abbrev pub perform : Store → Call B → Store
  perform s (begin_call key fp now) = (begin key fp now s).1
  perform s (finish_call key fp body now) = finish key fp body now s

  abbrev pub run : Store → List (Call B) → Store
  run s [] = s
  run s (c ∷ calls) = run (perform s c) calls

  -- The call comes before the deadline, and commits nothing under the key.
  abbrev pub Spares : String → ℕ → Call B → Type 0
  Spares key deadline (begin_call _ _ now) = IsLive now deadline
  Spares key deadline (finish_call j _ _ now) = (j ≢ key) × IsLive now deadline

  perform_keeps :
      (c : Call B) (key : String) (s : Store) (v : Entry B)
      → IsValid s
      → Spares key v.expires_at c
      → find key s ≡ some v
      → IsValid (perform s c) × (find key (perform s c) ≡ some v)
  perform_keeps (begin_call j fp now) key s v valid spares there =
      (G.begin-IsValid j fp now s valid, G.begin_keeps j key fp now s v valid there spares)
  perform_keeps (finish_call j fp body now) key s v valid spares there =
      (G.finish-IsValid j fp body now s valid, G.finish_keeps j key fp body now s spares.0 ∙ there)

  run_keeps :
      (calls : List (Call B)) (key : String) (s : Store) (v : Entry B)
      → IsValid s
      → All (Spares key v.expires_at) calls
      → find key s ≡ some v
      → IsValid (run s calls) × (find key (run s calls) ≡ some v)
  run_keeps [] key s v valid spares there = (valid, there)
  run_keeps (c ∷ calls) key s v valid spares there =
      let (valid', there') = perform_keeps c key s v valid spares.0 there in
      run_keeps calls key (perform s c) v valid' spares.1 there'

  module _ (key fp : String) (t : ℕ) (s : Store) (valid : IsValid s)
      (go : (begin key fp t s).0 ≡ proceed) where
    abbrev claim : Entry B
    claim = record { fingerprint = fp; state = pending; expires_at = t + pending_ttl }

    abbrev finished : ℕ → B → Entry B
    finished at body = record { fingerprint = fp; state = done body; expires_at = at + done_ttl }

    pub one_worker :
        (calls : List (Call B)) (fp' : String) (now : ℕ)
        → All (Spares key (t + pending_ttl)) calls
        → IsLive now (t + pending_ttl)
        → (begin key fp' now (run (begin key fp t s).1 calls)).0
          ≡ (if str_eq fp fp' then in_progress else payload_mismatch)
    one_worker calls fp' now spares soon =
        let (valid', there) =
          run_keeps calls key _ claim (G.begin-IsValid key fp t s valid) spares
            (G.begin_claims key fp t s go) in
        G.begin_live key fp' now _ claim valid' there soon

    pub replay_after_commit :
        (before after : List (Call B)) (at : ℕ) (body : B) (fp' : String) (now : ℕ)
        → All (Spares key (t + pending_ttl)) before
        → All (Spares key (at + done_ttl)) after
        → IsLive now (at + done_ttl)
        → (begin key fp' now
            (run (finish key fp body at (run (begin key fp t s).1 before)) after)).0
          ≡ (if str_eq fp fp' then replay body else payload_mismatch)
    replay_after_commit before after at body fp' now spares₁ spares₂ soon =
        let (valid₁, there₁) =
          run_keeps before key _ claim (G.begin-IsValid key fp t s valid) spares₁
            (G.begin_claims key fp t s go) in
        let (valid₂, there₂) =
          run_keeps after key _ (finished at body) (G.finish-IsValid key fp body at _ valid₁)
            spares₂ (G.finish_stores key fp body at _ claim there₁ refl) in
        G.begin_live key fp' now _ (finished at body) valid₂ there₂ soon
