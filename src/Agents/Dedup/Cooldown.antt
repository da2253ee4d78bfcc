-- ===== src/Agents/Dedup/Cooldown.antt =====
-- Which transfers app/agents/dedup.py suppresses.
use ekaette.Prelude.{
  ℕ, ◌+◌, String, ◌≡◌, refl, ap, inl, inr, Bool, true, false, ◌&&◌, Option, none, some, List, [],
  ◌∷◌, str_eq, eq_iff, eq_refl, ltb, if◌then◌else◌, Bool-cases,
}
use ekaette.Agents.Dedup.{
  dedup_cooldown, root_agent_name, DedupState, signature_of, dedup_before_agent,
}

-- A transfer: the agent, the turn's fingerprint and the time.
pub record Transfer : Type 0 where
  pub agent_name : String
  pub fingerprint : String
  pub at : ℕ

-- The last transfer that was let through to an agent other than the root.
abbrev pub Last : Type 0
Last = Option Transfer

module _ (hash : String → String) where
  abbrev pub repeats : Transfer → Last → Bool
  repeats t none = false
  repeats t (some last) =
      str_eq last.agent_name t.agent_name
      && str_eq (hash last.fingerprint) (hash t.fingerprint)
      && ltb t.at (last.at + dedup_cooldown)

  -- The specification: whether the transfer repeats the last one.
  unfoldable pub spec_transfer : Transfer → Last → Bool × Last
  spec_transfer t last =
      if str_eq t.agent_name root_agent_name
      then (false, last)
      else if repeats t last
      then (true, last)
      else (false, some t)

  -- The state that the last transfer leaves.
  abbrev pub state_of : Last → DedupState
  state_of none = record {
    last_agent = none;
    last_ts = none;
    last_signature = none;
    last_turn_hash = none;
  }
  state_of (some t) = record {
    last_agent = some t.agent_name;
    last_ts = some t.at;
    last_signature = some (signature_of hash t.agent_name (hash t.fingerprint));
    last_turn_hash = some (hash t.fingerprint);
  }

  signature_repeats :
      (t last : Transfer)
      → str_eq last.agent_name t.agent_name ≡ true
      → str_eq (hash last.fingerprint) (hash t.fingerprint) ≡ true
      → str_eq
          (signature_of hash last.agent_name (hash last.fingerprint))
          (signature_of hash t.agent_name (hash t.fingerprint))
        ≡ true
  signature_repeats t last a f =
      let agent = (eq_iff last.agent_name t.agent_name).0 a in
      let turn = (eq_iff (hash last.fingerprint) (hash t.fingerprint)).0 f in
      rw (agent, turn) (eq_refl (signature_of hash t.agent_name (hash t.fingerprint)))

  dedup_step :
      (t : Transfer) (last : Last)
      → ((dedup_before_agent hash t.agent_name t.fingerprint t.at (state_of last)).0
          ≡ (spec_transfer t last).0)
        × ((dedup_before_agent hash t.agent_name t.fingerprint t.at (state_of last)).1
            ≡ state_of (spec_transfer t last).1)
  unfolding dedup_before_agent spec_transfer
  dedup_step t none = elim (Bool-cases (str_eq t.agent_name root_agent_name)) [
    | inl root ↦ rw root (refl, refl)
    | inr sub ↦ rw sub (refl, refl)
  ]
  dedup_step t (some last) = elim (Bool-cases (str_eq t.agent_name root_agent_name)) [
    | inl root ↦ rw root (refl, refl)
    | inr sub ↦ elim (Bool-cases (str_eq last.agent_name t.agent_name)) [
      | inr another ↦ rw (sub, another) (refl, refl)
      | inl agent ↦ elim (Bool-cases (str_eq (hash last.fingerprint) (hash t.fingerprint))) [
        | inl turn ↦ elim (Bool-cases (ltb t.at (last.at + dedup_cooldown))) [
          | inl soon ↦ rw (sub, agent, signature_repeats t last agent turn, turn, soon) (refl, refl)
          | inr late ↦ rw (sub, agent, signature_repeats t last agent turn, turn, late) (refl, refl)
        ]
        | inr other_turn ↦
            elim (Bool-cases (
              str_eq (signature_of hash last.agent_name (hash last.fingerprint))
                (signature_of hash t.agent_name (hash t.fingerprint)))) [
                  | inl alike ↦ rw (sub, agent, alike, other_turn) (refl, refl)
                  | inr unlike ↦ rw (sub, agent, unlike, other_turn) (refl, refl)
                ]
      ]
    ]
  ]

  pub suppressed : List Transfer → DedupState → List Bool
  suppressed [] state = []
  suppressed (t ∷ ts) state =
      let (skip, state') = dedup_before_agent hash t.agent_name t.fingerprint t.at state in
      skip ∷ suppressed ts state'

  unfoldable pub spec_suppressed : List Transfer → Last → List Bool
  unfolding spec_transfer
  spec_suppressed [] last = []
  spec_suppressed (t ∷ ts) last =
      let (skip, last') = spec_transfer t last in skip ∷ spec_suppressed ts last'

  -- Over any transfers, from the state that some transfer or none has left, a transfer is suppressed
  -- exactly when it is not to the root agent, and the last transfer that was let through was to the same agent, on a turn
  -- with the same hash, less than two seconds before. The signature adds nothing to that.
  pub suppressed-eq-spec :
      (ts : List Transfer) (last : Last) → suppressed ts (state_of last) ≡ spec_suppressed ts last
  unfolding suppressed spec_suppressed
  suppressed-eq-spec [] last = refl
  suppressed-eq-spec (t ∷ ts) last =
      let (same, after) = dedup_step t last in
      rw (same, after)
        (ap (λ (rest : List Bool). (spec_transfer t last).0 ∷ rest)
          (suppressed-eq-spec ts (spec_transfer t last).1))
