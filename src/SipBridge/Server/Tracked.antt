-- ===== src/SipBridge/Server/Tracked.antt =====
-- The sessions of sip_bridge/server.py over its life: whether the table leads to each that still runs.

use ekaette.Prelude.{
  ℕ, String, ◌≡◌, refl, sym, inl, inr, Bool, true, false, ◌||◌, Option, none, some, List, [], ◌∷◌,
  ◌++◌, arith, str_eq, eq_iff, eq_refl, ◌==◌, Bool-cases, All,
}
use mathlib.Core.Path.{subst}
use ekaette.Dict.{Dict, lookup, insert, erase, lookup-insert, lookup-erase}
use ekaette.SipBridge.Caller.{CallSession}
use ekaette.SipBridge.Server.{
  SipServer, start_session, end_call, shut_down, drop_task, is_task, numbers_of,
}

abbrev pub n_in : ℕ → List ℕ → Bool
n_in n [] = false
n_in n (m ∷ ms) = m == n || n_in n ms

abbrev pub is_running : ℕ → String → List (ℕ × String) → Bool
is_running n call_id [] = false
is_running n call_id (t ∷ ts) = is_task n call_id t || is_running n call_id ts

abbrev pub number_is : ℕ → Option (ℕ × CallSession) → Bool
number_is n none = false
number_is n (some (m, session)) = m == n

-- The session of a task is shut, or the table leads to it.
abbrev pub Tracks : Dict (ℕ × CallSession) → List ℕ → ℕ × String → Type 0
Tracks active shut (n, call_id) = (n_in n shut || number_is n (lookup call_id active)) ≡ true

abbrev pub IsTracked : SipServer → Type 0
IsTracked s = All (Tracks s.active_sessions s.shut) s.tasks

-- No call id is that of two tasks.
abbrev pub Differs : String → ℕ × String → Type 0
Differs call_id (n, d) = str_eq call_id d ≡ false

abbrev pub Distinct : List (ℕ × String) → Type 0
Distinct [] = Unit
Distinct ((n, call_id) ∷ ts) = All (Differs call_id) ts × Distinct ts

inserted-Tracks :
    (call_id : String) (new : ℕ × CallSession) (active : Dict (ℕ × CallSession)) (shut : List ℕ)
    (ts : List (ℕ × String))
    → All (Tracks active shut) ts
    → All (Differs call_id) ts
    → All (Tracks (insert call_id new active) shut) ts
inserted-Tracks call_id new active shut [] h d = tt
inserted-Tracks call_id new active shut ((n, c) ∷ ts) h d = (
  rw (lookup-insert call_id c new active, d.0) h.0,
  inserted-Tracks call_id new active shut ts h.1 d.1,
)

pub start_session-IsTracked :
    (call_id : String) (o : Option CallSession) (s : SipServer)
    → IsTracked s
    → Distinct (start_session call_id o s).tasks
    → IsTracked (start_session call_id o s)
unfolding start_session
start_session-IsTracked call_id none s h d = h
start_session-IsTracked call_id (some session) s h d = (
  rw (lookup-insert call_id call_id (s.created, session) s.active_sessions, eq_refl call_id)
      (ground arith),
  inserted-Tracks call_id (s.created, session) s.active_sessions s.shut s.tasks h d.0,
)

shut_down-kept :
    (n : ℕ) (o : Option (ℕ × CallSession)) (shut : List ℕ) (rest : Bool)
    → (n_in n shut || rest) ≡ true
    → (n_in n (shut_down o shut) || rest) ≡ true
shut_down-kept n none shut rest h = h
shut_down-kept n (some (m, session)) shut rest h = ground (arith, h)

shut_down-shuts :
    (n : ℕ) (o : Option (ℕ × CallSession)) (shut : List ℕ)
    → (n_in n shut || number_is n o) ≡ true
    → (n_in n (shut_down o shut) || false) ≡ true
shut_down-shuts n none shut h = h
shut_down-shuts n (some (m, session)) shut h = ground (arith, h)

ended_one-Tracks :
    (call_id : String) (n : ℕ) (c : String) (active : Dict (ℕ × CallSession)) (shut : List ℕ)
    → Tracks active shut (n, c)
    → Tracks (erase call_id active) (shut_down (lookup call_id active) shut) (n, c)
ended_one-Tracks call_id n c active shut h = elim (Bool-cases (str_eq call_id c)) [
  | inl same ↦
      let equal : c ≡ call_id = sym ((eq_iff call_id c).0 same) in
      rw (lookup-erase call_id c active, same)
        (shut_down-shuts n (lookup call_id active) shut (rw equal at h))
  | inr other ↦
      rw (lookup-erase call_id c active, other) (shut_down-kept n (lookup call_id active) shut _ h)
]

ended-Tracks :
    (call_id : String) (active : Dict (ℕ × CallSession)) (shut : List ℕ) (ts : List (ℕ × String))
    → All (Tracks active shut) ts
    → All (Tracks (erase call_id active) (shut_down (lookup call_id active) shut)) ts
ended-Tracks call_id active shut [] h = tt
ended-Tracks call_id active shut ((n, c) ∷ ts) h =
    (ended_one-Tracks call_id n c active shut h.0, ended-Tracks call_id active shut ts h.1)

pub end_call-IsTracked :
    (call_id : String) (s : SipServer) → IsTracked s → IsTracked (end_call call_id s)
unfolding end_call
end_call-IsTracked call_id s h = ended-Tracks call_id s.active_sessions s.shut s.tasks h

-- The tasks of other calls.
others-Tracks :
    (call_id : String) (active : Dict (ℕ × CallSession)) (shut : List ℕ) (ts : List (ℕ × String))
    → All (Tracks active shut) ts
    → All (Differs call_id) ts
    → All (Tracks (erase call_id active) shut) ts
others-Tracks call_id active shut [] h d = tt
others-Tracks call_id active shut ((n, c) ∷ ts) h d =
    (rw (lookup-erase call_id c active, d.0) h.0, others-Tracks call_id active shut ts h.1 d.1)

not_among :
    (n : ℕ) (call_id : String) (ts : List (ℕ × String))
    → All (Differs call_id) ts
    → is_running n call_id ts ≡ false
not_among n call_id [] d = refl
not_among n call_id ((m, c) ∷ ts) d =
    ground (arith, eq_iff c call_id, eq_iff call_id c, d.0, not_among n call_id ts d.1)

same_call :
    (n m : ℕ) (call_id c : String) (ts : List (ℕ × String))
    → is_task n call_id (m, c) ≡ true
    → All (Differs c) ts
    → All (Differs call_id) ts
same_call n m call_id c ts e d =
    subst (λ k. All (Differs k) ts) ((eq_iff c call_id).0 (ground (arith, e))) d

other_call :
    (n m : ℕ) (call_id c : String) (ts : List (ℕ × String))
    → is_task n call_id (m, c) ≡ false
    → is_running n call_id ((m, c) ∷ ts) ≡ true
    → All (Differs c) ts
    → (str_eq call_id c ≡ false) × (is_running n call_id ts ≡ true)
other_call n m call_id c ts e r d = elim (Bool-cases (str_eq call_id c)) [
  | inl same ↦
      let none_left : is_running n call_id ts ≡ false =
        subst (λ k. is_running n k ts ≡ false) (sym ((eq_iff call_id c).0 same))
          (not_among n c ts d) in
      (ground (arith, e, r, none_left), rw e at r)
  | inr other ↦ (other, rw e at r)
]

pub done-Tracks :
    (n : ℕ) (call_id : String) (active : Dict (ℕ × CallSession)) (shut : List ℕ)
    (ts : List (ℕ × String))
    → All (Tracks active shut) ts
    → Distinct ts
    → is_running n call_id ts ≡ true
    → All (Tracks (erase call_id active) shut) (drop_task n call_id ts)
unfolding drop_task
done-Tracks n call_id active shut [] h d r = tt
done-Tracks n call_id active shut ((m, c) ∷ ts) h d r =
    elim (Bool-cases (is_task n call_id (m, c))) [
      | inl it ↦
          rw it (others-Tracks call_id active shut ts h.1 (same_call n m call_id c ts it d.0))
      | inr e ↦
          let (differs, later) = other_call n m call_id c ts e r d.0 in
          rw e (
            rw (lookup-erase call_id c active, differs) h.0,
            done-Tracks n call_id active shut ts h.1 d.1 later,
          )
    ]

-- What `stop` shuts.
number_is-numbers_of :
    (n : ℕ) (call_id : String) (active : Dict (ℕ × CallSession))
    → number_is n (lookup call_id active) ≡ true
    → n_in n (numbers_of active) ≡ true
unfolding lookup
number_is-numbers_of n call_id [] h = ground (arith, h)
number_is-numbers_of n call_id ((k, (m, session)) ∷ active) h =
    ground (arith, h, number_is-numbers_of n call_id active)

pub n_in-append : (n : ℕ) (ms ks : List ℕ) → n_in n (ms ++ ks) ≡ (n_in n ms || n_in n ks)
n_in-append n [] ks = refl
n_in-append n (m ∷ ms) ks = ground (arith, n_in-append n ms ks)

abbrev pub IsShut : List ℕ → ℕ × String → Type 0
IsShut shut (n, call_id) = n_in n shut ≡ true

pub stopped-IsShut :
    (active : Dict (ℕ × CallSession)) (shut : List ℕ) (ts : List (ℕ × String))
    → All (Tracks active shut) ts
    → All (IsShut (numbers_of active ++ shut)) ts
stopped-IsShut active shut [] h = tt
stopped-IsShut active shut ((n, c) ∷ ts) h = (
  ground (arith, h.0, n_in-append n (numbers_of active) shut, number_is-numbers_of n c active),
  stopped-IsShut active shut ts h.1,
)
