-- ===== src/Public/WsAuth/Used.antt =====
-- The table of used tokens of app/api/v1/public/ws_auth.py, as long as few are kept.
use ekaette.Prelude.{
  ℕ, suc, ◌≤◌, String, ◌≡◌, refl, ap, ◌∙◌, inl, inr, false, ◌||◌, not, Option, none, some, List, [],
  ◌∷◌, arith, str_eq, eq_iff, eq_refl, ltb, Bool-cases, Option-cases, length,
}
use ekaette.Dict.{
  HasUniqueKeys, lookup, insert, erase, erase_all, keys_where, lookup-insert, lookup-prune,
  insert-HasUniqueKeys, erase_all-HasUniqueKeys,
}
use mathlib.Core.Option.{none-ne-some}
use mathlib.Core.Path.{subst, sym}
use ekaette.Dict.Size.{length-insert-le}
use ekaette.Public.WsAuth.{
  WsTokenClaims, UsedJtis, max_used_jtis, drop_expired, cap, prune_used_jtis, use_once, consume,
  consume_if, checked_claims,
}

-- A used id that is kept with its expiry, among at most n.
pub record Holds (jti : String) (exp n : ℕ) (used : UsedJtis) : Type 0 where
  unique : HasUniqueKeys used
  kept : lookup jti used ≡ some exp
  few : length used ≤ n

length-erase-le : (j : String) (used : UsedJtis) → length (erase j used) ≤ length used
unfolding erase
length-erase-le j [] = omega arith
length-erase-le j ((k, e) ∷ used) = ground (arith, length-erase-le j used)

length-erase_all-le :
    (js : List String) (used : UsedJtis) → length (erase_all js used) ≤ length used
unfolding erase_all
length-erase_all-le [] used = omega arith
length-erase_all-le (j ∷ js) used =
    let one = length-erase-le j used in
    let rest = length-erase_all-le js (erase j used) in omega (arith, one, rest)

length-drop_expired-le : (now : ℕ) (used : UsedJtis) → length (drop_expired now used) ≤ length used
unfolding drop_expired
length-drop_expired-le now used = length-erase_all-le (keys_where (λ exp. ltb exp now) used) used

-- The cap does nothing to few.
few-cap : (used : UsedJtis) → length used ≤ max_used_jtis → cap used ≡ used
unfolding cap
few-cap used h =
    let test : ltb max_used_jtis (length used) ≡ false = ground (arith, h) in rw test refl

prune_few :
    (now : ℕ) (used : UsedJtis)
    → length used ≤ max_used_jtis
    → prune_used_jtis now used ≡ drop_expired now used
unfolding prune_used_jtis
prune_few now used h =
    let shorter = length-drop_expired-le now used in
    few-cap (drop_expired now used) (omega (arith, h, shorter))

drop_expired-Holds :
    (jti : String) (exp n now : ℕ) (used : UsedJtis)
    → now ≤ exp
    → Holds jti exp n used
    → Holds jti exp n (drop_expired now used)
unfolding drop_expired
drop_expired-Holds jti exp n now used live h =
    let live_test : ltb exp now ≡ false = ground (arith, live) in
    let shorter = length-drop_expired-le now used in
    record {
      unique = erase_all-HasUniqueKeys (keys_where (λ e. ltb e now) used) used h.unique;
      kept = rw (lookup-prune (λ e. ltb e now) jti used h.unique, h.kept, live_test) refl;
      few = omega (arith, h.few, shorter);
    }

prune-Holds :
    (jti : String) (exp n now : ℕ) (used : UsedJtis)
    → now ≤ exp
    → n ≤ max_used_jtis
    → Holds jti exp n used
    → Holds jti exp n (prune_used_jtis now used)
prune-Holds jti exp n now used live few h =
    rw (prune_few now used (omega (arith, few, h.few)))
      (drop_expired-Holds jti exp n now used live h)

more-Holds :
    (jti : String) (exp n : ℕ) (used : UsedJtis) → Holds jti exp n used → Holds jti exp (suc n) used
more-Holds jti exp n used h = record {
  unique = h.unique;
  kept = h.kept;
  few = omega (arith, h.few);
}

other_key :
    (jti j : String) (exp : ℕ) (used : UsedJtis)
    → lookup j used ≡ none
    → lookup jti used ≡ some exp
    → str_eq j jti ≡ false
other_key jti j exp used absent kept = elim (Bool-cases (str_eq j jti)) [
  | inl same ↦ absurd (
      none-ne-some exp
        (sym (subst (λ k. lookup k used ≡ none) ((eq_iff j jti).0 same) absent) ∙ kept))
  | inr other ↦ other
]

insert-Holds :
    (jti : String) (exp n : ℕ) (j : String) (e : ℕ) (used : UsedJtis)
    → lookup j used ≡ none
    → Holds jti exp n used
    → Holds jti exp (suc n) (insert j e used)
insert-Holds jti exp n j e used absent h = record {
  unique = insert-HasUniqueKeys j e used h.unique;
  kept = rw (lookup-insert j jti e used, other_key jti j exp used absent h.kept) h.kept;
  few = omega (arith, h.few, length-insert-le j e used);
}

use_once-Holds :
    (jti : String) (exp n : ℕ) (claims : WsTokenClaims) (used : UsedJtis)
    → Holds jti exp n used
    → Holds jti exp (suc n) (use_once claims (lookup claims.jti used) used).1
use_once-Holds jti exp n claims used h = elim (Option-cases (lookup claims.jti used)) [
  | inl absent ↦ rw absent (insert-Holds jti exp n claims.jti claims.exp used absent h)
  | inr (e, there) ↦ rw there (more-Holds jti exp n used h)
]

pub consume_if-Holds :
    (jti : String) (exp n : ℕ) (o : Option WsTokenClaims) (later : ℕ) (used : UsedJtis)
    → later ≤ exp
    → n ≤ max_used_jtis
    → Holds jti exp n used
    → Holds jti exp (suc n) (consume_if o later used).1
unfolding consume
consume_if-Holds jti exp n none later used live few h = more-Holds jti exp n used h
consume_if-Holds jti exp n (some claims) later used live few h =
    use_once-Holds jti exp n claims (prune_used_jtis later used)
      (prune-Holds jti exp n later used live few h)

abbrev pub or_claims : WsTokenClaims → Option WsTokenClaims → WsTokenClaims
or_claims default none = default
or_claims default (some claims) = claims

-- A first use that is accepted.
first_use :
    (claims c : WsTokenClaims) (exp : Option ℕ) (used : UsedJtis)
    → (use_once c exp used).0 ≡ some claims
    → (c ≡ claims) × (exp ≡ none)
first_use claims c none used h = (ap (or_claims c) h, refl)
first_use claims c (some e) used h = absurd (none-ne-some claims h)

pub accepted_first :
    (claims : WsTokenClaims) (o : Option WsTokenClaims) (later : ℕ) (used : UsedJtis)
    → (consume_if o later used).0 ≡ some claims
    → (o ≡ some claims) × (lookup claims.jti (prune_used_jtis later used) ≡ none)
unfolding consume
accepted_first claims none later used h = absurd (none-ne-some claims h)
accepted_first claims (some c) later used h =
    let (same, absent) = first_use claims c _ (prune_used_jtis later used) h in
    (ap some same, subst (λ c. lookup c.jti (prune_used_jtis later used) ≡ none) same absent)

pub inserted-Holds :
    (claims : WsTokenClaims) (later : ℕ) (used : UsedJtis) (n : ℕ)
    → HasUniqueKeys used
    → length used ≤ n
    → n ≤ max_used_jtis
    → lookup claims.jti (prune_used_jtis later used) ≡ none
    → Holds claims.jti claims.exp (suc n) (consume claims later used).1
unfolding consume drop_expired
inserted-Holds claims later used n unique few small absent =
    let pruned = prune_few later used (omega (arith, few, small)) in
    let shorter = length-drop_expired-le later used in
    let kept = erase_all-HasUniqueKeys (keys_where (λ e. ltb e later) used) used unique in
    rw absent (
      rw pruned record {
        unique = insert-HasUniqueKeys claims.jti claims.exp (drop_expired later used) kept;
        kept =
            rw
              (
                lookup-insert claims.jti claims.jti claims.exp (drop_expired later used),
                eq_refl claims.jti,
              )
              refl;
        few =
            omega (
              arith,
              few,
              shorter,
              length-insert-le claims.jti claims.exp (drop_expired later used),
            );
      })

-- What was checked is the payload, and it is not over.
pub checked_fact :
    (claims : WsTokenClaims) (user_id : String) (now : ℕ) (o : Option WsTokenClaims)
    → checked_claims user_id now o ≡ some claims
    → (o ≡ some claims) × (now ≤ claims.exp)
checked_fact claims user_id now none h = absurd (none-ne-some claims h)
checked_fact claims user_id now (some c) h =
    elim (Bool-cases (ltb c.exp now || not (str_eq c.sub user_id) || str_eq c.jti "")) [
      | inl refused ↦ absurd (none-ne-some claims (rw refused at h))
      | inr fine ↦
          let same : some c ≡ some claims = rw fine at h in
          (same, subst (λ c. now ≤ c.exp) (ap (or_claims c) same) (ground (arith, fine)))
    ]

pub used_again :
    (claims c : WsTokenClaims) (later n : ℕ) (used : UsedJtis)
    → c ≡ claims
    → later ≤ claims.exp
    → n ≤ max_used_jtis
    → Holds claims.jti claims.exp n used
    → (consume c later used).0 ≡ none
unfolding consume
used_again claims c later n used same live few h =
    let kept = (prune-Holds claims.jti claims.exp n later used live few h).kept in
    rw (ap (λ c. lookup c.jti (prune_used_jtis later used)) same, kept) refl
