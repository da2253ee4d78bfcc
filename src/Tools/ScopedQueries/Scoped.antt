-- ===== src/Tools/ScopedQueries/Scoped.antt =====
-- Where the queries of app/tools/scoped_queries.py go.
use ekaette.Prelude.{
  String, ◌≡◌, refl, ◌⊎◌, inl, inr, Bool, true, false, Option, none, some, List, [], ◌∷◌, arith,
  Bool-cases,
}
use ekaette.Dict.{Dict, lookup}
use ekaette.Agents.Policy.{StateValue}
use ekaette.Tools.ScopedQueries.{
  is_key, tenant_id_from_context, company_id_from_context, company_path, scoped_collection,
  has_scope_key, or_global, scoped_collection_or_global,
}

-- The session has neither key.
abbrev pub IsUnscoped : Option (Dict StateValue) → Type 0
IsUnscoped none = Unit
IsUnscoped (some state) =
    (lookup "app:tenant_id" state ≡ none) × (lookup "app:company_id" state ≡ none)

-- Nothing, the collection of the session's company, or the global one where the session names neither a tenant
-- nor a company.
abbrev pub InScope : Option (Dict StateValue) → String → Option (List String) → Type 0
InScope state subcollection none = Unit
InScope state subcollection (some path) =
    ((tenant_id : String) × (company_id : String) × (tenant_id_from_context state ≡ some tenant_id)
      × (company_id_from_context state ≡ some company_id)
      × (path ≡ "tenants" ∷ tenant_id ∷ "companies" ∷ company_id ∷ subcollection ∷ []))
    ⊎ (IsUnscoped state × (path ≡ subcollection ∷ []))

absent : (v : Option StateValue) → is_key v ≡ false → v ≡ none
absent none h = refl
absent (some v) h = ground (arith, h)

has_scope_key-IsUnscoped :
    (state : Option (Dict StateValue)) → has_scope_key state ≡ false → IsUnscoped state
unfolding has_scope_key
has_scope_key-IsUnscoped none h = tt
has_scope_key-IsUnscoped (some state) h = (
  absent (lookup "app:tenant_id" state) (ground (arith, h)),
  absent (lookup "app:company_id" state) (ground (arith, h)),
)

global-InScope :
    (state : Option (Dict StateValue)) (subcollection : String)
    → InScope state subcollection (or_global state subcollection none)
global-InScope state subcollection = elim (Bool-cases (has_scope_key state)) [
  | inl keyed ↦ rw keyed tt
  | inr unkeyed ↦ rw unkeyed (inr (has_scope_key-IsUnscoped state unkeyed, refl))
]

company_path-InScope :
    (state : Option (Dict StateValue)) (subcollection : String) (tenant company : Option String)
    → tenant_id_from_context state ≡ tenant
    → company_id_from_context state ≡ company
    → InScope state subcollection
        (or_global state subcollection (company_path subcollection tenant company))
company_path-InScope state sub none company t c = global-InScope state sub
company_path-InScope state sub (some tenant_id) none t c = global-InScope state sub
company_path-InScope state sub (some tenant_id) (some company_id) t c =
    inl (tenant_id, company_id, t, c, refl)

-- A tool's query goes nowhere, to the collection of the tenant and the company that the session names, or,
-- where the session has neither key, to the global collection.
pub scoped_collection_or_global-InScope :
    (db : Bool) (state : Option (Dict StateValue)) (subcollection : String)
    → InScope state subcollection (scoped_collection_or_global db state subcollection)
unfolding scoped_collection_or_global scoped_collection
scoped_collection_or_global-InScope false state subcollection = tt
scoped_collection_or_global-InScope true state subcollection =
    company_path-InScope state subcollection (tenant_id_from_context state)
      (company_id_from_context state) refl refl
