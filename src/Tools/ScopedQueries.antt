-- ===== src/Tools/ScopedQueries.antt =====
-- app/tools/scoped_queries.py: the Firestore collection that a tool reads, as its path. The state of the tool's
-- context is none where there is no mapping.
pub mod Scoped
mod Tests
use ekaette.Prelude.{
  String, Bool, true, false, ◌||◌, Option, none, some, List, [], ◌∷◌, str_eq, if◌then◌else◌, strip,
}
use ekaette.Dict.{Dict, lookup}
use ekaette.Agents.Policy.{StateValue, text}

-- The stripped text under a key of the state, if it is a text with more than spaces.
abbrev pub stripped_text : Option StateValue → Option String
stripped_text (some (text s)) = if str_eq (strip s) "" then none else some (strip s)
stripped_text _ = none

unfoldable pub id_from_context : String → Option (Dict StateValue) → Option String
unfolding lookup
id_from_context key none = none
id_from_context key (some state) = stripped_text (lookup key state)

unfoldable pub tenant_id_from_context : Option (Dict StateValue) → Option String
unfolding id_from_context
tenant_id_from_context state = id_from_context "app:tenant_id" state

unfoldable pub company_id_from_context : Option (Dict StateValue) → Option String
unfolding id_from_context
company_id_from_context state = id_from_context "app:company_id" state

abbrev pub company_path : String → Option String → Option String → Option (List String)
company_path subcollection none company_id = none
company_path subcollection (some tenant_id) none = none
company_path subcollection (some tenant_id) (some company_id) =
    some ("tenants" ∷ tenant_id ∷ "companies" ∷ company_id ∷ subcollection ∷ [])

unfoldable pub scoped_collection : Bool → Option (Dict StateValue) → String → Option (List String)
unfolding tenant_id_from_context company_id_from_context
scoped_collection db state subcollection =
    if db
    then company_path subcollection (tenant_id_from_context state) (company_id_from_context state)
    else none

-- `key in state`
abbrev pub is_key : Option StateValue → Bool
is_key none = false
is_key (some v) = true

unfoldable pub has_scope_key : Option (Dict StateValue) → Bool
unfolding lookup
has_scope_key none = false
has_scope_key (some state) =
    is_key (lookup "app:tenant_id" state) || is_key (lookup "app:company_id" state)

abbrev pub or_global :
    Option (Dict StateValue) → String → Option (List String) → Option (List String)
or_global state subcollection (some path) = some path
or_global state subcollection none = if has_scope_key state then none else some (subcollection ∷ [])

unfoldable pub scoped_collection_or_global :
    Bool → Option (Dict StateValue) → String → Option (List String)
unfolding scoped_collection has_scope_key
scoped_collection_or_global db state subcollection =
    if db then or_global state subcollection (scoped_collection db state subcollection) else none
