-- ===== src/Tools/ScopedQueries/Tests.antt =====
-- Sessions of app/tools/scoped_queries.py.
use ekaette.Prelude.{◌≡◌, refl, true, Option, none, some, [], ◌∷◌, strip}
use ekaette.Dict.{Dict, lookup}
use ekaette.Agents.Policy.{StateValue, text}
use ekaette.Tools.ScopedQueries.{scoped_collection_or_global}
use ekaette.Tools.ScopedQueries.Scoped.{InScope, scoped_collection_or_global-InScope}

abbrev named : Option (Dict StateValue)
named = some (("app:tenant_id", text " t ") ∷ ("app:company_id", text "k") ∷ [])

abbrev half_named : Option (Dict StateValue)
half_named = some (("app:tenant_id", text "t") ∷ [])

paths :
    (scoped_collection_or_global true named "bookings"
      ≡ some ("tenants" ∷ "t" ∷ "companies" ∷ "k" ∷ "bookings" ∷ []))
    × (scoped_collection_or_global true half_named "bookings" ≡ none)
    × (scoped_collection_or_global true none "bookings" ≡ some ("bookings" ∷ []))
unfolding scoped_collection_or_global lookup strip
paths = (refl, refl, refl)

scoped_collection_or_global-InScope_example :
    InScope half_named "bookings" (scoped_collection_or_global true half_named "bookings")
scoped_collection_or_global-InScope_example =
    scoped_collection_or_global-InScope true half_named "bookings"
