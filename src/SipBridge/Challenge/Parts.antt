-- ===== src/SipBridge/Challenge/Parts.antt =====
-- The parameters of a digest header as sip_bridge/sip_auth.py writes them.
use ekaette.Prelude.{String, ◌≡◌, Bool, true, List, [], ◌∷◌}
use ekaette.Prelude.Split.{◌<>◌}
use ekaette.SipBridge.Challenge.{not_quote, not_end}
use Prim.Native.Char.{Char}

-- `key="value"` or `key=value`
pub data Part : Type 0 where
  quoted : String → String → Part
  bare : String → String → Part

abbrev pub pair_of : Part → String × String
pair_of (quoted key value) = (key, value)
pair_of (bare key value) = (key, value)

unfoldable pub part_text : Part → String
unfolding ◌<>◌
part_text (quoted key value) = key <> ("=\"" <> (value <> "\""))
part_text (bare key value) = key <> ("=" <> value)

-- `", ".join(parts)`
unfoldable pub join_parts : List Part → String
unfolding part_text ◌<>◌
join_parts [] = ""
join_parts (p ∷ []) = part_text p
join_parts (p ∷ q ∷ ps) = part_text p <> (", " <> join_parts (q ∷ ps))

-- Every character passes the test, and there is one.
abbrev pub Passes : (Char → Bool) → String → Type 0
Passes test String.[] = Unit
Passes test (String.◌∷◌ c s) = (test c ≡ true) × Passes test s

abbrev pub IsNonempty : String → Type 0
IsNonempty String.[] = ⊥
IsNonempty (String.◌∷◌ c s) = Unit

-- A value with no quote in it.
pub record IsQuotable (v : String) : Type 0 where
  pub some_text : IsNonempty v
  pub no_quote : Passes not_quote v

-- A value that no quote begins, and with no comma or space.
pub record IsToken (v : String) : Type 0 where
  pub some_text : IsNonempty v
  pub no_end : Passes not_end v
  pub unquoted : Passes not_quote v
