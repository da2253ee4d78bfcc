-- ===== src/Shared/PhoneIdentity.antt =====
-- shared/phone_identity.py: the identity of a caller. The library of phone numbers and the keyed hash are
-- parameters.
use ekaette.Prelude.{
  ℕ, zero, suc, ◌-◌, min, String, ◌||◌, Option, none, some, str_eq, leb, if◌then◌else◌, colon,
  strip,
}
use Prim.Native.String.{count}
use ekaette.Prelude.Split.{◌<>◌}

-- `s[:n]`
unfoldable pub first : ℕ → String → String
first zero s = ""
first (suc n) String.[] = ""
first (suc n) (String.◌∷◌ c s) = String.◌∷◌ c (first n s)

-- `region or "NG"`
abbrev pub or_region : String → String
or_region region = if str_eq region "" then "NG" else region

-- `e164` parses a text in a region and formats it, where it is a valid number.
module _ (e164 : String → String → Option String) where
  unfoldable pub normalize_phone : String → String → Option String
  normalize_phone raw default_region =
      if str_eq (strip raw) "" then none else e164 (strip raw) (or_region default_region)

  module _ (hmac : String → String) where
    abbrev pub user_id_of : String → String → Option String → Option String
    user_id_of tenant_id company_id none = none
    user_id_of tenant_id company_id (some phone) =
        some
          ("phone-" <> first 24 (hmac (colon tenant_id (colon company_id (colon "caller" phone)))))

    unfoldable pub canonical_phone_user_id : String → String → String → String → Option String
    unfolding normalize_phone first ◌<>◌
    canonical_phone_user_id tenant_id company_id raw_phone default_region =
        if str_eq tenant_id "" || str_eq company_id ""
        then none
        else user_id_of tenant_id company_id (normalize_phone raw_phone default_region)

-- `s[n:]`
unfoldable pub after : ℕ → String → String
after zero s = s
after (suc n) String.[] = ""
after (suc n) (String.◌∷◌ c s) = after n s

-- A text longer than four characters, with those between its head and its tail hidden.
unfoldable pub masked_text : String → String
unfolding first after ◌<>◌
masked_text s =
    let n = count s in
    let tail = min 4 (n - 3) in first (min 4 (n - 3 - tail)) s <> ("***" <> after (n - tail) s)

unfoldable pub mask_phone : String → String
unfolding masked_text
mask_phone raw = if leb (count (strip raw)) 4 then "***" else masked_text (strip raw)
