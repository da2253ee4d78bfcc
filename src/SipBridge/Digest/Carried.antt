-- ===== src/SipBridge/Digest/Carried.antt =====
-- The texts that a header of sip_bridge/sip_auth.py carries.
use Prim.Native.Char.{Char}
use ekaette.Prelude.{
  String, ◌≡◌, refl, inl, inr, Bool, true, ◌&&◌, Option, none, some, arith, Bool-cases, All,
}
use ekaette.Prelude.Text.{is_space}
use ekaette.At.ServiceAuth.{is_ascii}
use ekaette.SipBridge.Challenge.{not_quote, not_end, is_word}
use ekaette.SipBridge.Challenge.Parts.{Passes, IsNonempty, IsQuotable, IsToken}
use ekaette.SipBridge.Challenge.Params.{IsKey, IsPart}
use ekaette.SipBridge.Digest.{DigestInput, header_parts, opaque_parts, is_text}
use ekaette.SipBridge.Digest.Reads.{extra_parts}

-- Texts that a digest header can carry.
pub record IsCarried (d : DigestInput) (cnonce : String) : Type 0 where
  pub username : IsQuotable d.username
  pub ascii : is_ascii d.username ≡ true
  pub realm : IsQuotable d.realm
  pub nonce : IsQuotable d.nonce
  pub uri : IsQuotable d.uri
  pub algorithm : IsToken d.algorithm
  pub drawn_nonce : IsQuotable cnonce

-- What the hashes are relied on for: digits, of which there is one.
pub record IsDigest (hash : String → String) : Type 0 where
  pub quotable : (s : String) → IsQuotable (hash s)
  pub ascii : (s : String) → is_ascii (hash s) ≡ true

-- The keys of a header are words.
unfoldable pub all_pass : (Char → Bool) → String → Bool
all_pass test String.[] = true
all_pass test (String.◌∷◌ c s) = test c && all_pass test s

pub all_pass-Passes : (test : Char → Bool) (s : String) → all_pass test s ≡ true → Passes test s
unfolding all_pass
all_pass-Passes test String.[] h = tt
all_pass-Passes test (String.◌∷◌ c s) h =
    (ground (arith, h), all_pass-Passes test s (ground (arith, h)))

-- An opaque value that is quoted where it is there.
abbrev pub IsOpaque : Option String → Type 0
IsOpaque none = Unit
IsOpaque (some opaque) = IsQuotable opaque

pub counter-IsToken : IsToken "00000001"
unfolding all_pass is_space
counter-IsToken = record {
  some_text = tt;
  no_end = all_pass-Passes not_end "00000001" refl;
  unquoted = all_pass-Passes not_quote "00000001" refl;
}

-- A selected qop that a header can carry.
abbrev pub IsQop : Option String → Type 0
IsQop none = Unit
IsQop (some q) = IsToken q

module _ (unicode_word : Char → Bool) where
  pub word-IsKey :
      (key : String)
      → IsNonempty key
      → all_pass (is_word unicode_word) key ≡ true
      → IsKey unicode_word key
  word-IsKey key h k = (h, all_pass-Passes (is_word unicode_word) key k)

  opaque_parts-IsPart :
      (opaque : Option String) → IsOpaque opaque → All (IsPart unicode_word) (opaque_parts opaque)
  unfolding all_pass is_word
  opaque_parts-IsPart none h = tt
  opaque_parts-IsPart (some opaque) h = elim (Bool-cases (is_text (some opaque))) [
    | inl there ↦ rw there ((word-IsKey "opaque" tt refl, h), tt)
    | inr empty ↦ rw empty tt
  ]

  extra_parts-IsPart :
      (q : Option String) (cnonce : String) (opaque : Option String)
      → IsQop q
      → IsQuotable cnonce
      → IsOpaque opaque
      → All (IsPart unicode_word) (extra_parts q cnonce opaque)
  unfolding all_pass is_word
  extra_parts-IsPart none cnonce opaque h c o = opaque_parts-IsPart opaque o
  extra_parts-IsPart (some q) cnonce opaque h c o = elim (Bool-cases (is_text (some q))) [
    | inl there ↦ rw there (
      (word-IsKey "qop" tt refl, h),
      (
        (word-IsKey "nc" tt refl, counter-IsToken),
        ((word-IsKey "cnonce" tt refl, c), opaque_parts-IsPart opaque o),
      ),
    )
    | inr empty ↦ rw empty (opaque_parts-IsPart opaque o)
  ]

  pub header_parts-IsPart :
      (d : DigestInput) (q : Option String) (cnonce response : String) (opaque : Option String)
      → IsCarried d cnonce
      → IsQuotable response
      → IsQop q
      → IsOpaque opaque
      → All (IsPart unicode_word) (header_parts d q cnonce opaque response)
  unfolding all_pass is_word
  header_parts-IsPart d q cnonce response opaque c r h o = (
    (word-IsKey "username" tt refl, c.username),
    (
      (word-IsKey "realm" tt refl, c.realm),
      (
        (word-IsKey "nonce" tt refl, c.nonce),
        (
          (word-IsKey "uri" tt refl, c.uri),
          (
            (word-IsKey "response" tt refl, r),
            (
              (word-IsKey "algorithm" tt refl, c.algorithm),
              extra_parts-IsPart q cnonce opaque h c.drawn_nonce o,
            ),
          ),
        ),
      ),
    ),
  )
