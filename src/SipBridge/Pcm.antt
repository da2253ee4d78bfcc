-- ===== src/SipBridge/Pcm.antt =====
-- Signed 16-bit samples as bytes: `struct.pack("<{n}h")` and `struct.unpack("<{n}h")`, as the codecs
-- of sip_bridge use them.
pub mod RoundTrip
use ekaette.Prelude.{
  ℕ, ◌+◌, ◌-◌, ◌*◌, ◌/◌, ◌%◌, ◌<◌, Bool, Option, none, some, List, [], ◌∷◌, ltb, if◌then◌else◌,
}
use ekaette.Prelude.Int.{ℤ, pos, negsuc}

-- The sample lies between -32768 and 32767.
abbrev pub IsInt16 : ℤ → Type 0
IsInt16 (pos n) = n < 32768
IsInt16 (negsuc n) = n < 32768

abbrev pub fits_int16 : ℤ → Bool
fits_int16 (pos n) = ltb n 32768
fits_int16 (negsuc n) = ltb n 32768

-- the two's complement of the sample
abbrev pub to_word : ℤ → ℕ
to_word (pos n) = n
to_word (negsuc n) = 65535 - n

abbrev pub of_word : ℕ → ℤ
of_word w = if ltb w 32768 then pos w else negsuc (65535 - w)

-- `none` is the `struct.error` of a sample that does not fit.
unfoldable pub pack : List ℤ → Option (List ℕ)
pack [] = some []
pack (v ∷ vs) = elim (pack vs) [
  | none ↦ none
  | some rest ↦ if fits_int16 v then some ((to_word v % 256) ∷ (to_word v / 256) ∷ rest) else none
]

-- `none` is the `struct.error` of an odd number of bytes.
unfoldable pub unpack : List ℕ → Option (List ℤ)
unpack [] = some []
unpack (lo ∷ []) = none
unpack (lo ∷ hi ∷ bytes) = elim (unpack bytes) [
  | none ↦ none
  | some vs ↦ some (of_word (hi * 256 + lo) ∷ vs)
]
