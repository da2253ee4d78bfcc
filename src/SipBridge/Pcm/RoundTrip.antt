-- ===== src/SipBridge/Pcm/RoundTrip.antt =====
-- Packing samples and unpacking them.
use ekaette.Prelude.{
  ℕ, ◌+◌, ◌*◌, ◌/◌, ◌%◌, ◌<◌, ◌≡◌, refl, ap, ◌∙◌, inl, inr, true, some, List, [], ◌∷◌, arith,
  Option-cases, length, All,
}
use ekaette.Prelude.Int.{ℤ, pos, negsuc}
use ekaette.SipBridge.Pcm.{IsInt16, fits_int16, to_word, of_word, pack, unpack}

pub of_word-to_word : (v : ℤ) → IsInt16 v → of_word (to_word v / 256 * 256 + to_word v % 256) ≡ v
of_word-to_word (pos n) h = ground arith
of_word-to_word (negsuc n) h = ground arith

pub of_word-IsInt16 : (lo hi : ℕ) → lo < 256 → hi < 256 → IsInt16 (of_word (hi * 256 + lo))
of_word-IsInt16 lo hi h k = ground arith

fits : (v : ℤ) → IsInt16 v → fits_int16 v ≡ true
fits (pos n) h = ground arith
fits (negsuc n) h = ground arith

-- The bytes of a list of samples.
abbrev pub bytes_of : List ℤ → List ℕ
bytes_of [] = []
bytes_of (v ∷ vs) = (to_word v % 256) ∷ (to_word v / 256) ∷ bytes_of vs

pub pack-bytes_of : (vs : List ℤ) → All IsInt16 vs → pack vs ≡ some (bytes_of vs)
unfolding pack
pack-bytes_of [] h = refl
pack-bytes_of (v ∷ vs) h = ground (arith, pack-bytes_of vs h.1, fits v h.0)

pub unpack-bytes_of : (vs : List ℤ) → All IsInt16 vs → unpack (bytes_of vs) ≡ some vs
unfolding unpack
unpack-bytes_of [] h = refl
unpack-bytes_of (v ∷ vs) h = ground (arith, unpack-bytes_of vs h.1, of_word-to_word v h.0)

pub length-bytes_of : (vs : List ℤ) → length (bytes_of vs) ≡ 2 * length vs
length-bytes_of [] = refl
length-bytes_of (v ∷ vs) = omega (arith, length-bytes_of vs)

-- Unpacking bytes gives samples of 16 bits.
pub unpack-IsInt16 :
    (bytes : List ℕ) (vs : List ℤ)
    → All (λ b. b < 256) bytes
    → unpack bytes ≡ some vs
    → All IsInt16 vs
unfolding unpack
unpack-IsInt16 [] [] h e = tt
unpack-IsInt16 [] (v ∷ vs) h e = cc
unpack-IsInt16 (lo ∷ []) vs h e = cc
unpack-IsInt16 (lo ∷ hi ∷ bytes) [] h e = tt
unpack-IsInt16 (lo ∷ hi ∷ bytes) (v ∷ vs) h e = elim (Option-cases (unpack bytes)) [
  | inl odd ↦ let e' = rw odd at e in cc
  | inr (us, e') ↦
      let same = rw e' at e in
      let first : of_word (hi * 256 + lo) ≡ v = cc in
      let others : us ≡ vs = cc in
      (
        rw (← first) (of_word-IsInt16 lo hi h.0 h.1.0),
        unpack-IsInt16 bytes vs h.1.1 (e' ∙ ap some others),
      )
]

pub fits→IsInt16 : (v : ℤ) → fits_int16 v ≡ true → IsInt16 v
fits→IsInt16 (pos n) h = ground arith
fits→IsInt16 (negsuc n) h = ground arith
