-- ===== src/SipBridge/AudioCodec/Resample.antt =====
-- The resampling of sip_bridge/audio_codec.py and the G.711 bridge of sip_bridge/codec_bridge.py: the
-- number of samples, and that no sample leaves the range of 16 bits.
use ekaette.Prelude.{
  ℕ, zero, suc, ◌+◌, ◌*◌, ◌/◌, ◌<◌, ◌≡◌, refl, ap, false, some, List, [], ◌∷◌, arith, ◌==◌, length,
  All,
}
use ekaette.Prelude.Int.{ℤ, pos, negsuc, ◌+ℤ◌, half_ℤ}
use ekaette.SipBridge.Pcm.{IsInt16, of_word, unpack}
use ekaette.SipBridge.Pcm.RoundTrip.{
  bytes_of, pack-bytes_of, unpack-IsInt16, length-bytes_of, unpack-bytes_of,
}
use ekaette.SipBridge.AudioCodec.{interpolate, every_third, resample}

pub length-interpolate : (vs : List ℤ) → length (interpolate vs) ≡ 2 * length vs
unfolding interpolate
length-interpolate [] = refl
length-interpolate (v ∷ []) = refl
length-interpolate (v ∷ w ∷ vs) = omega (arith, length-interpolate (w ∷ vs))

-- every other sample, from the first on
abbrev pub every_second : List ℤ → List ℤ
every_second [] = []
every_second (v ∷ []) = v ∷ []
every_second (v ∷ w ∷ vs) = v ∷ every_second vs

pub every_second-interpolate : (vs : List ℤ) → every_second (interpolate vs) ≡ vs
unfolding interpolate
every_second-interpolate [] = refl
every_second-interpolate (v ∷ []) = refl
every_second-interpolate (v ∷ w ∷ vs) =
    ap (λ (us : List ℤ). v ∷ us) (every_second-interpolate (w ∷ vs))

mean-IsInt16 : (v w : ℤ) → IsInt16 v → IsInt16 w → IsInt16 (half_ℤ (v +ℤ w))
unfolding ◌+ℤ◌
mean-IsInt16 (pos a) (pos b) h k = ground arith
mean-IsInt16 (pos a) (negsuc b) h k = ground arith
mean-IsInt16 (negsuc a) (pos b) h k = ground arith
mean-IsInt16 (negsuc a) (negsuc b) h k = ground arith

pub interpolate-IsInt16 : (vs : List ℤ) → All IsInt16 vs → All IsInt16 (interpolate vs)
unfolding interpolate
interpolate-IsInt16 [] h = tt
interpolate-IsInt16 (v ∷ []) h = (h.0, (h.0, tt))
interpolate-IsInt16 (v ∷ w ∷ vs) h =
    (h.0, (mean-IsInt16 v w h.0 h.1.0, interpolate-IsInt16 (w ∷ vs) h.1))

pub length-every_third : (vs : List ℤ) → length (every_third vs) ≡ (length vs + 2) / 3
unfolding every_third
length-every_third [] = refl
length-every_third (v ∷ []) = refl
length-every_third (v ∷ w ∷ []) = refl
length-every_third (v ∷ w ∷ x ∷ vs) = omega (arith, length-every_third vs)

pub every_third-IsInt16 : (vs : List ℤ) → All IsInt16 vs → All IsInt16 (every_third vs)
unfolding every_third
every_third-IsInt16 [] h = tt
every_third-IsInt16 (v ∷ []) h = h
every_third-IsInt16 (v ∷ w ∷ []) h = (h.0, tt)
every_third-IsInt16 (v ∷ w ∷ x ∷ vs) h = (h.0, every_third-IsInt16 vs h.1.1.1)

-- An even number of bytes unpacks.
unpack_even :
    (n : ℕ) (bytes : List ℕ)
    → length bytes ≡ 2 * n
    → (vs : List ℤ) × (unpack bytes ≡ some vs) × (length vs ≡ n)
unfolding unpack
unpack_even zero [] h = ([], refl, refl)
unpack_even zero (b ∷ bytes) h = absurd (omega arith)
unpack_even (suc n) [] h = absurd (omega arith)
unpack_even (suc n) (b ∷ []) h = absurd (omega arith)
unpack_even (suc n) (lo ∷ hi ∷ bytes) h =
    let (vs, e, l) = unpack_even n bytes (omega arith) in
    (of_word (hi * 256 + lo) ∷ vs, rw e refl, omega arith)

abbrev pub Bytes : List ℕ → Type 0
Bytes bytes = All (λ b. b < 256) bytes

-- What a resampler that keeps the range returns for whole samples.
pub resample_total :
    (change : List ℤ → List ℤ) (n : ℕ) (bytes : List ℕ)
    → ((vs : List ℤ) → All IsInt16 vs → All IsInt16 (change vs))
    → change [] ≡ []
    → Bytes bytes
    → length bytes ≡ 2 * n
    → (vs : List ℤ) × (length vs ≡ n)
      × All IsInt16 vs
      × (resample change bytes ≡ some (bytes_of (change vs)))
unfolding resample
resample_total change zero [] keeps none_more range h = ([], refl, tt, rw none_more refl)
resample_total change zero (b ∷ bytes) keeps none_more range h = absurd (omega arith)
resample_total change (suc n) bytes keeps none_more range h =
    let (vs, e, l) = unpack_even (suc n) bytes h in
    let ok = unpack-IsInt16 bytes vs range e in
    let enough : (length bytes / 2 == 0) ≡ false = ground arith in
    (vs, l, ok, rw (enough, e) (pack-bytes_of (change vs) (keeps vs ok)))

pub resample-bytes_of :
    (change : List ℤ → List ℤ) (vs : List ℤ)
    → ((us : List ℤ) → All IsInt16 us → All IsInt16 (change us))
    → change [] ≡ []
    → All IsInt16 vs
    → resample change (bytes_of vs) ≡ some (bytes_of (change vs))
unfolding resample
resample-bytes_of change [] keeps none_more ok = rw none_more refl
resample-bytes_of change (v ∷ vs) keeps none_more ok =
    let enough : (length (bytes_of (v ∷ vs)) / 2 == 0) ≡ false =
      ground (arith, length-bytes_of vs) in
    rw (enough, unpack-bytes_of (v ∷ vs) ok) (pack-bytes_of (change (v ∷ vs)) (keeps (v ∷ vs) ok))
