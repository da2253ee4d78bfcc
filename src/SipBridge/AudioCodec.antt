-- ===== src/SipBridge/AudioCodec.antt =====
-- sip_bridge/audio_codec.py: G.711 and the resampling of PCM, on samples and on bytes.
pub mod Ulaw
pub mod Resample
pub mod Bridge
pub mod Alaw
mod Tests
use Prim.Native.Nat.{bit_xor}
use ekaette.Prelude.{
  ℕ, zero, suc, ◌+◌, ◌-◌, ◌*◌, ◌/◌, ◌%◌, ◌^◌, Option, none, some, List, [], ◌∷◌, map, ltb, ◌==◌,
  if◌then◌else◌, length,
}
use ekaette.Prelude.Int.{ℤ, pos, negsuc, ◌+ℤ◌, half_ℤ, negated}
use ekaette.SipBridge.Pcm.{pack, unpack}

-- An entry of `_ULAW_DECODE`. The low eight bits of `~i` are `255 - i`.
unfoldable pub ulaw_decode : ℕ → ℤ
ulaw_decode i =
    let val = 255 - i in
    let exponent = val / 16 % 8 in
    let mantissa = val % 16 in
    let sample = (mantissa * 8 + 132) * 2 ^ exponent - 132 in
    if val / 128 % 2 == 1 then negated sample else pos sample

abbrev pub bias : ℕ
bias = 132

abbrev pub clip : ℕ
clip = 32635

-- the loop of `_linear_to_ulaw`, from an exponent and its mask: `sample & exp_mask` is one bit
unfoldable pub find_exponent : ℕ → ℕ → ℕ → ℕ
find_exponent sample zero exp_mask = 0
find_exponent sample (suc e) exp_mask =
    let rest = find_exponent sample e (exp_mask / 2) in
    if sample / exp_mask % 2 == 1 then suc e else rest

-- The last lines, on the clipped magnitude. The fields do not overlap, so `|` adds, and `~` of the
-- byte is its complement.
unfoldable pub encode_magnitude : ℕ → ℕ → ℕ
encode_magnitude sign magnitude =
    let sample = magnitude + bias in
    let exponent = find_exponent sample 7 16384 in
    let mantissa = sample / 2 ^ (exponent + 3) % 16 in 255 - (sign + exponent * 16 + mantissa)

abbrev pub clipped : ℕ → ℕ
clipped n = if ltb clip n then clip else n

unfoldable pub linear_to_ulaw : ℤ → ℕ
unfolding encode_magnitude find_exponent
linear_to_ulaw (pos n) = encode_magnitude 0 (clipped n)
linear_to_ulaw (negsuc n) = encode_magnitude 128 (clipped (suc n))

unfoldable pub ulaw_to_pcm16 : List ℕ → Option (List ℕ)
ulaw_to_pcm16 ulaw_bytes = pack (map ulaw_decode ulaw_bytes)

unfoldable pub pcm16_to_ulaw : List ℕ → Option (List ℕ)
pcm16_to_ulaw pcm16_bytes = elim (unpack pcm16_bytes) [
  | none ↦ none
  | some samples ↦ some (map linear_to_ulaw samples)
]

-- `_alaw_to_linear`
unfoldable pub alaw_decode : ℕ → ℤ
alaw_decode byte_val =
    let val = bit_xor byte_val 0x55 in
    let t = val % 16 * 16 in
    let seg = val / 16 % 8 in
    let sample =
      if seg == 0 then t + 8 else if seg == 1 then t + 264 else (t + 264) * 2 ^ (seg - 1) in
    if val / 128 % 2 == 1 then pos sample else negated sample

unfoldable pub alaw_to_pcm16 : List ℕ → Option (List ℕ)
alaw_to_pcm16 alaw_bytes = pack (map alaw_decode alaw_bytes)

-- the samples of `resample_8k_to_16k`: each, then the mean with the next; the last one twice
unfoldable pub interpolate : List ℤ → List ℤ
interpolate [] = []
interpolate (v ∷ []) = v ∷ v ∷ []
interpolate (v ∷ w ∷ vs) = v ∷ half_ℤ (v +ℤ w) ∷ interpolate (w ∷ vs)

-- Both resamplers return no bytes where there is not one whole sample.
unfoldable pub resample : (List ℤ → List ℤ) → List ℕ → Option (List ℕ)
resample change bytes =
    if length bytes / 2 == 0
    then some []
    else elim (unpack bytes) [ none ↦ none | some samples ↦ pack (change samples) ]

unfoldable pub resample_8k_to_16k : List ℕ → Option (List ℕ)
unfolding resample
resample_8k_to_16k pcm16_8k = resample interpolate pcm16_8k

-- `samples[::3]`
unfoldable pub every_third : List ℤ → List ℤ
every_third [] = []
every_third (v ∷ []) = v ∷ []
every_third (v ∷ w ∷ []) = v ∷ []
every_third (v ∷ w ∷ x ∷ vs) = v ∷ every_third vs

unfoldable pub resample_24k_to_8k : List ℕ → Option (List ℕ)
unfolding resample
resample_24k_to_8k pcm16_24k = resample every_third pcm16_24k

-- sip_bridge/codec_bridge.py: `G711CodecBridge`
unfoldable pub decode_to_pcm16_16k : List ℕ → Option (List ℕ)
decode_to_pcm16_16k encoded = elim (ulaw_to_pcm16 encoded) [
  | none ↦ none
  | some pcm16_8k ↦ resample_8k_to_16k pcm16_8k
]

unfoldable pub encode_from_pcm16_24k : List ℕ → Option (List ℕ)
encode_from_pcm16_24k pcm16_24k = elim (resample_24k_to_8k pcm16_24k) [
  | none ↦ none
  | some pcm16_8k ↦ pcm16_to_ulaw pcm16_8k
]
