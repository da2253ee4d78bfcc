-- ===== src/SipBridge/AudioCodec/Bridge.antt =====
-- The G.711 bridge of sip_bridge/codec_bridge.py: every frame is converted, and how long the result
-- is.
use ekaette.Prelude.{
  ℕ, ◌+◌, ◌*◌, ◌/◌, ◌<◌, ◌≡◌, refl, some, List, [], ◌∷◌, map, arith, length, All, length-map,
}
use ekaette.Prelude.Int.{ℤ, pos, negsuc}
use ekaette.SipBridge.Pcm.{IsInt16, unpack}
use ekaette.SipBridge.Pcm.RoundTrip.{bytes_of, pack-bytes_of, unpack-bytes_of, length-bytes_of}
use ekaette.SipBridge.AudioCodec.{
  interpolate, every_third, resample_8k_to_16k, resample_24k_to_8k, ulaw_to_pcm16, pcm16_to_ulaw,
  decode_to_pcm16_16k, encode_from_pcm16_24k, ulaw_decode, linear_to_ulaw,
}
use ekaette.SipBridge.AudioCodec.Ulaw.{ulaw_decode-IsInt16}
use ekaette.SipBridge.AudioCodec.Resample.{
  length-interpolate, length-every_third, interpolate-IsInt16, every_third-IsInt16,
  resample-bytes_of, resample_total,
}

decoded-IsInt16 : (bytes : List ℕ) → All (λ b. b < 256) bytes → All IsInt16 (map ulaw_decode bytes)
decoded-IsInt16 [] h = tt
decoded-IsInt16 (b ∷ bytes) h = (ulaw_decode-IsInt16 b h.0, decoded-IsInt16 bytes h.1)

-- Every frame of mu-law bytes is decoded: the samples are the decoded bytes with the means between
-- them, so the PCM has four bytes for each byte of the frame.
decode_to_pcm16_16k_total :
    (encoded : List ℕ)
    → All (λ b. b < 256) encoded
    → (pcm : List ℕ) × (decode_to_pcm16_16k encoded ≡ some pcm)
      × (unpack pcm ≡ some (interpolate (map ulaw_decode encoded)))
      × (length pcm ≡ 4 * length encoded)
unfolding decode_to_pcm16_16k ulaw_to_pcm16 resample_8k_to_16k
decode_to_pcm16_16k_total encoded h =
    let vs = map ulaw_decode encoded in
    let ok = decoded-IsInt16 encoded h in
    let wide = interpolate-IsInt16 vs ok in
    (
      bytes_of (interpolate vs),
      rw (pack-bytes_of vs ok, decode_to_pcm16_16k, ulaw_to_pcm16)
          (resample-bytes_of interpolate vs interpolate-IsInt16 (unfold interpolate in refl) ok),
      unpack-bytes_of (interpolate vs) wide,
      omega (
        arith,
        length-bytes_of (interpolate vs),
        length-interpolate vs,
        length-map encoded ulaw_decode,
      ),
    )

encoded-IsByte : (v : ℤ) → linear_to_ulaw v < 256
unfolding linear_to_ulaw
encoded-IsByte (pos n) = omega arith
encoded-IsByte (negsuc n) = omega arith

map-encoded-IsByte : (vs : List ℤ) → All (λ b. b < 256) (map linear_to_ulaw vs)
map-encoded-IsByte [] = tt
map-encoded-IsByte (v ∷ vs) = (encoded-IsByte v, map-encoded-IsByte vs)

-- PCM of n whole samples is encoded, from every third sample, as (n + 2) / 3 bytes.
encode_from_pcm16_24k_total :
    (n : ℕ) (pcm : List ℕ)
    → All (λ b. b < 256) pcm
    → length pcm ≡ 2 * n
    → (vs : List ℤ) × (length vs ≡ n)
      × (encode_from_pcm16_24k pcm ≡ some (map linear_to_ulaw (every_third vs)))
      × (length (map linear_to_ulaw (every_third vs)) ≡ (n + 2) / 3)
      × All (λ b. b < 256) (map linear_to_ulaw (every_third vs))
unfolding encode_from_pcm16_24k pcm16_to_ulaw resample_24k_to_8k
encode_from_pcm16_24k_total n pcm h whole =
    let (vs, l, ok, e) =
      resample_total every_third n pcm every_third-IsInt16 (unfold every_third in refl) h whole in
    let unpacked = unpack-bytes_of (every_third vs) (every_third-IsInt16 vs ok) in
    (
      vs,
      l,
      rw (e, unpacked, encode_from_pcm16_24k, pcm16_to_ulaw) refl,
      omega (arith, length-every_third vs, length-map (every_third vs) linear_to_ulaw),
      map-encoded-IsByte (every_third vs),
    )
