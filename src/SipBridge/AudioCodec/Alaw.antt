-- ===== src/SipBridge/AudioCodec/Alaw.antt =====
-- G.711 A-law in sip_bridge/audio_codec.py.

use ekaette.Prelude.{
  ℕ, ◌*◌, ◌<◌, ◌≡◌, refl, true, some, List, [], ◌∷◌, map, arith, length, All, length-map,
}
use ekaette.Prelude.Tables.{passes_to, passes}
use ekaette.SipBridge.Pcm.{IsInt16, fits_int16, unpack}
use ekaette.SipBridge.Pcm.RoundTrip.{
  bytes_of, pack-bytes_of, unpack-bytes_of, length-bytes_of, fits→IsInt16,
}
use ekaette.SipBridge.AudioCodec.{alaw_decode, alaw_to_pcm16}

range_table : passes_to (λ i. fits_int16 (alaw_decode i)) 256 ≡ true
unfolding passes_to alaw_decode
range_table = refl

pub alaw_decode-IsInt16 : (i : ℕ) → i < 256 → IsInt16 (alaw_decode i)
alaw_decode-IsInt16 i h = fits→IsInt16 _ (passes _ 256 i h range_table)

decoded-IsInt16 : (bytes : List ℕ) → All (λ b. b < 256) bytes → All IsInt16 (map alaw_decode bytes)
decoded-IsInt16 [] h = tt
decoded-IsInt16 (b ∷ bytes) h = (alaw_decode-IsInt16 b h.0, decoded-IsInt16 bytes h.1)

-- Every string of A-law bytes is converted: no decoded sample leaves the 16 bits, the PCM holds the
-- decoded bytes in their order, two bytes each.
alaw_to_pcm16_total :
    (bytes : List ℕ)
    → All (λ b. b < 256) bytes
    → (pcm : List ℕ) × (alaw_to_pcm16 bytes ≡ some pcm)
      × (unpack pcm ≡ some (map alaw_decode bytes))
      × (length pcm ≡ 2 * length bytes)
unfolding alaw_to_pcm16
alaw_to_pcm16_total bytes h =
    let vs = map alaw_decode bytes in
    let ok = decoded-IsInt16 bytes h in
    (
      bytes_of vs,
      pack-bytes_of vs ok,
      unpack-bytes_of vs ok,
      omega (arith, length-bytes_of vs, length-map bytes alaw_decode),
    )
