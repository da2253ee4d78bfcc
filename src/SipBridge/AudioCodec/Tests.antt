-- ===== src/SipBridge/AudioCodec/Tests.antt =====
-- Samples and frames through sip_bridge/audio_codec.py and the G.711 bridge.
use ekaette.Prelude.{ℕ, ◌≡◌, refl, none, some, [], ◌∷◌, arith}
use ekaette.Prelude.Int.{pos, negsuc, ◌+ℤ◌}
use ekaette.SipBridge.Pcm.{unpack}
use ekaette.SipBridge.AudioCodec.{
  ulaw_decode, linear_to_ulaw, alaw_decode, interpolate, resample, resample_8k_to_16k,
}
use ekaette.SipBridge.AudioCodec.Ulaw.{with_sign, IsNear, ulaw_error}

loud : (linear_to_ulaw (negsuc 32767) ≡ 0) × (ulaw_decode 0 ≡ negsuc 32123)
unfolding linear_to_ulaw ulaw_decode
loud = (refl, refl)

negative_zero : (ulaw_decode 127 ≡ pos 0) × (linear_to_ulaw (pos 0) ≡ 255)
unfolding linear_to_ulaw ulaw_decode
negative_zero = (refl, refl)

alaw_extremes : (alaw_decode 42 ≡ negsuc 32255) × (alaw_decode 213 ≡ pos 8)
unfolding alaw_decode
alaw_extremes = (refl, refl)

means : interpolate (pos 3 ∷ negsuc 7 ∷ []) ≡ pos 3 ∷ negsuc 2 ∷ negsuc 7 ∷ negsuc 7 ∷ []
unfolding interpolate ◌+ℤ◌
means = refl

one_byte : (resample_8k_to_16k (7 ∷ []) ≡ some []) × (resample_8k_to_16k (7 ∷ 0 ∷ 7 ∷ []) ≡ none)
unfolding resample_8k_to_16k resample unpack
one_byte = (refl, refl)

ulaw_error_example :
    (d : ℕ) × (ulaw_decode (linear_to_ulaw (negsuc 999)) ≡ with_sign (negsuc 999) d) × IsNear 1000 d
ulaw_error_example = ulaw_error (negsuc 999) (omega arith)
