-- ===== src/SipBridge/AudioCodec/Ulaw.antt =====
-- G.711 mu-law in sip_bridge/audio_codec.py: bytes survive decoding and encoding, and samples come
-- back with a bounded error.
use ekaette.Prelude.{
  ℕ, zero, suc, ◌+◌, ◌-◌, ◌*◌, ◌/◌, ◌%◌, ◌^◌, ◌≤◌, ◌<◌, ◌≡◌, refl, ap, inl, inr, true, false, arith,
  ltb, ◌==◌, if◌then◌else◌, Bool-cases, dec_lt,
}
use ekaette.Prelude.Tables.{passes_to, passes, ==→≡}
use ekaette.Prelude.Int.{negated, ℤ, pos, negsuc}
use ekaette.SipBridge.Pcm.{IsInt16, fits_int16}
use ekaette.SipBridge.Pcm.RoundTrip.{fits→IsInt16}
use ekaette.SipBridge.AudioCodec.{
  ulaw_decode, linear_to_ulaw, encode_magnitude, find_exponent, clipped, clip,
}

abbrev pub canonical : ℕ → ℕ
canonical i = if i == 127 then 255 else i

decode_table : passes_to (λ i. linear_to_ulaw (ulaw_decode i) == canonical i) 256 ≡ true
unfolding passes_to linear_to_ulaw ulaw_decode
decode_table = refl

-- Decoding a byte and encoding the sample gives the byte back; but 127, the negative zero, comes back
-- as 255.
linear_to_ulaw-ulaw_decode : (i : ℕ) → i < 256 → linear_to_ulaw (ulaw_decode i) ≡ canonical i
linear_to_ulaw-ulaw_decode i h = ==→≡ _ _ (passes _ 256 i h decode_table)

range_table : passes_to (λ i. fits_int16 (ulaw_decode i)) 256 ≡ true
unfolding passes_to ulaw_decode
range_table = refl

pub ulaw_decode-IsInt16 : (i : ℕ) → i < 256 → IsInt16 (ulaw_decode i)
ulaw_decode-IsInt16 i h = fits→IsInt16 _ (passes _ 256 i h range_table)

-- The magnitude that the byte of a sample stands for.
abbrev quantised : ℕ → ℕ → ℕ
quantised exponent x = (x / 2 ^ (exponent + 3) % 16 * 8 + 132) * 2 ^ exponent - 132

-- Where the loop stops: at the highest bit of the biased sample.
module _ (x : ℕ) where
  find_zero : 128 ≤ x → x < 256 → find_exponent x 7 16384 ≡ 0
  unfolding find_exponent
  find_zero lo hi = ground arith

  find_one : 256 ≤ x → x < 512 → find_exponent x 7 16384 ≡ 1
  unfolding find_exponent
  find_one lo hi = ground arith

  find_two : 512 ≤ x → x < 1024 → find_exponent x 7 16384 ≡ 2
  unfolding find_exponent
  find_two lo hi = ground arith

  find_three : 1024 ≤ x → x < 2048 → find_exponent x 7 16384 ≡ 3
  unfolding find_exponent
  find_three lo hi = ground arith

  find_four : 2048 ≤ x → x < 4096 → find_exponent x 7 16384 ≡ 4
  unfolding find_exponent
  find_four lo hi = ground arith

  find_five : 4096 ≤ x → x < 8192 → find_exponent x 7 16384 ≡ 5
  unfolding find_exponent
  find_five lo hi = ground arith

  find_six : 8192 ≤ x → x < 16384 → find_exponent x 7 16384 ≡ 6
  unfolding find_exponent
  find_six lo hi = ground arith

  find_seven : 16384 ≤ x → x < 32768 → find_exponent x 7 16384 ≡ 7
  unfolding find_exponent
  find_seven lo hi = ground arith

find_exponent-at :
    (e x : ℕ) → e < 8 → 2 ^ (e + 7) ≤ x → x < 2 ^ (e + 8) → find_exponent x 7 16384 ≡ e
find_exponent-at zero x k lo hi = find_zero x lo hi
find_exponent-at (suc zero) x k lo hi = find_one x lo hi
find_exponent-at (suc (suc zero)) x k lo hi = find_two x lo hi
find_exponent-at (suc (suc (suc zero))) x k lo hi = find_three x lo hi
find_exponent-at (suc (suc (suc (suc zero)))) x k lo hi = find_four x lo hi
find_exponent-at (suc (suc (suc (suc (suc zero))))) x k lo hi = find_five x lo hi
find_exponent-at (suc (suc (suc (suc (suc (suc zero)))))) x k lo hi = find_six x lo hi
find_exponent-at (suc (suc (suc (suc (suc (suc (suc zero))))))) x k lo hi = find_seven x lo hi
find_exponent-at (suc (suc (suc (suc (suc (suc (suc (suc e)))))))) x k lo hi = absurd (omega arith)

-- The power of two below a number.
segment :
    (k x : ℕ)
    → 128 ≤ x
    → x < 2 ^ (k + 8)
    → (e : ℕ) × (e ≤ k) × (2 ^ (e + 7) ≤ x) × (x < 2 ^ (e + 8))
segment zero x lo hi = (0, omega arith, omega arith, hi)
segment (suc k) x lo hi = elim (dec_lt x (2 ^ (k + 8))) [
  | yes below ↦ let (e, le, lo', hi') = segment k x lo below in (e, omega arith, lo', hi')
  | no above ↦
      let same : 2 ^ (k + 8) ≡ 2 ^ (suc k + 7) = ap (λ (n : ℕ). 2 ^ n) (omega arith) in
      (suc k, omega arith, omega arith, hi)
]

-- At most a 32nd part of the biased magnitude is lost.
abbrev pub IsNear : ℕ → ℕ → Type 0
IsNear m d = (32 * d ≤ 33 * m + 132) × (31 * m ≤ 32 * d + 132)

quantised-IsNear :
    (e m : ℕ)
    → e < 8
    → 2 ^ (e + 7) ≤ m + 132
    → m + 132 < 2 ^ (e + 8)
    → IsNear m (quantised e (m + 132))
quantised-IsNear zero m k lo hi = omega arith
quantised-IsNear (suc zero) m k lo hi = omega arith
quantised-IsNear (suc (suc zero)) m k lo hi = omega arith
quantised-IsNear (suc (suc (suc zero))) m k lo hi = omega arith
quantised-IsNear (suc (suc (suc (suc zero)))) m k lo hi = omega arith
quantised-IsNear (suc (suc (suc (suc (suc zero))))) m k lo hi = omega arith
quantised-IsNear (suc (suc (suc (suc (suc (suc zero)))))) m k lo hi = omega arith
quantised-IsNear (suc (suc (suc (suc (suc (suc (suc zero))))))) m k lo hi = omega arith
quantised-IsNear (suc (suc (suc (suc (suc (suc (suc (suc e)))))))) m k lo hi = absurd (omega arith)

decode_fields :
    (e t : ℕ)
    → e < 8
    → t < 16
    → (ulaw_decode (255 - (0 + e * 16 + t)) ≡ pos ((t * 8 + 132) * 2 ^ e - 132))
      × (ulaw_decode (255 - (128 + e * 16 + t)) ≡ negated ((t * 8 + 132) * 2 ^ e - 132))
unfolding ulaw_decode
decode_fields e t k h =
    let n = e * 16 + t in
    let e₀ : (255 - (255 - (0 + e * 16 + t))) / 16 % 8 ≡ e = omega arith in
    let t₀ : (255 - (255 - (0 + e * 16 + t))) % 16 ≡ t = omega arith in
    let s₀ : ((255 - (255 - (0 + e * 16 + t))) / 128 % 2 == 1) ≡ false = ground arith in
    let e₁ : (255 - (255 - (128 + e * 16 + t))) / 16 % 8 ≡ e = omega arith in
    let t₁ : (255 - (255 - (128 + e * 16 + t))) % 16 ≡ t = omega arith in
    let s₁ : ((255 - (255 - (128 + e * 16 + t))) / 128 % 2 == 1) ≡ true = ground arith in
    (rw (s₀, e₀, t₀) refl, rw (s₁, e₁, t₁) refl)

-- The sample with the sign of another.
abbrev pub with_sign : ℤ → ℕ → ℤ
with_sign (pos _) d = pos d
with_sign (negsuc _) d = negated d

abbrev pub magnitude : ℤ → ℕ
magnitude (pos n) = n
magnitude (negsuc n) = suc n

decode_magnitude :
    (m : ℕ)
    → m ≤ 32635
    → (d : ℕ) × (ulaw_decode (encode_magnitude 0 m) ≡ pos d)
      × (ulaw_decode (encode_magnitude 128 m) ≡ negated d)
      × IsNear m d
unfolding encode_magnitude
decode_magnitude m small =
    let (e, le, lo, hi) = segment 7 (m + 132) (omega arith) (omega arith) in
    let found = find_exponent-at e (m + 132) (omega arith) lo hi in
    let (plus, minus) =
      decode_fields e ((m + 132) / 2 ^ (e + 3) % 16) (omega arith) (omega arith) in
    (quantised e (m + 132), rw found plus, rw found minus, quantised-IsNear e m (omega arith) lo hi)

loudest :
    (ulaw_decode (encode_magnitude 0 32635) ≡ pos 32124)
    × (ulaw_decode (encode_magnitude 128 32635) ≡ negated 32124)
unfolding ulaw_decode encode_magnitude find_exponent
loudest = (refl, refl)

decode_clipped :
    (m : ℕ)
    → m ≤ 32768
    → (d : ℕ) × (ulaw_decode (encode_magnitude 0 (clipped m)) ≡ pos d)
      × (ulaw_decode (encode_magnitude 128 (clipped m)) ≡ negated d)
      × IsNear m d
decode_clipped m small = elim (Bool-cases (ltb clip m)) [
  | inl loud ↦
      let above : 32635 < m = ground arith in
      (32124, rw loud loudest.0, rw loud loudest.1, omega arith)
  | inr quiet ↦
      let (d, plus, minus, near) = decode_magnitude m (ground arith) in
      (d, rw quiet plus, rw quiet minus, near)
]

-- A sample that is encoded and decoded keeps its sign or becomes 0, and its magnitude changes by at
-- most a 32nd part of what it is with the bias: 32 d ≤ 33 m + 132 and 31 m ≤ 32 d + 132. This holds of
-- every 16-bit sample, those that are clipped included.
pub ulaw_error :
    (v : ℤ)
    → IsInt16 v
    → (d : ℕ) × (ulaw_decode (linear_to_ulaw v) ≡ with_sign v d) × IsNear (magnitude v) d
unfolding linear_to_ulaw
ulaw_error (pos n) h =
    let (d, plus, minus, near) = decode_clipped n (omega arith) in (d, plus, near)
ulaw_error (negsuc n) h =
    let (d, plus, minus, near) = decode_clipped (suc n) (omega arith) in (d, minus, near)
