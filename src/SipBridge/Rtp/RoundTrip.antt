-- ===== src/SipBridge/Rtp/RoundTrip.antt =====
-- sip_bridge/rtp.py: parsing after serialising, and serialising after parsing.
use ekaette.Prelude.{
  ℕ, ◌+◌, ◌/◌, ◌%◌, ◌<◌, ◌≡◌, Bool, true, false, some, List, ◌∷◌, arith, ◌==◌, All,
}
use ekaette.SipBridge.Rtp.{RtpPacket, parse, serialize, be16, be32, marker_bit, to_bytes}

-- What a packet is on the wire: version 2, and each field cut to its width.
abbrev pub masked : RtpPacket → RtpPacket
masked p = record p {
  version = 2;
  payload_type = p.payload_type % 128;
  sequence = p.sequence % 65536;
  timestamp = p.timestamp % 4294967296;
}

be16_lem : (n : ℕ) → n < 65536 → be16 (n / 256) (n % 256) ≡ n
be16_lem n h = omega arith

be32_lem :
    (n : ℕ) → n < 4294967296 → be32 (n / 16777216) (n / 65536 % 256) (n / 256 % 256) (n % 256) ≡ n
be32_lem n h = omega arith

marker_lem :
    (t : ℕ) (m : Bool)
    → ((t % 128 + marker_bit m) % 128 ≡ t % 128) × (((t % 128 + marker_bit m) / 128 % 2 == 1) ≡ m)
marker_lem t true = ground arith
marker_lem t false = ground arith

parse-to_bytes : (p : RtpPacket) → p.ssrc < 4294967296 → parse (to_bytes p) ≡ some (masked p)
unfolding parse
parse-to_bytes p h = cc (
  (marker_lem p.payload_type p.marker).0,
  (marker_lem p.payload_type p.marker).1,
  be16_lem (p.sequence % 65536) (omega arith),
  be32_lem (p.timestamp % 4294967296) (omega arith),
  be32_lem p.ssrc h,
)

-- Every packet whose SSRC has 32 bits serialises, and parses back to itself with version 2, and with
-- payload type, sequence number and timestamp cut to 7, 16 and 32 bits.
pub parse-serialize :
    (p : RtpPacket)
    → p.ssrc < 4294967296
    → (bytes : List ℕ) × (serialize p ≡ some bytes) × (parse bytes ≡ some (masked p))
unfolding parse serialize
parse-serialize p h = (to_bytes p, ground arith, parse-to_bytes p h)

-- A parsed packet serialises to the bytes that it came from, but for the low six bits of the first
-- byte (padding, extension and CSRC count), which become 0.
pub serialize-parse :
    (b : ℕ) (rest : List ℕ) (p : RtpPacket)
    → All (λ c. c < 256) (b ∷ rest)
    → parse (b ∷ rest) ≡ some p
    → serialize p ≡ some (128 ∷ rest)
unfolding parse serialize
serialize-parse b (b1 ∷ s0 ∷ s1 ∷ t0 ∷ t1 ∷ t2 ∷ t3 ∷ r0 ∷ r1 ∷ r2 ∷ r3 ∷ payload) p bytes h =
    ground arith
serialize-parse b _ p bytes h = cc
