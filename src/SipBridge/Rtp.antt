-- ===== src/SipBridge/Rtp.antt =====
-- sip_bridge/rtp.py: RTP packets and their 12-byte header. A byte string is a list of numbers below
-- 256.
pub mod RoundTrip
mod Tests
use ekaette.Prelude.{
  ℕ, ◌+◌, ◌*◌, ◌/◌, ◌%◌, Bool, true, false, Option, none, some, List, ◌∷◌, ltb, ◌==◌, if◌then◌else◌,
}

pub record RtpPacket : Type 0 where
  pub version : ℕ
  pub payload_type : ℕ
  pub sequence : ℕ
  pub timestamp : ℕ
  pub ssrc : ℕ
  pub payload : List ℕ
  pub marker : Bool

-- "H" and "I" of `struct`, in network order
abbrev pub be16 : ℕ → ℕ → ℕ
be16 a b = a * 256 + b

abbrev pub be32 : ℕ → ℕ → ℕ → ℕ → ℕ
be32 a b c d = a * 16777216 + b * 65536 + c * 256 + d

-- `RTPPacket.parse`: None for fewer than 12 bytes, or a version that is not 2.
unfoldable pub parse : List ℕ → Option RtpPacket
parse (b0 ∷ b1 ∷ s0 ∷ s1 ∷ t0 ∷ t1 ∷ t2 ∷ t3 ∷ r0 ∷ r1 ∷ r2 ∷ r3 ∷ payload) =
    let version = b0 / 64 % 4 in
    if version == 2
    then some (record {
      version = version;
      payload_type = b1 % 128;
      sequence = be16 s0 s1;
      timestamp = be32 t0 t1 t2 t3;
      ssrc = be32 r0 r1 r2 r3;
      payload = payload;
      marker = b1 / 128 % 2 == 1;
    })
    else none
parse _ = none

abbrev pub marker_bit : Bool → ℕ
marker_bit true = 128
marker_bit false = 0

abbrev pub pack16 : ℕ → List ℕ → List ℕ
pack16 n rest = (n / 256) ∷ (n % 256) ∷ rest

abbrev pub pack32 : ℕ → List ℕ → List ℕ
pack32 n rest = (n / 16777216) ∷ (n / 65536 % 256) ∷ (n / 256 % 256) ∷ (n % 256) ∷ rest

-- `byte1 |= 0x80` adds the bit, since the payload type keeps seven bits.
abbrev pub to_bytes : RtpPacket → List ℕ
to_bytes p =
    128
    ∷ (p.payload_type % 128 + marker_bit p.marker)
    ∷ pack16 (p.sequence % 65536) (pack32 (p.timestamp % 4294967296) (pack32 p.ssrc p.payload))

-- `RTPPacket.serialize`. `none` is the `struct.error` of an SSRC of more than 32 bits, the one field
-- that is not masked.
unfoldable pub serialize : RtpPacket → Option (List ℕ)
serialize p = if ltb p.ssrc 4294967296 then some (to_bytes p) else none
