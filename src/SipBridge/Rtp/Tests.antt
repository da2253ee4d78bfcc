-- ===== src/SipBridge/Rtp/Tests.antt =====
-- Packets through sip_bridge/rtp.py: an SSRC out of range, short and foreign data, and one with a
-- CSRC count, whose list is taken for payload.
use ekaette.Prelude.{ℕ, ◌≡◌, refl, true, none, some, List, [], ◌∷◌, arith}
use ekaette.SipBridge.Rtp.{RtpPacket, parse, serialize}
use ekaette.SipBridge.Rtp.RoundTrip.{masked, parse-serialize}

abbrev packet : RtpPacket
packet = record {
  version = 2;
  payload_type = 8;
  sequence = 65537;
  timestamp = 160;
  ssrc = 3735928559;
  payload = 255 ∷ 127 ∷ [];
  marker = true;
}

abbrev wire : List ℕ
wire = 136 ∷ 0 ∷ 1 ∷ 0 ∷ 0 ∷ 0 ∷ 160 ∷ 222 ∷ 173 ∷ 190 ∷ 239 ∷ 255 ∷ 127 ∷ []

packet-serialize : serialize packet ≡ some (128 ∷ wire)
unfolding serialize
packet-serialize = refl

wide_ssrc : serialize (record packet { ssrc = 4294967296 }) ≡ none
unfolding serialize
wide_ssrc = refl

refused : (parse [] ≡ none) × (parse (64 ∷ wire) ≡ none) × (parse (128 ∷ 0 ∷ []) ≡ none)
unfolding parse
refused = (refl, refl, refl)

parse-wire : parse (129 ∷ wire) ≡ some (record packet { sequence = 1 })
unfolding parse
parse-wire = refl

parse-serialize_example :
    (bytes : List ℕ) × (serialize packet ≡ some bytes) × (parse bytes ≡ some (masked packet))
parse-serialize_example = parse-serialize packet (omega arith)
