-- ===== src/SipBridge/Dialog/Headers.antt =====
-- The header lines of a response of sip_bridge/sip_dialog.py, and what a client reads of them.

use ekaette.Prelude.{String, ◌≡◌, refl, ap, some, List, [], ◌∷◌, ◌++◌, All, strip}
use ekaette.Prelude.Split.{◌<>◌, Avoids, cut, <>-Avoids, avoids, avoids-Avoids}
use ekaette.Dict.{Dict, lookup, insert}
use ekaette.SipBridge.Dialog.{parse_until_blank, header_of}

-- A value that a header line carries whole: on one line, and with no space at its ends.
pub record IsValue (v : String) : Type 0 where
  pub one_line : Avoids 13 v
  pub trimmed : strip v ≡ v

-- The headers of a transaction that a response copies.
pub record IsTransaction (headers : Dict String) : Type 0 where
  pub via : IsValue (header_of "Via" headers)
  pub from : IsValue (header_of "From" headers)
  pub to : Avoids 13 (header_of "To" headers)
  pub call_id : IsValue (header_of "Call-ID" headers)
  pub cseq : IsValue (header_of "CSeq" headers)

-- The headers that a client reads are those of the request.
pub record Carries (headers answered : Dict String) : Type 0 where
  pub via : lookup "Via" answered ≡ some (header_of "Via" headers)
  pub from : lookup "From" answered ≡ some (header_of "From" headers)
  pub call_id : lookup "Call-ID" answered ≡ some (header_of "Call-ID" headers)
  pub cseq : lookup "CSeq" answered ≡ some (header_of "CSeq" headers)

-- The lines of a response before its body.
abbrev pub head_lines : String → String → Dict String → String → List String
head_lines first to_header headers contact =
    first
    ∷ "Via: " <> header_of "Via" headers
    ∷ "From: " <> header_of "From" headers
    ∷ "To: " <> to_header
    ∷ "Call-ID: " <> header_of "Call-ID" headers
    ∷ "CSeq: " <> header_of "CSeq" headers
    ∷ "Contact: " <> contact
    ∷ []

pub head_lines-Avoids :
    (first to_header : String) (headers : Dict String) (contact : String)
    → IsTransaction headers
    → Avoids 13 first
    → Avoids 13 to_header
    → Avoids 13 contact
    → All (Avoids 13) (head_lines first to_header headers contact)
unfolding ◌<>◌ avoids
head_lines-Avoids first to_header headers contact t f o c = (
  f,
  (
    <>-Avoids 13 "Via: " _ (avoids-Avoids 13 "Via: " refl) t.via.one_line,
    (
      <>-Avoids 13 "From: " _ (avoids-Avoids 13 "From: " refl) t.from.one_line,
      (
        <>-Avoids 13 "To: " _ (avoids-Avoids 13 "To: " refl) o,
        (
          <>-Avoids 13 "Call-ID: " _ (avoids-Avoids 13 "Call-ID: " refl) t.call_id.one_line,
          (
            <>-Avoids 13 "CSeq: " _ (avoids-Avoids 13 "CSeq: " refl) t.cseq.one_line,
            (<>-Avoids 13 "Contact: " _ (avoids-Avoids 13 "Contact: " refl) c, tt),
          ),
        ),
      ),
    ),
  ),
)

pub All-append :
    (P : String → Type 0) (xs ys : List String) → All P xs → All P ys → All P (xs ++ ys)
All-append P [] ys h k = k
All-append P (x ∷ xs) ys h k = (h.0, All-append P xs ys h.1 k)

module _ (to_header : String) (headers : Dict String) (contact : String) (ls : List String) where
  -- The header lines behind the first line, and what follows them.
  abbrev pub read_lines : List String → Dict String
  read_lines tail =
      parse_until_blank
        ("Via: " <> header_of "Via" headers
          ∷ "From: " <> header_of "From" headers
          ∷ "To: " <> to_header
          ∷ "Call-ID: " <> header_of "Call-ID" headers
          ∷ "CSeq: " <> header_of "CSeq" headers
          ∷ "Contact: " <> contact
          ∷ tail)
        []

  -- With no body, and with one.
  pub read_bare-Carries :
      IsTransaction headers → Carries headers (read_lines ("Content-Length: 0" ∷ "" ∷ ls))
  unfolding parse_until_blank ◌<>◌ cut insert lookup strip
  read_bare-Carries t = record {
    via = ap some t.via.trimmed;
    from = ap some t.from.trimmed;
    call_id = ap some t.call_id.trimmed;
    cseq = ap some t.cseq.trimmed;
  }

  pub read_body-Carries :
      (size : String)
      → IsTransaction headers
      → Carries headers
          (read_lines ("Content-Type: application/sdp" ∷ "Content-Length: " <> size ∷ "" ∷ ls))
  unfolding parse_until_blank ◌<>◌ cut insert lookup strip
  read_body-Carries size t = record {
    via = ap some t.via.trimmed;
    from = ap some t.from.trimmed;
    call_id = ap some t.call_id.trimmed;
    cseq = ap some t.cseq.trimmed;
  }
