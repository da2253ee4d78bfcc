-- ===== src/SipBridge/Dialog.antt =====
-- sip_bridge/sip_dialog.py and the messages of sip_bridge/sip_register.py: SIP requests and responses
-- as texts. Python's `int` of a text and the decimal digits of a number are parameters.
pub mod Headers
pub mod Transaction
pub mod Sdp
mod Tests
use Prim.Native.String.{count}
use ekaette.Prelude.{
  ℕ, String, Bool, true, false, Option, none, some, List, [], ◌∷◌, if◌then◌else◌, strip,
}
use ekaette.Prelude.Int.{ℤ, pos}
use ekaette.Prelude.Split.{◌<>◌, cut, crlf, lines, join_lines}
use ekaette.Dict.{Dict, lookup, insert}
use ekaette.At.Webhooks.{after_prefix}

-- `key, value = line.split(":", 1)`, of a line with a colon
abbrev pub add_pair : Option (String × String) → Dict String → Dict String
add_pair none headers = headers
add_pair (some (key, value)) headers = insert (strip key) (strip value) headers

unfoldable pub add_header : String → Dict String → Dict String
unfolding cut
add_header line headers = add_pair (cut b':' line) headers

unfoldable pub parse_headers : List String → Dict String → Dict String
unfolding add_header
parse_headers [] headers = headers
parse_headers (line ∷ ls) headers = parse_headers ls (add_header line headers)

-- The headers up to an empty line.
unfoldable pub parse_until_blank : List String → Dict String → Dict String
unfolding add_header
parse_until_blank [] headers = headers
parse_until_blank (String.[] ∷ ls) headers = headers
parse_until_blank (String.◌∷◌ c line ∷ ls) headers =
    parse_until_blank ls (add_header (String.◌∷◌ c line) headers)

-- What stands before and after the first blank line, `s.split("\r\n\r\n", 1)`.
unfoldable pub cut_blank : String → String × String
unfolding after_prefix
cut_blank String.[] = ("", "")
cut_blank (String.◌∷◌ c s) = elim (after_prefix "\r\n\r\n" (String.◌∷◌ c s)) [
  | none ↦ let (block, body) = cut_blank s in (String.◌∷◌ c block, body)
  | some body ↦ ("", body)
]

-- `s.split(c, 1)[0]`
abbrev pub before_first : Option (String × String) → String → String
before_first none s = s
before_first (some (a, b)) s = a

pub record SipRequest : Type 0 where
  pub method : String
  pub headers : Dict String
  pub body : String

abbrev pub request_of : List String → String → SipRequest
request_of [] body = record { method = ""; headers = []; body = "" }
request_of (request_line ∷ ls) body = record {
  method = before_first (cut b' ' request_line) request_line;
  headers = parse_headers ls [];
  body = body;
}

unfoldable pub parse_sip_request : String → SipRequest
unfolding cut_blank lines cut parse_headers
parse_sip_request message =
    let (header_block, body) = cut_blank message in request_of (lines header_block) body

pub record SipResponse : Type 0 where
  pub status_code : ℤ
  pub reason : String
  pub headers : Dict String

abbrev pub header_of : String → Dict String → String
header_of key headers = elim (lookup key headers) [ none ↦ "" | some value ↦ value ]

-- `sub in s`
unfoldable pub has_text : String → String → Bool
unfolding after_prefix
has_text sub String.[] = elim (after_prefix sub String.[]) [ none ↦ false | some rest ↦ true ]
has_text sub (String.◌∷◌ c s) =
    let later = has_text sub s in
    elim (after_prefix sub (String.◌∷◌ c s)) [ none ↦ later | some rest ↦ true ]

-- The To header with a tag, which is drawn at random if there is none.
unfoldable pub tagged_to : String → String → String
unfolding has_text ◌<>◌
tagged_to tag to_header =
    if has_text ";tag=" to_header then to_header else to_header <> (";tag=" <> tag)

module _ (decimal : ℕ → String) where
  unfoldable pub build_sdp_answer : String → ℕ → String
  unfolding ◌<>◌
  build_sdp_answer local_ip rtp_port =
      "v=0\r\no=ekaette 0 0 IN IP4 "
      <> (local_ip
          <> ("\r\ns=Ekaette SIP Bridge\r\nc=IN IP4 "
              <> (local_ip
                  <> ("\r\nt=0 0\r\nm=audio "
                      <> (decimal rtp_port
                          <> " RTP/AVP 0\r\na=rtpmap:0 PCMU/8000\r\na=ptime:20\r\na=sendrecv\r\n")))))

  -- `if sdp_body:`
  abbrev pub body_lines : Option String → List String
  body_lines none = "Content-Length: 0" ∷ "" ∷ "" ∷ []
  body_lines (some String.[]) = "Content-Length: 0" ∷ "" ∷ "" ∷ []
  body_lines (some (String.◌∷◌ c sdp)) =
      "Content-Type: application/sdp"
      ∷ "Content-Length: " <> decimal (count (String.◌∷◌ c sdp))
      ∷ ""
      ∷ String.◌∷◌ c sdp
      ∷ []

  unfoldable pub build_sip_response :
      String → ℕ → String → Dict String → Option String → String → String
  unfolding ◌<>◌ join_lines lookup tagged_to
  build_sip_response tag status reason invite_headers sdp_body contact_uri = join_lines (
      "SIP/2.0 " <> (decimal status <> (" " <> reason))
      ∷ "Via: " <> header_of "Via" invite_headers
      ∷ "From: " <> header_of "From" invite_headers
      ∷ "To: " <> tagged_to tag (header_of "To" invite_headers)
      ∷ "Call-ID: " <> header_of "Call-ID" invite_headers
      ∷ "CSeq: " <> header_of "CSeq" invite_headers
      ∷ "Contact: " <> contact_uri
      ∷ body_lines sdp_body)

module _ (read_int : String → Option ℤ) where
  abbrev pub with_status : Option ℤ → String → Dict String → Option SipResponse
  with_status none reason headers = none
  with_status (some code) reason headers =
      some (record { status_code = code; reason = reason; headers = headers })

  -- The rest of a status line behind its first space, cut again.
  abbrev pub status_of : Option (String × String) → String → Dict String → Option SipResponse
  status_of none rest headers = with_status (read_int rest) "" headers
  status_of (some (code, reason)) rest headers = with_status (read_int code) reason headers

  abbrev pub response_of : Option (String × String) → Dict String → Option SipResponse
  response_of none headers = with_status (some (pos 0)) "" headers
  response_of (some (version, rest)) headers = status_of (cut b' ' rest) rest headers

  abbrev pub response_lines : List String → Option SipResponse
  response_lines [] = with_status (some (pos 0)) "" []
  response_lines (status_line ∷ ls) = response_of (cut b' ' status_line) (parse_until_blank ls [])

  -- none where `int` raises
  unfoldable pub parse_sip_response : String → Option SipResponse
  unfolding lines cut parse_until_blank
  parse_sip_response message = response_lines (lines message)
