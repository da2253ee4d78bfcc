-- ===== src/SipBridge/Dialog/Transaction.antt =====
-- A response of sip_bridge/sip_dialog.py read by the client of sip_bridge/sip_register.py.
use Prim.Native.String.{count}
use ekaette.Prelude.{
  ℕ, String, ◌≡◌, refl, ap, ◌∙◌, inl, inr, Option, none, some, List, [], ◌∷◌, ◌++◌, Bool-cases,
}
use ekaette.Prelude.Int.{ℤ, pos}
use ekaette.Prelude.Split.{
  ◌<>◌, Avoids, cut, lines, join_lines, cut-append, <>-Avoids, avoids, avoids-Avoids,
  lines-join_lines,
}
use ekaette.Dict.{Dict}
use ekaette.SipBridge.Dialog.Headers.{
  IsTransaction, Carries, head_lines, head_lines-Avoids, All-append, read_bare-Carries,
  read_body-Carries,
}
use ekaette.SipBridge.Dialog.{
  parse_until_blank, SipResponse, header_of, tagged_to, build_sip_response, parse_sip_response,
  response_lines, has_text,
}

-- A response that was read is the one that was sent, to the request with the headers.
pub record Answers (status : ℤ) (reason : String) (headers : Dict String) (r : SipResponse)
    : Type 0 where
  pub status_read : r.status_code ≡ status
  pub reason_read : r.reason ≡ reason
  pub headers_read : Carries headers r.headers

-- Digits that `int` reads back, with no space or line end among them.
pub record IsDecimal (decimal : ℕ → String) (read_int : String → Option ℤ) : Type 0 where
  pub read_back : (n : ℕ) → read_int (decimal n) ≡ some (pos n)
  pub no_space : (n : ℕ) → Avoids b' ' (decimal n)
  pub no_line_end : (n : ℕ) → Avoids 13 (decimal n)

tagged_to-Avoids :
    (tag to_header : String)
    → Avoids 13 tag
    → Avoids 13 to_header
    → Avoids 13 (tagged_to tag to_header)
unfolding tagged_to ◌<>◌ avoids
tagged_to-Avoids tag to_header h k = elim (Bool-cases (has_text ";tag=" to_header)) [
  | inl tagged ↦ rw tagged k
  | inr bare ↦ rw bare (
      <>-Avoids 13 to_header (";tag=" <> tag) k
        (<>-Avoids 13 ";tag=" tag (avoids-Avoids 13 ";tag=" refl) h))
]

module _ (decimal : ℕ → String) (read_int : String → Option ℤ)
    (digits : IsDecimal decimal read_int) where
  status_line-Avoids :
      (status : ℕ) (reason : String)
      → Avoids 13 reason
      → Avoids 13 ("SIP/2.0 " <> (decimal status <> (" " <> reason)))
  unfolding ◌<>◌ avoids
  status_line-Avoids status reason h =
      <>-Avoids 13 "SIP/2.0 " _ (avoids-Avoids 13 "SIP/2.0 " refl) (
        <>-Avoids 13 (decimal status) (" " <> reason) (digits.no_line_end status)
          (<>-Avoids 13 " " reason (avoids-Avoids 13 " " refl) h))

  -- The status line, read.
  response_lines-Answers :
      (status : ℕ) (reason : String) (headers : Dict String) (ls : List String)
      → Carries headers (parse_until_blank ls [])
      → (r : SipResponse) × (response_lines read_int
            ("SIP/2.0 " <> (decimal status <> (" " <> reason)) ∷ ls)
          ≡ some r)
        × Answers (pos status) reason headers r
  unfolding ◌<>◌ cut
  response_lines-Answers status reason headers ls h = (
    record { status_code = pos status; reason = reason; headers = parse_until_blank ls [] },
    rw
        (
          cut-append b' ' (decimal status) " " reason (digits.no_space status) refl,
          digits.read_back status,
        )
        refl,
    record { status_read = refl; reason_read = refl; headers_read = h },
  )

  bare_tail :
      lines (join_lines ("Content-Length: 0" ∷ "" ∷ "" ∷ [])) ≡ "Content-Length: 0" ∷ "" ∷ "" ∷ []
  unfolding lines join_lines ◌<>◌
  bare_tail = refl

  body_tail : (sdp : String) → lines (join_lines ("" ∷ sdp ∷ [])) ≡ "" ∷ lines sdp
  unfolding lines join_lines ◌<>◌
  body_tail sdp = refl

  through_lines :
      (message : String) (ls : List String) (status : ℕ) (reason : String) (headers : Dict String)
      → lines message ≡ ls
      → (r : SipResponse) × (response_lines read_int ls ≡ some r)
        × Answers (pos status) reason headers r
      → (r : SipResponse) × (parse_sip_response read_int message ≡ some r)
        × Answers (pos status) reason headers r
  unfolding parse_sip_response
  through_lines message ls status reason headers e (r, read, answers) = (r, rw e read, answers)

  -- The proof for a body that is left out, none or empty.
  bare_response :
      (to_header : String) (status : ℕ) (reason : String) (headers : Dict String) (contact : String)
      → IsTransaction headers
      → Avoids 13 reason
      → Avoids 13 to_header
      → Avoids 13 contact
      → (r : SipResponse) × (parse_sip_response read_int (
            join_lines (
              head_lines
                ("SIP/2.0 " <> (decimal status <> (" " <> reason)))
                to_header
                headers
                contact
              ++ "Content-Length: 0" ∷ "" ∷ "" ∷ []))
          ≡ some r)
        × Answers (pos status) reason headers r
  bare_response to_header status reason headers contact t r o c =
      let first = "SIP/2.0 " <> (decimal status <> (" " <> reason)) in
      let head = head_lines first to_header headers contact in
      through_lines _ _ status reason headers
        (lines-join_lines head "Content-Length: 0" ("" ∷ "" ∷ []) (
            head_lines-Avoids first to_header headers contact t (status_line-Avoids status reason r)
              o c)
          ∙ ap (λ ms. head ++ ms) bare_tail)
        (response_lines-Answers status reason headers _
          (read_bare-Carries to_header headers contact ("" ∷ []) t))

  body_response :
      (to_header size sdp : String) (status : ℕ) (reason : String) (headers : Dict String)
      (contact : String)
      → IsTransaction headers
      → Avoids 13 reason
      → Avoids 13 to_header
      → Avoids 13 contact
      → Avoids 13 size
      → (r : SipResponse) × (parse_sip_response read_int (
            join_lines (
              head_lines
                ("SIP/2.0 " <> (decimal status <> (" " <> reason)))
                to_header
                headers
                contact
              ++ "Content-Type: application/sdp" ∷ "Content-Length: " <> size ∷ "" ∷ sdp ∷ []))
          ≡ some r)
        × Answers (pos status) reason headers r
  unfolding ◌<>◌ avoids
  body_response to_header size sdp status reason headers contact t r o c z =
      let first = "SIP/2.0 " <> (decimal status <> (" " <> reason)) in
      let head = head_lines first to_header headers contact in
      let sized = head ++ "Content-Type: application/sdp" ∷ "Content-Length: " <> size ∷ [] in
      through_lines _ _ status reason headers
        (lines-join_lines sized "" (sdp ∷ []) (
            All-append (Avoids 13) head
              ("Content-Type: application/sdp" ∷ "Content-Length: " <> size ∷ [])
              (head_lines-Avoids first to_header headers contact t
                (status_line-Avoids status reason r) o c)
              (
                avoids-Avoids 13 "Content-Type: application/sdp" refl,
                (
                  <>-Avoids 13 "Content-Length: " size (avoids-Avoids 13 "Content-Length: " refl) z,
                  tt,
                ),
              ))
          ∙ ap (λ ms. sized ++ ms) (body_tail sdp))
        (response_lines-Answers status reason headers _
          (read_body-Carries to_header headers contact (lines sdp) size t))

  -- A response that is built for a request is read as it was built: its status, its reason, and the
  -- headers Via, From, Call-ID and CSeq of the request, with a body or without one, if the texts that it
  -- is built from have no line end, the four headers no space at their ends, and the digits of a number
  -- are read back as the number.
  pub parse_sip_response-build_sip_response :
      (tag : String) (status : ℕ) (reason : String) (headers : Dict String) (sdp : Option String)
      (contact : String)
      → IsTransaction headers
      → Avoids 13 reason
      → Avoids 13 tag
      → Avoids 13 contact
      → (r : SipResponse) × (parse_sip_response read_int
            (build_sip_response decimal tag status reason headers sdp contact)
          ≡ some r)
        × Answers (pos status) reason headers r
  unfolding build_sip_response
  parse_sip_response-build_sip_response tag status reason headers none contact t r g c =
      bare_response (tagged_to tag (header_of "To" headers)) status reason headers contact t r
        (tagged_to-Avoids tag _ g t.to) c
  parse_sip_response-build_sip_response tag status reason headers (some String.[]) contact t r g c =
      bare_response (tagged_to tag (header_of "To" headers)) status reason headers contact t r
        (tagged_to-Avoids tag _ g t.to) c
  parse_sip_response-build_sip_response tag status reason headers (some (String.◌∷◌ x sdp)) contact
        t r g c =
      body_response (tagged_to tag (header_of "To" headers)) (decimal (count (String.◌∷◌ x sdp)))
        (String.◌∷◌ x sdp) status reason headers contact t r (tagged_to-Avoids tag _ g t.to) c
        (digits.no_line_end (count (String.◌∷◌ x sdp)))
