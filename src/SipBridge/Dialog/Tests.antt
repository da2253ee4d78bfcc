-- ===== src/SipBridge/Dialog/Tests.antt =====
-- A request of sip_bridge/sip_dialog.py and the response to it.
use ekaette.Prelude.{ℕ, zero, suc, String, ◌≡◌, refl, ap, Option, some, [], ◌∷◌, strip}
use ekaette.Prelude.Int.{ℤ, pos}
use ekaette.Prelude.Split.{Avoids}
use ekaette.Dict.{Dict, lookup, insert}
use ekaette.SipBridge.Dialog.{
  SipResponse, parse_sip_response, build_sip_response, parse_sip_request,
}
use ekaette.SipBridge.Dialog.Headers.{IsTransaction}
use ekaette.SipBridge.Dialog.Transaction.{IsDecimal, Answers, parse_sip_response-build_sip_response}

-- Numbers in unary.
ones : ℕ → String
ones zero = ""
ones (suc n) = String.◌∷◌ "1" (ones n)

count_ones : String → ℕ
count_ones String.[] = 0
count_ones (String.◌∷◌ c s) = suc (count_ones s)

read_ones : String → Option ℤ
read_ones s = some (pos (count_ones s))

count_ones-ones : (n : ℕ) → count_ones (ones n) ≡ n
unfolding ones count_ones
count_ones-ones zero = refl
count_ones-ones (suc n) = ap suc (count_ones-ones n)

ones-no_space : (n : ℕ) → Avoids b' ' (ones n)
unfolding ones
ones-no_space zero = tt
ones-no_space (suc n) = (refl, ones-no_space n)

ones-no_line_end : (n : ℕ) → Avoids 13 (ones n)
unfolding ones
ones-no_line_end zero = tt
ones-no_line_end (suc n) = (refl, ones-no_line_end n)

ones-IsDecimal : IsDecimal ones read_ones
unfolding read_ones
ones-IsDecimal = record {
  read_back = λ n. ap (λ m. some (pos m)) (count_ones-ones n);
  no_space = ones-no_space;
  no_line_end = ones-no_line_end;
}

abbrev invite_headers : Dict String
invite_headers =
    ("Via", "v") ∷ ("From", "f") ∷ ("To", "t") ∷ ("Call-ID", "c") ∷ ("CSeq", "1 INVITE") ∷ []

invite_headers-IsTransaction : IsTransaction invite_headers
unfolding strip lookup
invite_headers-IsTransaction = record {
  via = record { one_line = (refl, tt); trimmed = refl };
  from = record { one_line = (refl, tt); trimmed = refl };
  to = (refl, tt);
  call_id = record { one_line = (refl, tt); trimmed = refl };
  cseq = record {
    one_line = (refl, (refl, (refl, (refl, (refl, (refl, (refl, (refl, tt))))))));
    trimmed = refl;
  };
}

parsed_invite :
    parse_sip_request "INVITE sip:a SIP/2.0\r\nTo: t\r\n\r\nbody"
    ≡ record { method = "INVITE"; headers = ("To", "t") ∷ []; body = "body" }
unfolding parse_sip_request insert strip
parsed_invite = refl

parse_sip_response-build_sip_response_example :
    (r : SipResponse) × (parse_sip_response read_ones
        (build_sip_response ones "tag" 3 "OK" invite_headers (some "v=0") "sip:x")
      ≡ some r)
    × Answers (pos 3) "OK" invite_headers r
parse_sip_response-build_sip_response_example =
    parse_sip_response-build_sip_response ones read_ones ones-IsDecimal "tag" 3 "OK" invite_headers
      (some "v=0") "sip:x" invite_headers-IsTransaction (refl, (refl, tt))
      (refl, (refl, (refl, tt))) (refl, (refl, (refl, (refl, (refl, tt)))))
