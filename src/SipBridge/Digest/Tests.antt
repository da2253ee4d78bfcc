-- ===== src/SipBridge/Digest/Tests.antt =====
-- A client and a server of sip_bridge/sip_auth.py with one digit for every digest.
use Prim.Native.Char.{Char}
use ekaette.Prelude.{String, ◌≡◌, refl, inl, Bool, true, false, Option, none, some}
use ekaette.SipBridge.Challenge.Parts.{IsNonempty, IsToken}
use ekaette.SipBridge.Digest.{or_empty, DigestInput, verify_digest, build_auth_header}
use ekaette.At.ServiceAuth.{is_ascii}
use ekaette.Prelude.Text.{is_space}
use ekaette.SipBridge.Challenge.{not_end, not_quote}
use ekaette.SipBridge.Digest.Carried.{all_pass, all_pass-Passes, IsCarried, IsDigest}
use ekaette.SipBridge.Digest.RoundTrip.{verify_digest-build_auth_header}
use ekaette.SipBridge.Digest.Sessions.{verify_digest-session_without_qop}

unfoldable pub five : String → String
five s = "5"

unfoldable pub two : String → String
two s = "2"

unfoldable pub no_word : Char → Bool
no_word c = false

pub five-IsDigest : IsDigest five
unfolding five is_ascii
five-IsDigest = record {
  quotable = λ s. record { some_text = tt; no_quote = (refl, tt) };
  ascii = λ s. refl;
}

pub two-IsDigest : IsDigest two
unfolding two is_ascii
two-IsDigest = record {
  quotable = λ s. record { some_text = tt; no_quote = (refl, tt) };
  ascii = λ s. refl;
}

abbrev client : String → Option String → DigestInput
client algorithm qop = record {
  username = "u";
  realm = "r";
  password = "p";
  nonce = "n";
  method = "M";
  uri = "s";
  algorithm = algorithm;
  qop = qop;
  nc = none;
  cnonce = none;
}

pub token :
    (s : String)
    → IsNonempty s
    → all_pass not_end s ≡ true
    → all_pass not_quote s ≡ true
    → IsToken s
token s h e q = record {
  some_text = h;
  no_end = all_pass-Passes not_end s e;
  unquoted = all_pass-Passes not_quote s q;
}

client-IsCarried :
    (algorithm : String) (qop : Option String)
    → IsToken algorithm
    → IsCarried (client algorithm qop) "c"
unfolding is_ascii
client-IsCarried algorithm qop h = record {
  username = record { some_text = tt; no_quote = (refl, tt) };
  ascii = refl;
  realm = record { some_text = tt; no_quote = (refl, tt) };
  nonce = record { some_text = tt; no_quote = (refl, tt) };
  uri = record { some_text = tt; no_quote = (refl, tt) };
  algorithm = h;
  drawn_nonce = record { some_text = tt; no_quote = (refl, tt) };
}

sent : DigestInput → String
unfolding build_auth_header
sent d = or_empty (build_auth_header five two 401 d none "c")

verify_digest-build_auth_header_example :
    verify_digest five two no_word (sent (client "MD5" (some "auth-int, auth"))) "u" "p" "M"
    ≡ some true
unfolding sent build_auth_header all_pass is_space
verify_digest-build_auth_header_example =
    verify_digest-build_auth_header five two no_word five-IsDigest two-IsDigest 401
      (client "MD5" (some "auth-int, auth")) none "c" (sent (client "MD5" (some "auth-int, auth")))
      (client-IsCarried "MD5" (some "auth-int, auth") (token "MD5" tt refl refl)) tt (inl refl) refl

verify_digest-session_without_qop_example :
    verify_digest five two no_word (sent (client "MD5-sess" none)) "u" "p" "M" ≡ some false
unfolding sent build_auth_header all_pass is_space
verify_digest-session_without_qop_example =
    verify_digest-session_without_qop five two no_word 401 (client "MD5-sess" none) none "c"
      (sent (client "MD5-sess" none)) five-IsDigest two-IsDigest
      (client-IsCarried "MD5-sess" none (token "MD5-sess" tt refl refl)) tt refl refl refl
