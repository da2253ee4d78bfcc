-- ===== src/SipBridge/Register/Tests.antt =====
-- A client of sip_bridge/sip_register.py that starts, is challenged, and stops.
use ekaette.Prelude.{
  String, ◌≡◌, refl, inl, true, false, Option, none, some, [], ◌∷◌, strip, List, ℕ,
}
use ekaette.Prelude.Int.{ℤ, pos}
use ekaette.Prelude.Text.{is_space}
use ekaette.Dict.{lookup, insert}
use ekaette.Prelude.Split.{◌<>◌}
use ekaette.At.ServiceAuth.{is_ascii}
use ekaette.SipBridge.Challenge.Parts.{join_parts, part_text}
use ekaette.SipBridge.Dialog.{SipResponse, parse_sip_response}
use ekaette.SipBridge.Digest.{challenge_parts, is_md5, select_qop}
use ekaette.SipBridge.Digest.Carried.{all_pass}
use ekaette.SipBridge.Digest.Tests.{five, two, no_word, five-IsDigest, two-IsDigest, token}
use ekaette.SipBridge.Register.{
  SipConfig, SipRegistrar, Register, handle_response, user_part, resolve_registrar,
}
use ekaette.SipBridge.Register.Sequence.{
  SipEvent, round, response, stop, IsSequence, all_sent, all_sent-IsSequence,
}
use ekaette.SipBridge.Register.Challenged.{
  Challenges, IsChallenge, IsClient, IsAnswered, handle_response-IsAnswered,
}

unauthorized : String → Option ℤ
unauthorized s = some (pos 401)

abbrev pub config : SipConfig
config = record {
  sip_registrar = "h";
  sip_username = "u@h";
  sip_password = "p";
  sip_public_ip = "1";
  sip_port = 5060;
  sip_register_interval = 300;
}

abbrev registrar : SipRegistrar
registrar = record {
  registered = false;
  has_transport = true;
  call_id = "i";
  cseq = 1;
  registrar_addr = none;
}

abbrev challenge : String
challenge =
    "SIP/2.0 401 No\r\nWWW-Authenticate: Digest realm=\"r\", nonce=\"n\", algorithm=MD5, qop=\"auth\"\r\n\r\n"

abbrev events : List SipEvent
events = round (some "9") ∷ response challenge none "c" ∷ stop none ∷ round none ∷ []

numbers : List Register → List ℕ
numbers [] = []
numbers (r ∷ rs) = r.cseq ∷ numbers rs

all_sent_events :
    numbers (all_sent five two no_word unauthorized config events registrar) ≡ 1 ∷ 2 ∷ 3 ∷ []
unfolding numbers all_sent unauthorized insert
all_sent_events = refl

all_sent-IsSequence_example :
    IsSequence "i" 1 none (all_sent five two no_word unauthorized config events registrar)
all_sent-IsSequence_example =
    all_sent-IsSequence five two no_word unauthorized config events registrar

config-IsClient : IsClient config
unfolding user_part is_ascii ◌<>◌
config-IsClient = record {
  username = record { some_text = tt; no_quote = (refl, tt) };
  ascii = refl;
  uri = record { some_text = tt; no_quote = (refl, (refl, (refl, (refl, (refl, tt))))) };
}

asked-IsChallenge : IsChallenge "r" "MD5" "auth" "n"
unfolding is_md5 select_qop all_pass is_space
asked-IsChallenge = record {
  realm_quotable = record { some_text = tt; no_quote = (refl, tt) };
  algorithm_token = token "MD5" tt refl refl;
  qop_quotable = record { some_text = tt; no_quote = (refl, (refl, (refl, (refl, tt)))) };
  nonce_quotable = record { some_text = tt; no_quote = (refl, tt) };
  hashed = inl refl;
  selects = inl refl;
}

abbrev refusal : SipResponse
refusal = record {
  status_code = pos 401;
  reason = "No";
  headers =
      ("WWW-Authenticate", "Digest realm=\"r\", nonce=\"n\", algorithm=MD5, qop=\"auth\"") ∷ [];
}

parsed_refusal : parse_sip_response unauthorized challenge ≡ some refusal
unfolding parse_sip_response unauthorized insert strip
parsed_refusal = refl

refusal-Challenges :
    Challenges refusal ("Digest " <> join_parts (challenge_parts "r" "MD5" "auth" "n"))
unfolding lookup join_parts part_text ◌<>◌
refusal-Challenges = inl (refl, refl)

handle_response-IsAnswered_example :
    IsAnswered five two no_word unauthorized config five-IsDigest two-IsDigest registrar
      ("9", 5060)
      (handle_response five two no_word unauthorized config challenge (some "9") "c" registrar)
unfolding resolve_registrar
handle_response-IsAnswered_example =
    handle_response-IsAnswered five two no_word unauthorized config five-IsDigest two-IsDigest
      challenge (some "9") "c" "r" "MD5" "auth" "n" registrar refusal ("9", 5060) parsed_refusal
      refusal-Challenges asked-IsChallenge config-IsClient
      (record { some_text = tt; no_quote = (refl, tt) }) refl refl
