-- ===== src/SipBridge/Dialog/Sdp.antt =====
-- `parse_sdp_g711` of sip_bridge/sip_dialog.py. Its regular expressions are searches by hand; the values of
-- decimal digits are a parameter.
use Prim.Native.Char.{Char, code}
use ekaette.Prelude.{
  ℕ, zero, suc, ◌+◌, ◌-◌, ◌*◌, String, Bool, true, false, ◌||◌, not, Option, none, some, List, [],
  ◌∷◌, ◌==◌, if◌then◌else◌,
}
use ekaette.Prelude.Text.{is_space}
use ekaette.At.Webhooks.{after_prefix}
use ekaette.SipBridge.Challenge.{span, size, after_lowered}
use ekaette.SipBridge.Digest.{◌>>=◌}

pub record SdpInfo : Type 0 where
  pub media_ip : String
  pub media_port : ℕ
  pub pcmu_payload_type : ℕ
  pub dtmf_payload_type : Option ℕ

-- `search`: the match at the first place where there is one
unfoldable pub search : (String → Option String) → String → Option String
search f String.[] = f ""
search f (String.◌∷◌ c s) =
    let later = search f s in elim (f (String.◌∷◌ c s)) [ none ↦ later | some m ↦ some m ]

abbrev pub nonempty : String × String → Option (String × String)
nonempty (String.[], rest) = none
nonempty (String.◌∷◌ c run, rest) = some (String.◌∷◌ c run, rest)

-- `[...]+`, greedily, and the rest
unfoldable pub some_of : (Char → Bool) → String → Option (String × String)
unfolding span
some_of test s = nonempty (span test s)

-- `\s+`
unfoldable pub after_spaces : String → Option String
unfolding some_of is_space
after_spaces s = do (run, rest) ← some_of is_space s; some rest

module _ (digit_value : Char → Option ℕ) where
  -- `\d`
  abbrev pub is_digit : Char → Bool
  is_digit c = elim (digit_value c) [ none ↦ false | some d ↦ true ]

  abbrev pub with_digit : ℕ → Option ℕ → ℕ
  with_digit n none = n
  with_digit n (some d) = n * 10 + d

  -- `int` of digits, behind those that were read
  unfoldable pub number_from : ℕ → String → ℕ
  number_from n String.[] = n
  number_from n (String.◌∷◌ c s) = number_from (with_digit n (digit_value c)) s

  -- `c=IN\s+IP4\s+([\d.]+)`
  unfoldable pub connection_at : String → Option String
  unfolding after_prefix after_spaces some_of
  connection_at s = do
    line ← after_prefix "c=IN" s
    kind ← after_spaces line
    behind ← after_prefix "IP4" kind
    address ← after_spaces behind
    (ip, rest) ← some_of (λ c. is_digit c || code c == b'.') address
    some ip

  -- `\s+[\d\s]+`: two characters, of which the first is a space and the other a space or a digit
  abbrev pub formats : String → Option String
  formats String.[] = none
  formats (String.◌∷◌ c String.[]) = none
  formats (String.◌∷◌ c (String.◌∷◌ d s)) = if is_digit d || is_space d then some s else none

  -- the port of `m=audio\s+(\d+)\s+\S+\s+([\d\s]+)`
  unfoldable pub media_at : String → Option String
  unfolding after_prefix after_spaces some_of is_space
  media_at s = do
    line ← after_prefix "m=audio" s
    numbers ← after_spaces line
    (port, rest) ← some_of is_digit numbers
    protocol ← after_spaces rest
    (name, behind) ← some_of (λ c. not (is_space c)) protocol
    more ← formats behind
    some port

  -- `a=rtpmap:(\d+)\s+(\S+)`: the type, the codec, and the rest
  unfoldable pub rtpmap_at : String → Option (ℕ × String × String)
  unfolding after_prefix after_spaces some_of number_from is_space
  rtpmap_at s = do
    line ← after_prefix "a=rtpmap:" s
    (type, behind) ← some_of is_digit line
    name ← after_spaces behind
    (codec, rest) ← some_of (λ c. not (is_space c)) name
    some (number_from 0 type, codec, rest)

  abbrev pub found_map :
      Option (ℕ × String × String) → ℕ → (ℕ → List (ℕ × String)) → List (ℕ × String)
  found_map none left later = later 0
  found_map (some (type, codec, rest)) left later = (type, codec) ∷ later (left - size rest)

  -- `finditer`, past the characters that are skipped
  unfoldable pub rtpmaps : ℕ → String → List (ℕ × String)
  unfolding rtpmap_at
  rtpmaps skip String.[] = []
  rtpmaps (suc skip) (String.◌∷◌ c s) = rtpmaps skip s
  rtpmaps zero (String.◌∷◌ c s) =
      found_map (rtpmap_at (String.◌∷◌ c s)) (size s) (λ skip. rtpmaps skip s)

  -- the last type of a telephone event
  unfoldable pub dtmf_type : List (ℕ × String) → Option ℕ
  unfolding after_lowered
  dtmf_type [] = none
  dtmf_type ((type, codec) ∷ maps) =
      let later = dtmf_type maps in
      elim later [
        | some last ↦ some last
        | none ↦ elim (after_lowered "telephone-event/" codec) [
          | none ↦ none
          | some rate ↦ some type
        ]
      ]

  abbrev pub or_no_text : Option String → String
  or_no_text none = ""
  or_no_text (some s) = s

  unfoldable pub parse_sdp_g711 : String → SdpInfo
  unfolding search connection_at media_at number_from rtpmaps dtmf_type
  parse_sdp_g711 sdp = record {
    media_ip = or_no_text (search connection_at sdp);
    media_port = number_from 0 (or_no_text (search media_at sdp));
    pcmu_payload_type = 0;
    dtmf_payload_type = dtmf_type (rtpmaps 0 sdp);
  }
