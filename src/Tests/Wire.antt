-- ===== src/Tests/Wire.antt =====
-- The TACACS+ wire format, MAC addresses, patterns and time windows at concrete inputs.
use naco.Base.{
  str_eq, List, Unicode, [], any_of, arith, drop, err, false, if◌then◌else◌, ltb, ok, refl, some,
  take, true, ℕ, ◌<◌, ◌==◌, ◌↔◌, ◌∷◌, ◌≡◌, ◌≤◌,
}
use naco.Tacacs.Wire.{Header, crypt, decode_header, packet, privilege_above_15, reply_header}
use naco.Base.Utf8
use naco.Tacacs.Wire.Envelope.{FitsFields, IsAccepted, packet_opens}
use naco.Tacacs.Wire.Bodies.{Request, decode_request, encode_request, request_head}
use naco.Tacacs.Wire.Bodies.Roundtrip.{IsWritable, decode_request-encode_request}
use naco.Netutils.{is_hex, normalize}
use naco.Netutils.Forms.{
  AreHex, Digits, colon, dot, fours, lowered, normalize-written, pairs, written,
}
use naco.Policy.Conditions.{test_time}
use naco.Policy.Conditions.Windows.{test_time_iff}

abbrev plain : Unicode
plain = record {
  lower = λ s. s;
  casefold = λ s. s;
  is_space = λ c. false;
  fnmatchcase = λ text pattern. str_eq text pattern;
}

abbrev request : Header
request = record {
  version = 192;
  kind = 1;
  seq_no = 1;
  flags = 0;
  session_id = 99;
  body_length = 3;
}

request-FitsFields : FitsFields request
request-FitsFields = record {
  version = omega arith;
  kind = omega arith;
  seq_no = omega arith;
  flags = omega arith;
  session_id = omega arith;
  body_length = omega arith;
}

request-IsAccepted : IsAccepted request
request-IsAccepted = record {
  major = omega arith;
  minor = omega arith;
  kind = (omega arith, omega arith);
  body_length = omega arith;
  seq_no = λ e. ground arith;
}

-- a digest of one byte
abbrev tiny_md5 : List ℕ → List ℕ
tiny_md5 x = 170 ∷ []

packet_opens_example :
    let h = reply_header request (1 ∷ 2 ∷ 3 ∷ []) in
    let p = packet tiny_md5 request (1 ∷ 2 ∷ 3 ∷ []) (5 ∷ []) in
    (decode_header (take 12 p) ≡ ok h)
    × (crypt tiny_md5 (drop 12 p) (5 ∷ []) h.session_id h.version h.seq_no ≡ 1 ∷ 2 ∷ 3 ∷ [])
packet_opens_example =
    packet_opens tiny_md5 (λ x. (omega arith, tt)) request (1 ∷ 2 ∷ 3 ∷ []) (5 ∷ [])
      request-FitsFields request-IsAccepted (omega arith)
      (omega arith, (omega arith, (omega arith, tt))) (omega arith)

abbrev show : Request
show = record {
  flags = 0;
  authen_method = 6;
  priv_lvl = 1;
  authen_type = 1;
  authen_service = 1;
  user = "ann";
  port = "tty1";
  rem_addr = "10.1.1.1";
  args = "service=shell" ∷ "cmd=show" ∷ [];
}

show-IsWritable : IsWritable false show
unfolding IsWritable request_head Utf8.encode
show-IsWritable = (
  λ h. ground (arith, h),
  (
    omega arith,
    (
      omega arith,
      (omega arith, (omega arith, (omega arith, (omega arith, (omega arith, (omega arith, tt)))))),
    ),
  ),
  (omega arith, (omega arith, tt)),
)

decode_request-encode_request_example :
    (bytes : List ℕ) × (encode_request false show ≡ ok bytes)
    × (decode_request false bytes
        ≡ (if ltb 15 show.priv_lvl then err privilege_above_15 else ok (record show { flags = 0 })))
decode_request-encode_request_example = decode_request-encode_request false show show-IsWritable

test_time_iff_example : (test_time plain 1320 360 (0 ∷ []) 0 60 ≡ true) ↔ (
    (any_of (λ d. d == 0) (0 ∷ []) ≡ true)
    × ((1320 ≤ 360 → (1320 ≤ 60) × (60 ≤ 360)) × (360 < 1320 → ¬ ((360 < 60) × (60 < 1320)))))
test_time_iff_example = test_time_iff plain 1320 360 (0 ∷ []) 0 60

abbrev printed : Digits
printed = record {
  d0 = 48;
  d1 = 48;
  d2 = 49;
  d3 = 97;
  d4 = 50;
  d5 = 66;
  d6 = 51;
  d7 = 67;
  d8 = 52;
  d9 = 68;
  d10 = 53;
  d11 = 69;
}

printed-AreHex : AreHex printed
unfolding is_hex
printed-AreHex = record {
  h0 = refl;
  h1 = refl;
  h2 = refl;
  h3 = refl;
  h4 = refl;
  h5 = refl;
  h6 = refl;
  h7 = refl;
  h8 = refl;
  h9 = refl;
  h10 = refl;
  h11 = refl;
}

normalize-written_example :
    normalize (written (fours dot) printed) ≡ some (written (pairs colon) (lowered printed))
normalize-written_example = normalize-written printed printed-AreHex (fours dot)
