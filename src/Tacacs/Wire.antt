-- ===== src/Tacacs/Wire.antt =====
-- naco/tacacs/protocol.py: the header, the obfuscation of bodies, and the reader of bodies.
-- Bytes are numbers below 256; `x & m` is written with `/` and `%`.
pub mod Envelope
pub mod Bodies
pub mod Replies
use naco.Base.{
  List, Result, [], bit_xor, err, from_bytes, if◌then◌else◌, length, ltb, not, ok, suc, take,
  to_bytes, zero, ℕ, ◌%◌, ◌*◌, ◌++◌, ◌+◌, ◌/◌, ◌==◌, ◌||◌, ◌∷◌,
}

-- `class ProtocolError`, one constructor for each message
pub data ProtocolError : Type 0 where
  short_header lengths_exceed trailing_bytes privilege_above_15 sequence_exhausted : ProtocolError
  unsupported_version unknown_type body_too_large : ℕ → ProtocolError
  unencrypted even_sequence single_packet : ProtocolError

abbrev pub Parsed : Type 0 → Type 0
Parsed = Result ProtocolError

abbrev pub major_version : ℕ
major_version = 12

abbrev pub header_len : ℕ
header_len = 12

abbrev pub max_body_len : ℕ
max_body_len = 64 * 1024

abbrev pub authen : ℕ
authen = 1

abbrev pub author : ℕ
author = 2

abbrev pub acct : ℕ
acct = 3

pub record Header : Type 0 where
  pub version : ℕ
  pub kind : ℕ
  pub seq_no : ℕ
  pub flags : ℕ
  pub session_id : ℕ
  pub body_length : ℕ

-- the tests of `Header.decode`, on the unpacked fields
pub accept_header : Header → Parsed Header
accept_header h =
    if not (h.version / 16 == major_version) || not (h.version % 16 == 0 || h.version % 16 == 1)
    then err (unsupported_version h.version)
    else if not (h.kind == authen || h.kind == author || h.kind == acct)
    then err (unknown_type h.kind)
    else if ltb max_body_len h.body_length
    then err (body_too_large h.body_length)
    else if h.seq_no == 255
    then err sequence_exhausted
    else ok h

-- `struct.unpack("!BBBBII", raw)` is the pattern; any other length is short
pub decode_header : List ℕ → Parsed Header
unfolding accept_header
decode_header (v ∷ k ∷ s ∷ f ∷ a ∷ b ∷ c ∷ d ∷ l ∷ m ∷ n ∷ o ∷ []) = accept_header (record {
  version = v;
  kind = k;
  seq_no = s;
  flags = f;
  session_id = from_bytes (a ∷ b ∷ c ∷ d ∷ []);
  body_length = from_bytes (l ∷ m ∷ n ∷ o ∷ []);
})
decode_header _ = err short_header

pub encode_header : Header → List ℕ
encode_header h =
    h.version ∷ h.kind ∷ h.seq_no ∷ h.flags ∷ to_bytes 4 h.session_id ++ to_bytes 4 h.body_length

-- the header of a reply: `request.flags & FLAG_SINGLE_CONNECT` keeps bit 2
abbrev pub reply_header : Header → List ℕ → Header
reply_header request body = record request {
  seq_no = request.seq_no + 1;
  flags = request.flags / 4 % 2 * 4;
  body_length = length body;
}

-- `hashlib.md5(data).digest()` is a parameter.
module _ (md5 : List ℕ → List ℕ) where
  -- the `for` loop of `_pad`, from the last digest
  pub pad_blocks : List ℕ → ℕ → List ℕ → List ℕ
  pad_blocks seed zero last = []
  pad_blocks seed (suc n) last = let block = md5 (seed ++ last) in block ++ pad_blocks seed n block

  -- `-(-length // 16)` rounds up
  pub pad : List ℕ → ℕ → ℕ → ℕ → ℕ → List ℕ
  unfolding pad_blocks
  pad key session_id version seq_no n =
      take n (pad_blocks (to_bytes 4 session_id ++ key ++ version ∷ seq_no ∷ []) ((n + 15) / 16) [])

  -- `crypt`
  pub crypt : List ℕ → List ℕ → ℕ → ℕ → ℕ → List ℕ
  unfolding pad
  crypt [] key session_id version seq_no = []
  crypt (b ∷ bs) key session_id version seq_no = to_bytes (length (b ∷ bs)) (
      bit_xor (from_bytes (b ∷ bs))
        (from_bytes (pad key session_id version seq_no (length (b ∷ bs)))))

  -- `packet`
  pub packet : Header → List ℕ → List ℕ → List ℕ
  unfolding crypt
  packet request body key =
      let h = reply_header request body in
      encode_header h ++ crypt body key h.session_id h.version h.seq_no
