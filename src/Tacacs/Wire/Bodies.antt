-- ===== src/Tacacs/Wire/Bodies.antt =====
-- naco/tacacs/protocol.py: `_Reader`, the bodies of requests, and the client-side encoders.
pub mod Roundtrip
use naco.Base.{
  Bool, List, Result, String, [], all_of, drop, err, false, if◌then◌else◌, leb, length, ltb, map,
  ok, take, true, ℕ, ◌%◌, ◌*◌, ◌++◌, ◌+◌, ◌/◌, ◌==◌, ◌>>◌, ◌∷◌,
}
use naco.Base.Utf8
use naco.Tacacs.Wire.{Parsed, ProtocolError, lengths_exceed, privilege_above_15, trailing_bytes}

-- `_Reader`: a read takes the bytes that are left, `data[pos:]`, and returns a value and what is
-- then left. A read that fails raises.
abbrev pub Reader : Type 0 → Type 0
Reader A = List ℕ → Parsed (A × List ℕ)

infixl 5 ◌>>=◌
abbrev pub ◌>>=◌ : {A B : Type 0} → Reader A → (A → Reader B) → Reader B
◌>>=◌ m f unread = elim (m unread) [ ok (a, rest) ↦ f a rest | err e ↦ err e ]

abbrev pub pure : {A : Type 0} → A → Reader A
pure a rest = ok (a, rest)

abbrev pub fail : {A : Type 0} → ProtocolError → Reader A
fail e rest = err e

-- `take`
pub take_bytes : ℕ → Reader (List ℕ)
take_bytes n rest =
    if ltb (length rest) n then err lengths_exceed else ok (take n rest, drop n rest)

-- one field of `unpack("!…B")`
pub take_byte : Reader ℕ
take_byte [] = err lengths_exceed
take_byte (b ∷ rest) = ok (b, rest)

-- one `H` of `unpack`
pub take_word : Reader ℕ
take_word rest = (do a ← take_byte; b ← take_byte; pure (a * 256 + b)) rest

-- `_text(r.take(n))`
pub take_text : ℕ → Reader String
take_text n = do raw ← take_bytes n; pure (Utf8.decode raw)

-- `done`, and the value that the decoder returns
pub finish : {A : Type 0} → A → List ℕ → Parsed A
finish a [] = ok a
finish a (b ∷ rest) = err trailing_bytes

pub record AuthenStart : Type 0 where
  pub action : ℕ
  pub priv_lvl : ℕ
  pub authen_type : ℕ
  pub authen_service : ℕ
  pub user : String
  pub port : String
  pub rem_addr : String
  pub payload : List ℕ

read_start : Reader AuthenStart
unfolding take_byte
read_start = do
  action ← take_byte
  priv ← take_byte
  kind ← take_byte
  service ← take_byte
  ulen ← take_byte
  plen ← take_byte
  rlen ← take_byte
  dlen ← take_byte
  user ← take_text ulen
  port ← take_text plen
  rem_addr ← take_text rlen
  payload ← take_bytes dlen
  pure (record {
    action = action;
    priv_lvl = priv;
    authen_type = kind;
    authen_service = service;
    user = user;
    port = port;
    rem_addr = rem_addr;
    payload = payload;
  })

-- read, then `done`, then the privilege test
pub closed : {A : Type 0} → (A → ℕ) → Parsed (A × List ℕ) → Parsed A
unfolding finish
closed level (err e) = err e
closed level (ok (a, b ∷ rest)) = err trailing_bytes
closed level (ok (a, [])) = if ltb 15 (level a) then err privilege_above_15 else ok a

-- `AuthenStart.decode`
pub decode_start : List ℕ → Parsed AuthenStart
unfolding read_start closed
decode_start body = closed (λ s. s.priv_lvl) (read_start body)

pub record AuthenContinue : Type 0 where
  pub user_msg : String
  pub payload : List ℕ
  pub abort : Bool

read_continue : Reader AuthenContinue
unfolding take_word take_byte
read_continue = do
  mlen ← take_word
  dlen ← take_word
  flags ← take_byte
  msg ← take_text mlen
  payload ← take_bytes dlen
  pure (record { user_msg = msg; payload = payload; abort = flags % 2 == 1 })

-- `AuthenContinue.decode`: nothing but `done` follows the reads
pub decode_continue : List ℕ → Parsed AuthenContinue
unfolding read_continue closed
decode_continue body = closed (λ c. 0) (read_continue body)

-- authorization and accounting requests
pub record Request : Type 0 where
  pub flags : ℕ
  pub authen_method : ℕ
  pub priv_lvl : ℕ
  pub authen_type : ℕ
  pub authen_service : ℕ
  pub user : String
  pub port : String
  pub rem_addr : String
  pub args : List String

-- `[_text(r.take(n)) for n in lengths]`
pub take_texts : List ℕ → Reader (List String)
take_texts [] = pure []
take_texts (n ∷ ns) = do s ← take_text n; rest ← take_texts ns; pure (s ∷ rest)

take_flags : Bool → Reader ℕ
unfolding take_byte
take_flags true = take_byte
take_flags false = pure 0

read_request : Bool → Reader Request
unfolding take_flags take_byte
read_request accounting = do
  flags ← take_flags accounting
  method ← take_byte
  priv ← take_byte
  kind ← take_byte
  service ← take_byte
  ulen ← take_byte
  plen ← take_byte
  rlen ← take_byte
  count ← take_byte
  lengths ← take_bytes count
  user ← take_text ulen
  port ← take_text plen
  rem_addr ← take_text rlen
  args ← take_texts lengths
  pure (record {
    flags = flags;
    authen_method = method;
    priv_lvl = priv;
    authen_type = kind;
    authen_service = service;
    user = user;
    port = port;
    rem_addr = rem_addr;
    args = args;
  })

-- `Request.decode`
pub decode_request : Bool → List ℕ → Parsed Request
unfolding read_request closed
decode_request accounting body = closed (λ r. r.priv_lvl) (read_request accounting body)

-- what `struct.pack` and `bytes` raise on a number that has no room
pub data EncodeError : Type 0 where
  struct_error : EncodeError
  value_error : EncodeError

-- the numbers as bytes, or the error
pub pack : EncodeError → List ℕ → Result EncodeError (List ℕ)
pack e numbers = if all_of (λ n. leb n 255) numbers then ok numbers else err e

-- one number as two bytes
pub pack_word : ℕ → Result EncodeError (List ℕ)
pack_word n = if leb n 65535 then ok ((n / 256) ∷ (n % 256) ∷ []) else err struct_error

-- `a + b`, where computing either may raise
pub join_bytes :
    Result EncodeError (List ℕ) → Result EncodeError (List ℕ) → Result EncodeError (List ℕ)
join_bytes (err e) r = err e
join_bytes (ok a) (err e) = err e
join_bytes (ok a) (ok b) = ok (a ++ b)

-- the eight numbers at the start
pub start_head : AuthenStart → List ℕ
start_head s =
    s.action
    ∷ s.priv_lvl
    ∷ s.authen_type
    ∷ s.authen_service
    ∷ length (Utf8.encode s.user)
    ∷ length (Utf8.encode s.port)
    ∷ length (Utf8.encode s.rem_addr)
    ∷ length s.payload
    ∷ []

-- `authen_start`
pub encode_start : AuthenStart → Result EncodeError (List ℕ)
unfolding pack join_bytes start_head
encode_start s =
    join_bytes (pack struct_error (start_head s))
      (ok (Utf8.encode s.user ++ (Utf8.encode s.port ++ (Utf8.encode s.rem_addr ++ s.payload))))

-- `authen_continue`
pub encode_continue : AuthenContinue → Result EncodeError (List ℕ)
unfolding pack_word join_bytes
encode_continue c =
    let m = Utf8.encode c.user_msg in
    join_bytes (pack_word (length m)) (
      join_bytes (pack_word (length c.payload))
        (ok ((if c.abort then 1 else 0) ∷ (m ++ c.payload))))

-- `b"".join(encoded)`
pub join_texts : List String → List ℕ
join_texts [] = []
join_texts (a ∷ args) = Utf8.encode a ++ join_texts args

pub text_lengths : List String → List ℕ
text_lengths = map (λ a. length (Utf8.encode a))

-- the eight numbers after the flags
unfoldable pub request_head : Request → List ℕ
request_head r =
    r.authen_method
    ∷ r.priv_lvl
    ∷ r.authen_type
    ∷ r.authen_service
    ∷ length (Utf8.encode r.user)
    ∷ length (Utf8.encode r.port)
    ∷ length (Utf8.encode r.rem_addr)
    ∷ length r.args
    ∷ []

-- `request`; the flags are written for accounting only
pub encode_request : Bool → Request → Result EncodeError (List ℕ)
unfolding request_head text_lengths join_texts pack join_bytes
encode_request accounting r =
    join_bytes (if accounting then pack value_error (r.flags ∷ []) else ok []) (
      join_bytes (pack struct_error (request_head r)) (
        join_bytes (pack value_error (text_lengths r.args)) (
          ok (
            Utf8.encode r.user
            ++ (Utf8.encode r.port ++ (Utf8.encode r.rem_addr ++ join_texts r.args))))))
