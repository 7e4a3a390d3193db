-- ===== src/Tacacs/Wire/Envelope.antt =====
-- Headers round-trip, `crypt` undoes itself, and a reply can be read by the client it is for.
use native.Mathlib.Nat.{le_trans, pow-le-pow_right}
use naco.Base.{
  All-append, All-take, AreBytes, List, [], arith, bit_xor, drop, drop-append, from_bytes,
  from_bytes-lt, from_bytes-to_bytes, from_bytes_four, length, length-append, length-take,
  length-to_bytes, ok, refl, subst, suc, sym, take, take-append, to_bytes, to_bytes-AreBytes,
  to_bytes-from_bytes, to_bytes_four, to_bytes_none, zero, ℕ, ◌%◌, ◌++◌, ◌+◌, ◌/◌, ◌<◌, ◌^◌, ◌↔◌,
  ◌∙◌, ◌∷◌, ◌≡◌, ◌≢◌, ◌≤◌,
}
use naco.Base.Xor.{bit_xor-lt_bytes, bit_xor_cancel_bytes}
use naco.Tacacs.Wire.{
  Header, accept_header, crypt, decode_header, encode_header, max_body_len, packet, pad, pad_blocks,
  reply_header,
}

-- the values fit their fields
pub record FitsFields (h : Header) : Type 0 where
  pub version : h.version < 256
  pub kind : h.kind < 256
  pub seq_no : h.seq_no < 256
  pub flags : h.flags < 256
  pub session_id : h.session_id < 2 ^ 32
  pub body_length : h.body_length < 2 ^ 32

-- Decoding an encoded header applies the decoder's tests to that very header.
pub decode_header-encode_header :
    (h : Header) → FitsFields h → decode_header (encode_header h) ≡ accept_header h
unfolding decode_header encode_header
decode_header-encode_header h f =
    rw (to_bytes_four h.session_id, to_bytes_four h.body_length)
      (rw (from_bytes_four h.session_id f.session_id, from_bytes_four h.body_length f.body_length))

-- what the decoder's tests say
pub record IsAccepted (h : Header) : Type 0 where
  pub major : h.version / 16 ≡ 12
  pub minor : h.version % 16 ≤ 1
  pub kind : (1 ≤ h.kind) × (h.kind ≤ 3)
  pub body_length : h.body_length ≤ 65536
  pub seq_no : h.seq_no ≢ 255

accept_header_ok : (h g : Header) → accept_header h ≡ ok g → IsAccepted h × (g ≡ h)
unfolding accept_header
accept_header_ok h g e = ground arith

-- The tests let exactly these headers pass.
pub accept_header_iff : (h : Header) → (accept_header h ≡ ok h) ↔ IsAccepted h
unfolding accept_header
accept_header_iff h = (λ e. (accept_header_ok h h e).0, λ a. ground arith)

module _ (md5 : List ℕ → List ℕ) (digest_bytes : (x : List ℕ) → AreBytes (md5 x)) where
  pad_blocks-AreBytes : (seed last : List ℕ) (n : ℕ) → AreBytes (pad_blocks md5 seed n last)
  unfolding pad_blocks
  pad_blocks-AreBytes seed last zero = tt
  pad_blocks-AreBytes seed last (suc n) =
      All-append (λ b. b < 256) (md5 (seed ++ last)) _ (digest_bytes (seed ++ last))
        (pad_blocks-AreBytes seed (md5 (seed ++ last)) n)

  pad-AreBytes :
      (key : List ℕ) (session_id version seq_no n : ℕ)
      → AreBytes (pad md5 key session_id version seq_no n)
  unfolding pad
  pad-AreBytes key session_id version seq_no n =
      All-take (λ b. b < 256) n _
        (pad_blocks-AreBytes (to_bytes 4 session_id ++ key ++ version ∷ seq_no ∷ []) []
          ((n + 15) / 16))

  length-pad :
      (key : List ℕ) (session_id version seq_no n : ℕ)
      → length (pad md5 key session_id version seq_no n) ≤ n
  unfolding pad
  length-pad key session_id version seq_no n = omega (
    arith,
    length-take n
        (pad_blocks md5 (to_bytes 4 session_id ++ key ++ version ∷ seq_no ∷ []) ((n + 15) / 16) []),
  )

  module _ (key : List ℕ) (session_id version seq_no : ℕ) where
    mask : ℕ → ℕ
    mask n = from_bytes (pad md5 key session_id version seq_no n)

    mask-lt : (n : ℕ) → mask n < 256 ^ n
    unfolding mask
    mask-lt n =
        le_trans
          (from_bytes-lt (pad md5 key session_id version seq_no n)
            (pad-AreBytes key session_id version seq_no n))
          (pow-le-pow_right {n = 256} (omega arith) (length-pad key session_id version seq_no n))

    crypt_lem :
        (body : List ℕ)
        → crypt md5 body key session_id version seq_no
          ≡ to_bytes (length body) (bit_xor (from_bytes body) (mask (length body)))
    unfolding crypt mask
    crypt_lem [] = sym (to_bytes_none _)
    crypt_lem (b ∷ bs) = refl

    pub length-crypt :
        (body : List ℕ) → length (crypt md5 body key session_id version seq_no) ≡ length body
    length-crypt body = rw (crypt_lem body) (length-to_bytes (length body) _)

    pub crypt-AreBytes : (body : List ℕ) → AreBytes (crypt md5 body key session_id version seq_no)
    crypt-AreBytes body = rw (crypt_lem body) (to_bytes-AreBytes (length body) _)

    -- Obfuscating twice with the same parameters restores the body, whatever the digest.
    pub crypt_involutive :
        (body : List ℕ)
        → AreBytes body
        → crypt md5 (crypt md5 body key session_id version seq_no) key session_id version seq_no
          ≡ body
    crypt_involutive body h =
        rw
          (
            crypt_lem (crypt md5 body key session_id version seq_no),
            length-crypt body,
            crypt_lem body,
          )
          (rw
            (
              from_bytes-to_bytes (length body) _ (
                  bit_xor-lt_bytes (length body) _ _ (from_bytes-lt body h)
                    (mask-lt (length body))),
              bit_xor_cancel_bytes (length body) _ _ (from_bytes-lt body h) (mask-lt (length body)),
            )
            (to_bytes-from_bytes body h))

  length-encode_header : (h : Header) → length (encode_header h) ≡ 12
  unfolding encode_header
  length-encode_header h = omega (
    arith,
    length-append (to_bytes 4 h.session_id) (to_bytes 4 h.body_length),
    length-to_bytes 4 h.session_id,
    length-to_bytes 4 h.body_length,
  )

  -- A reply to an accepted client header (an odd sequence number) with a body of at most 64 KiB: the
  -- client cuts it after twelve bytes, decodes the header, with the next sequence number and the same
  -- version and session, and restores the body with the parameters that this header names.
  pub packet_opens :
      (request : Header) (body key : List ℕ)
      → FitsFields request
      → IsAccepted request
      → request.seq_no % 2 ≡ 1
      → AreBytes body
      → length body ≤ max_body_len
      → let h = reply_header request body in
        let p = packet md5 request body key in
        (decode_header (take 12 p) ≡ ok h)
        × (crypt md5 (drop 12 p) key h.session_id h.version h.seq_no ≡ body)
  unfolding packet
  packet_opens request body key f a odd bytes short =
      let h = reply_header request body in
      let c = crypt md5 body key h.session_id h.version h.seq_no in
      (
        subst (λ (n : ℕ). decode_header (take n (encode_header h ++ c)) ≡ ok h)
            (length-encode_header h)
            (rw (take-append (encode_header h) c)
              (decode_header-encode_header h fits ∙ (accept_header_iff h).1 accepted)),
        subst
            (λ (n : ℕ).
              crypt md5 (drop n (encode_header h ++ c)) key h.session_id h.version h.seq_no ≡ body)
            (length-encode_header h)
            (rw (drop-append (encode_header h) c)
              (crypt_involutive key h.session_id h.version h.seq_no body bytes)),
      )
    where
      fits : FitsFields (reply_header request body)
      fits = record {
        version = f.version;
        kind = f.kind;
        seq_no = ground (arith, f.seq_no, a.seq_no);
        flags = omega arith;
        session_id = f.session_id;
        body_length = omega arith;
      }

      accepted : IsAccepted (reply_header request body)
      accepted = record {
        major = a.major;
        minor = a.minor;
        kind = a.kind;
        body_length = omega arith;
        seq_no = ground (arith, f.seq_no, a.seq_no);
      }
