-- ===== src/Tacacs/Wire/Bodies/Roundtrip.antt =====
-- Bodies that the client-side encoders write are read back, and reads never pass the end.
use naco.Tacacs.Wire.Bodies.{
  AuthenContinue, AuthenStart, EncodeError, Request, decode_continue, decode_request, decode_start,
  encode_continue, encode_request, encode_start, join_bytes, join_texts, pack, pack_word,
  request_head, start_head, struct_error, take_bytes, take_text, take_texts, text_lengths,
  value_error, ◌>>=◌,
}
use naco.Base.{
  All, Bool, Bool-cases, List, Result, String, [], all_of, ap, append-nil, append_assoc, arith,
  drop, drop-append, err, err_not_ok, false, if◌then◌else◌, inl, inr, leb, length, length-append,
  length-drop, length-map, ltb, ltb→lt, ok, ok-inj, refl, sym, take, take-append, true, ℕ, ◌%◌, ◌*◌,
  ◌++◌, ◌+◌, ◌/◌, ◌<◌, ◌↔◌, ◌∙◌, ◌∷◌, ◌≡◌, ◌≤◌, ◌⊎◌,
}
use naco.Base.Utf8
use naco.Tacacs.Wire.{lengths_exceed, privilege_above_15}

take_bytes-append : (xs rest : List ℕ) → take_bytes (length xs) (xs ++ rest) ≡ ok (xs, rest)
unfolding take_bytes
take_bytes-append xs rest = rw (enough, take-append xs rest, drop-append xs rest)
  where
    enough : ltb (length (xs ++ rest)) (length xs) ≡ false
    enough = ground (arith, length-append xs rest)

take_bytes-all : (xs : List ℕ) → take_bytes (length xs) xs ≡ ok (xs, [])
take_bytes-all xs = rw (append-nil xs) at (take_bytes-append xs [])

take_text-append :
    (s : String) (rest : List ℕ)
    → take_text (length (Utf8.encode s)) (Utf8.encode s ++ rest) ≡ ok (s, rest)
unfolding take_text
take_text-append s rest = rw (take_bytes-append (Utf8.encode s) rest, ◌>>=◌, Utf8.decode-encode s)

pack-ok : (e : EncodeError) (ns bytes : List ℕ) → pack e ns ≡ ok bytes → ns ≡ bytes
unfolding pack
pack-ok e ns bytes h = elim (Bool-cases (all_of (λ n. leb n 255) ns)) [
  | inl q ↦ ok-inj (sym (ap (λ b. if b then ok ns else err e) q) ∙ h)
  | inr q ↦ absurd (err_not_ok (sym (ap (λ b. if b then ok ns else err e) q) ∙ h))
]

pack_word-ok :
    (n : ℕ) (bytes : List ℕ) → pack_word n ≡ ok bytes → (n / 256) ∷ (n % 256) ∷ [] ≡ bytes
unfolding pack_word
pack_word-ok n bytes h =
    let word : Result EncodeError (List ℕ) = ok ((n / 256) ∷ (n % 256) ∷ []) in
    elim (Bool-cases (leb n 65535)) [
      | inl q ↦ ok-inj (sym (ap (λ b. if b then word else err struct_error) q) ∙ h)
      | inr q ↦ absurd (err_not_ok (sym (ap (λ b. if b then word else err struct_error) q) ∙ h))
    ]

-- both parts were computed
join_bytes-ok :
    (r t : Result EncodeError (List ℕ)) (bytes : List ℕ)
    → join_bytes r t ≡ ok bytes
    → (a : List ℕ) × (b : List ℕ) × (r ≡ ok a) × (t ≡ ok b) × (a ++ b ≡ bytes)
unfolding join_bytes
join_bytes-ok (err e) t bytes h = absurd (err_not_ok h)
join_bytes-ok (ok a) (err e) bytes h = absurd (err_not_ok h)
join_bytes-ok (ok a) (ok b) bytes h = (a, b, refl, refl, ok-inj h)

-- What `authen_start` writes, if it does not raise, is read back, and only its privilege level is still
-- tested.
pub decode_start-encode_start :
    (s : AuthenStart) (bytes : List ℕ)
    → encode_start s ≡ ok bytes
    → decode_start bytes ≡ (if ltb 15 s.priv_lvl then err privilege_above_15 else ok s)
unfolding decode_start encode_start start_head
decode_start-encode_start s bytes h =
    let (a, b, p, q, e) = join_bytes-ok _ _ bytes h in
    rw (sym e, sym (pack-ok struct_error (start_head s) a p), sym (ok-inj q))
      (rw (
        take_text-append s.user (Utf8.encode s.port ++ (Utf8.encode s.rem_addr ++ s.payload)),
        take_text-append s.port (Utf8.encode s.rem_addr ++ s.payload),
        take_text-append s.rem_addr s.payload,
        take_bytes-all s.payload,
        ◌>>=◌,
      ))

word_lem : (n : ℕ) → n / 256 * 256 + n % 256 ≡ n
word_lem n = omega arith

-- What `authen_continue` writes, if it does not raise, is read back.
pub decode_continue-encode_continue :
    (c : AuthenContinue) (bytes : List ℕ)
    → encode_continue c ≡ ok bytes
    → decode_continue bytes ≡ ok c
unfolding decode_continue encode_continue
decode_continue-encode_continue c bytes h =
    let (a, b, p, q, e) = join_bytes-ok _ _ bytes h in
    let (a2, b2, p2, q2, e2) = join_bytes-ok _ _ b q in
    rw (sym e, sym e2, sym (pack_word-ok _ a p), sym (pack_word-ok _ a2 p2), sym (ok-inj q2))
      (rw
        (
          word_lem (length (Utf8.encode c.user_msg)),
          take_text-append c.user_msg c.payload,
          ◌>>=◌,
          word_lem (length c.payload),
          take_bytes-all c.payload,
        )
        (ground arith))

take_texts-append :
    (args : List String) (rest : List ℕ)
    → take_texts (text_lengths args) (join_texts args ++ rest) ≡ ok (args, rest)
unfolding take_texts text_lengths join_texts
take_texts-append [] rest = refl
take_texts-append (a ∷ args) rest = rw (
  append_assoc (Utf8.encode a) (join_texts args) rest,
  take_text-append a (join_texts args ++ rest),
  ◌>>=◌,
  take_texts-append args rest,
)

take_texts-all :
    (args : List String) → take_texts (text_lengths args) (join_texts args) ≡ ok (args, [])
take_texts-all args = rw (append-nil (join_texts args)) at (take_texts-append args [])

length-text_lengths : (args : List String) → length (text_lengths args) ≡ length args
unfolding text_lengths
length-text_lengths args = length-map (λ a. length (Utf8.encode a)) args

take_lengths :
    (args : List String) (rest : List ℕ)
    → take_bytes (length args) (text_lengths args ++ rest) ≡ ok (text_lengths args, rest)
take_lengths args rest =
    rw (length-text_lengths args) at (take_bytes-append (text_lengths args) rest)

-- what follows the lengths of the arguments
abbrev texts_of : Request → List ℕ
texts_of r =
    Utf8.encode r.user ++ (Utf8.encode r.port ++ (Utf8.encode r.rem_addr ++ join_texts r.args))

read_texts :
    (accounting : Bool) (r : Request)
    → decode_request accounting (
        (if accounting then r.flags ∷ [] else [])
        ++ (request_head r ++ (text_lengths r.args ++ texts_of r)))
      ≡ (if ltb 15 r.priv_lvl
          then err privilege_above_15
          else ok (if accounting then r else record r { flags = 0 }))
unfolding decode_request request_head
read_texts true r = rw (
  take_lengths r.args (texts_of r),
  take_text-append r.user (Utf8.encode r.port ++ (Utf8.encode r.rem_addr ++ join_texts r.args)),
  take_text-append r.port (Utf8.encode r.rem_addr ++ join_texts r.args),
  take_text-append r.rem_addr (join_texts r.args),
  take_texts-all r.args,
  ◌>>=◌,
)
read_texts false r = rw (
  take_lengths r.args (texts_of r),
  take_text-append r.user (Utf8.encode r.port ++ (Utf8.encode r.rem_addr ++ join_texts r.args)),
  take_text-append r.port (Utf8.encode r.rem_addr ++ join_texts r.args),
  take_text-append r.rem_addr (join_texts r.args),
  take_texts-all r.args,
  ◌>>=◌,
)

-- the outcome of a read of `n` bytes
take_bytes_cases :
    (n : ℕ) (xs : List ℕ)
    → ((length xs < n) × (take_bytes n xs ≡ err lengths_exceed))
      ⊎ ((chunk : List ℕ) × (rest : List ℕ) × (take_bytes n xs ≡ ok (chunk, rest))
          × (length rest + n ≡ length xs))
unfolding take_bytes
take_bytes_cases n xs = elim (Bool-cases (ltb (length xs) n)) [
  | inl short ↦ inl (ltb→lt _ _ short, rw short)
  | inr enough ↦ inr (take n xs, drop n xs, rw enough, ground (arith, length-drop n xs))
]

abbrev pub is_ok {ℓ} : {E : Type 0} {A : Type ℓ} → Result E A → Bool
is_ok (ok a) = true
is_ok (err e) = false

-- Exactly the START bodies whose four declared lengths add up to what follows the eight fixed bytes,
-- with a privilege level of at most 15, are accepted.
pub decode_start_iff :
    (action priv kind service u p r d : ℕ) (rest : List ℕ)
    → (is_ok (decode_start (action ∷ priv ∷ kind ∷ service ∷ u ∷ p ∷ r ∷ d ∷ rest)) ≡ true)
      ↔ ((length rest ≡ u + p + r + d) × (priv ≤ 15))
unfolding decode_start take_text
decode_start_iff action priv kind service u p r d rest = elim (take_bytes_cases u rest) [
  | inl (short, e) ↦ rw (e, ◌>>=◌) (ground arith)
  | inr (cu, ru, eu, lu) ↦ elim (take_bytes_cases p ru) [
    | inl (short, e) ↦ rw (eu, ◌>>=◌, e) (ground arith)
    | inr (cp, rp, ep, lp) ↦ elim (take_bytes_cases r rp) [
      | inl (short, e) ↦ rw (eu, ◌>>=◌, ep, e) (ground arith)
      | inr (cr, rr, er, lr) ↦ elim (take_bytes_cases d rr) [
        | inl (short, e) ↦ rw (eu, ◌>>=◌, ep, er, e) (ground arith)
        | inr (cd, [], ed, ld) ↦ rw (eu, ◌>>=◌, ep, er, ed) (ground arith)
        | inr (cd, b ∷ rd, ed, ld) ↦ rw (eu, ◌>>=◌, ep, er, ed) (ground arith)
      ]
    ]
  ]
]

-- every number that `request` writes in one byte is below 256
unfoldable pub IsWritable : Bool → Request → Type 0
IsWritable accounting r =
    (accounting ≡ true → r.flags < 256)
    × All (λ n. n < 256) (request_head r)
    × All (λ (a : String). length (Utf8.encode a) < 256) r.args

all-fit : (ns : List ℕ) → All (λ n. n < 256) ns ↔ (all_of (λ n. leb n 255) ns ≡ true)
all-fit [] = ((λ h. refl), (λ h. tt))
all-fit (n ∷ ns) = (
  (λ h. ground (arith, h.0, (all-fit ns).0 h.1)),
  (λ h. (ground (arith, h), (all-fit ns).1 (ground (arith, h)))),
)

pack-fits : (e : EncodeError) (ns : List ℕ) → All (λ n. n < 256) ns → pack e ns ≡ ok ns
unfolding pack
pack-fits e ns h = ap (λ b. if b then ok ns else err e) ((all-fit ns).0 h)

lengths-fit :
    (args : List String)
    → All (λ (a : String). length (Utf8.encode a) < 256) args
    → All (λ n. n < 256) (text_lengths args)
unfolding text_lengths
lengths-fit [] h = tt
lengths-fit (a ∷ args) h = (h.0, lengths-fit args h.1)

flags-fit :
    (accounting : Bool) (flags : ℕ)
    → (accounting ≡ true → flags < 256)
    → (if accounting then pack value_error (flags ∷ []) else ok [])
      ≡ ok (if accounting then flags ∷ [] else [])
flags-fit true flags h = pack-fits value_error (flags ∷ []) (h refl, tt)
flags-fit false flags h = refl

-- What `request` writes is read back: where the numbers that take one byte, the lengths of the texts
-- included, are below 256, it does not raise, and `Request.decode` of its bytes returns the request, of
-- which only the privilege level is still tested. An authorization request has no flags.
pub decode_request-encode_request :
    (accounting : Bool) (r : Request)
    → IsWritable accounting r
    → (bytes : List ℕ) × (encode_request accounting r ≡ ok bytes)
      × (decode_request accounting bytes ≡ (
          if ltb 15 r.priv_lvl
          then err privilege_above_15
          else ok (if accounting then r else record r { flags = 0 })))
unfolding encode_request IsWritable join_bytes
decode_request-encode_request accounting r h = (
  (if accounting then r.flags ∷ [] else [])
      ++ (request_head r ++ (text_lengths r.args ++ texts_of r)),
  rw
      (
        flags-fit accounting r.flags h.0,
        pack-fits struct_error (request_head r) h.1,
        pack-fits value_error (text_lengths r.args) (lengths-fit r.args h.2),
      )
      refl,
  read_texts accounting r,
)
