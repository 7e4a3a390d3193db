-- ===== src/Base/Utf8.antt =====
-- Python's UTF-8 codec: `str.encode()` and `bytes.decode("utf-8", errors="replace")`.
use Prim.Native.Nat.{ℕ, suc, compare, Ordering, ◌+◌, ◌-◌, ◌*◌, ◌/◌, ◌%◌, ◌≤◌, ◌<◌}
use Prim.Native.Char.{Char, char, code, IsScalar}
use Prim.Native.String.{String}
use mathlib.Core.Path.{◌≡◌, refl, ap, ◌∙◌}
use mathlib.Core.Logic.{◌⊎◌, inl, inr}
use mathlib.Core.Bool.{◌&&◌}
use mathlib.Core.List.{List, [], ◌∷◌, ◌++◌}
use native.Mathlib.Omega.{arith}
use text.Mathlib.TextEquality.{Char-path}
use naco.Base.Lists.{All, All-append}
use naco.Base.Tests.{Bool-cases, if◌then◌else◌, leb, le→leb, ltb, ltb→lt, lt→ltb, ◌==◌}

pub replacement : Char
replacement = char 0xfffd tt

-- the character of a number, on the order of the number and the bounds of the scalar values
char_by :
    (n : ℕ) (a b c : Ordering)
    → compare n 55296 ≡ a
    → compare 57343 n ≡ b
    → compare n 1114112 ≡ c
    → Char
char_by n Ordering.lt b c p q r = char n (rw p tt)
char_by n Ordering.eq Ordering.lt Ordering.lt p q r = char n (rw (p, q, r) tt)
char_by n Ordering.gt Ordering.lt Ordering.lt p q r = char n (rw (p, q, r) tt)
char_by n _ _ _ p q r = replacement

-- `chr`, and U+FFFD for what is no scalar value
unfoldable pub to_char : ℕ → Char
unfolding char_by
to_char n = char_by n (compare n 55296) (compare 57343 n) (compare n 1114112) refl refl refl

code-char_by :
    (n : ℕ) (a b c : Ordering) (p : compare n 55296 ≡ a) (q : compare 57343 n ≡ b)
    (r : compare n 1114112 ≡ c)
    → IsScalar n
    → code (char_by n a b c p q r) ≡ n
unfolding char_by
code-char_by n Ordering.lt b c p q r h = refl
code-char_by n Ordering.eq Ordering.lt Ordering.lt p q r h = refl
code-char_by n Ordering.eq Ordering.lt Ordering.eq p q r h = absurd (rw (p, q, r) at h)
code-char_by n Ordering.eq Ordering.lt Ordering.gt p q r h = absurd (rw (p, q, r) at h)
code-char_by n Ordering.eq Ordering.eq c p q r h = absurd (rw (p, q) at h)
code-char_by n Ordering.eq Ordering.gt c p q r h = absurd (rw (p, q) at h)
code-char_by n Ordering.gt Ordering.lt Ordering.lt p q r h = refl
code-char_by n Ordering.gt Ordering.lt Ordering.eq p q r h = absurd (rw (p, q, r) at h)
code-char_by n Ordering.gt Ordering.lt Ordering.gt p q r h = absurd (rw (p, q, r) at h)
code-char_by n Ordering.gt Ordering.eq c p q r h = absurd (rw (p, q) at h)
code-char_by n Ordering.gt Ordering.gt c p q r h = absurd (rw (p, q) at h)

pub to_char-code : (c : Char) → to_char (code c) ≡ c
unfolding to_char
to_char-code (char n h) =
    Char-path _ _
      (code-char_by n (compare n 55296) (compare 57343 n) (compare n 1114112) refl refl refl h)

-- the bounds of a character's number
below_by :
    (n : ℕ) (a b c : Ordering)
    → compare n 55296 ≡ a
    → compare 57343 n ≡ b
    → compare n 1114112 ≡ c
    → IsScalar n
    → (n < 55296) ⊎ ((57343 < n) × (n < 1114112))
below_by n Ordering.lt b c p q r h = inl (ground arith)
below_by n Ordering.eq Ordering.lt Ordering.lt p q r h = inr (ground arith, ground arith)
below_by n Ordering.eq Ordering.lt Ordering.eq p q r h = absurd (rw (p, q, r) at h)
below_by n Ordering.eq Ordering.lt Ordering.gt p q r h = absurd (rw (p, q, r) at h)
below_by n Ordering.eq Ordering.eq c p q r h = absurd (rw (p, q) at h)
below_by n Ordering.eq Ordering.gt c p q r h = absurd (rw (p, q) at h)
below_by n Ordering.gt Ordering.lt Ordering.lt p q r h = inr (ground arith, ground arith)
below_by n Ordering.gt Ordering.lt Ordering.eq p q r h = absurd (rw (p, q, r) at h)
below_by n Ordering.gt Ordering.lt Ordering.gt p q r h = absurd (rw (p, q, r) at h)
below_by n Ordering.gt Ordering.eq c p q r h = absurd (rw (p, q) at h)
below_by n Ordering.gt Ordering.gt c p q r h = absurd (rw (p, q) at h)

code_bounds : (c : Char) → (code c < 55296) ⊎ ((57343 < code c) × (code c < 1114112))
code_bounds (char n h) =
    below_by n (compare n 55296) (compare 57343 n) (compare n 1114112) refl refl refl h

-- the bytes of a code point
pub encode_point : ℕ → List ℕ
encode_point n =
    if ltb n 128
    then n ∷ []
    else if ltb n 2048
    then (192 + n / 64) ∷ (128 + n % 64) ∷ []
    else if ltb n 65536
    then (224 + n / 4096) ∷ (128 + n / 64 % 64) ∷ (128 + n % 64) ∷ []
    else (240 + n / 262144) ∷ (128 + n / 4096 % 64) ∷ (128 + n / 64 % 64) ∷ (128 + n % 64) ∷ []

unfoldable pub encode : String → List ℕ
unfolding encode_point
encode String.[] = []
encode (String.◌∷◌ c s) = encode_point (code c) ++ encode s

-- Inside a character: the bytes still missing, the bits so far, and the bounds of the next byte,
-- which rule out overlong forms, surrogates and what lies past U+10FFFF.
data State : Type 0 where
  idle : State
  pending : ℕ → ℕ → ℕ → ℕ → State

start : ℕ → List Char × State
start a =
    if ltb a 128
    then (to_char a ∷ [], idle)
    else if ltb a 194
    then (replacement ∷ [], idle)
    else if ltb a 224
    then ([], pending 0 (a - 192) 128 191)
    else if ltb a 240
    then ([], pending 1 (a - 224) (if a == 224 then 160 else 128) (if a == 237 then 159 else 191))
    else if ltb a 245
    then ([], pending 2 (a - 240) (if a == 240 then 144 else 128) (if a == 244 then 143 else 191))
    else (replacement ∷ [], idle)

-- Every maximal part of a broken sequence becomes one U+FFFD.
step : State → ℕ → List Char × State
unfolding start
step idle b = start b
step (pending k bits lo hi) b =
    let bits' : ℕ = bits * 64 + b % 64 in
    let (out, next) = start b in
    if leb lo b && leb b hi
    then (if k == 0 then (to_char bits' ∷ [], idle) else ([], pending (k - 1) bits' 128 191))
    else (replacement ∷ out, next)

push : List Char → String → String
push [] s = s
push (c ∷ cs) s = String.◌∷◌ c (push cs s)

decode_from : State → List ℕ → String
unfolding step push
decode_from idle [] = String.[]
decode_from (pending k bits lo hi) [] = String.◌∷◌ replacement String.[]
decode_from st (b ∷ rest) = let (out, next) = step st b in push out (decode_from next rest)

pub decode : List ℕ → String
unfolding decode_from
decode = decode_from idle

decode_from-cons :
    (st next : State) (b : ℕ) (out : List Char) (rest : List ℕ)
    → step st b ≡ (out, next)
    → decode_from st (b ∷ rest) ≡ push out (decode_from next rest)
unfolding decode_from
decode_from-cons idle next b out rest e =
    ap (λ (r : List Char × State). push r.0 (decode_from r.1 rest)) e
decode_from-cons (pending k bits lo hi) next b out rest e =
    ap (λ (r : List Char × State). push r.0 (decode_from r.1 rest)) e

to_char_eq : (c : Char) (n : ℕ) → n ≡ code c → to_char n ≡ c
to_char_eq c n e = ap to_char e ∙ to_char-code c

abbrev point_text : Char → List ℕ → String
point_text c rest = String.◌∷◌ c (decode_from idle rest)

module _ (c : Char) (rest : List ℕ) where
  last_byte :
      (bits lo hi b : ℕ)
      → lo ≤ b
      → b ≤ hi
      → bits * 64 + b % 64 ≡ code c
      → decode_from (pending 0 bits lo hi) (b ∷ rest) ≡ point_text c rest
  unfolding push
  last_byte bits lo hi b p q e = decode_from-cons (pending 0 bits lo hi) idle b (c ∷ []) rest taken
    where
      taken : step (pending 0 bits lo hi) b ≡ (c ∷ [], idle)
      taken = unfold step in rw (le→leb _ _ p, le→leb _ _ q, to_char_eq c (bits * 64 + b % 64) e)

middle_byte :
    (k bits lo hi b : ℕ) (rest : List ℕ)
    → lo ≤ b
    → b ≤ hi
    → decode_from (pending (suc k) bits lo hi) (b ∷ rest)
      ≡ decode_from (pending k (bits * 64 + b % 64) 128 191) rest
unfolding push
middle_byte k bits lo hi b rest p q =
    decode_from-cons (pending (suc k) bits lo hi) (pending k (bits * 64 + b % 64) 128 191) b [] rest
      taken
  where
    taken : step (pending (suc k) bits lo hi) b ≡ ([], pending k (bits * 64 + b % 64) 128 191)
    taken = unfold step in rw (le→leb _ _ p, le→leb _ _ q) (ground arith)

first_byte :
    (a : ℕ) (next : State) (rest : List ℕ)
    → start a ≡ ([], next)
    → decode_from idle (a ∷ rest) ≡ decode_from next rest
unfolding push step
first_byte a next rest e = decode_from-cons idle next a [] rest e

decode_from-encode_point :
    (c : Char) (rest : List ℕ)
    → decode_from idle (encode_point (code c) ++ rest) ≡ point_text c rest
unfolding encode_point
decode_from-encode_point c rest = by_size
  where
    n : ℕ
    n = code c

    one : n < 128 → decode_from idle (n ∷ rest) ≡ point_text c rest
    one h =
        decode_from-cons idle idle n (c ∷ []) rest
          (unfold step start in rw (lt→ltb _ _ h, to_char-code c))
        ∙ unfold push in refl

    two :
        128 ≤ n
        → n < 2048
        → decode_from idle ((192 + n / 64) ∷ (128 + n % 64) ∷ rest) ≡ point_text c rest
    two l h =
        first_byte (192 + n / 64) (pending 0 (n / 64) 128 191) ((128 + n % 64) ∷ rest)
          (unfold start in ground arith)
        ∙ last_byte c rest (n / 64) 128 191 (128 + n % 64) (omega arith) (omega arith) (omega arith)

    -- the bounds of the second byte
    lo3 : ℕ
    lo3 = if (224 + n / 4096) == 224 then 160 else 128

    hi3 : ℕ
    hi3 = if (224 + n / 4096) == 237 then 159 else 191

    lo4 : ℕ
    lo4 = if (240 + n / 262144) == 240 then 144 else 128

    hi4 : ℕ
    hi4 = if (240 + n / 262144) == 244 then 143 else 191

    three :
        2048 ≤ n
        → n < 65536
        → (n < 55296) ⊎ ((57343 < n) × (n < 1114112))
        → decode_from idle ((224 + n / 4096) ∷ (128 + n / 64 % 64) ∷ (128 + n % 64) ∷ rest)
          ≡ point_text c rest
    three l h g =
        first_byte (224 + n / 4096) (pending 1 (n / 4096) lo3 hi3)
          ((128 + n / 64 % 64) ∷ (128 + n % 64) ∷ rest) (unfold start in ground arith)
        ∙ middle_byte 0 (n / 4096) lo3 hi3 (128 + n / 64 % 64) ((128 + n % 64) ∷ rest)
            (ground arith) (ground arith)
        ∙ last_byte c rest (n / 4096 * 64 + (128 + n / 64 % 64) % 64) 128 191 (128 + n % 64)
            (omega arith) (omega arith) (omega arith)

    four :
        65536 ≤ n
        → n < 1114112
        → decode_from idle (
            (240 + n / 262144)
            ∷ (128 + n / 4096 % 64)
            ∷ (128 + n / 64 % 64)
            ∷ (128 + n % 64)
            ∷ rest)
          ≡ point_text c rest
    four l h =
        first_byte (240 + n / 262144) (pending 2 (n / 262144) lo4 hi4)
          ((128 + n / 4096 % 64) ∷ (128 + n / 64 % 64) ∷ (128 + n % 64) ∷ rest)
          (unfold start in ground arith)
        ∙ middle_byte 1 (n / 262144) lo4 hi4 (128 + n / 4096 % 64)
            ((128 + n / 64 % 64) ∷ (128 + n % 64) ∷ rest) (ground arith) (ground arith)
        ∙ middle_byte 0 (n / 262144 * 64 + (128 + n / 4096 % 64) % 64) 128 191 (128 + n / 64 % 64)
            ((128 + n % 64) ∷ rest) (omega arith) (omega arith)
        ∙ last_byte c rest
            ((n / 262144 * 64 + (128 + n / 4096 % 64) % 64) * 64 + (128 + n / 64 % 64) % 64) 128 191
            (128 + n % 64) (omega arith) (omega arith) (omega arith)

    bounds : (n < 55296) ⊎ ((57343 < n) × (n < 1114112))
    bounds = code_bounds c

    by_size : decode_from idle (encode_point n ++ rest) ≡ point_text c rest
    by_size = elim (Bool-cases (ltb n 128)) [
      | inl a ↦ rw a (one (ltb→lt _ _ a))
      | inr a ↦ elim (Bool-cases (ltb n 2048)) [
        | inl b ↦ rw (a, b) (two (ground arith) (ltb→lt _ _ b))
        | inr b ↦ elim (Bool-cases (ltb n 65536)) [
          | inl d ↦ rw (a, b, d) (three (ground arith) (ltb→lt _ _ d) bounds)
          | inr d ↦ rw (a, b, d) (four (ground arith) (ground (arith, bounds)))
        ]
      ]
    ]

-- Decoding what was encoded gives the text back, whatever follows it.
pub decode-encode : (s : String) → decode (encode s) ≡ s
unfolding decode encode
decode-encode String.[] = unfold decode_from in refl
decode-encode (String.◌∷◌ c s) =
    decode_from-encode_point c (encode s) ∙ ap (String.◌∷◌ c) (decode-encode s)

-- Every byte of an encoding is a byte.
pub encode-bytes : (s : String) → All (λ b. b < 256) (encode s)
unfolding encode encode_point
encode-bytes String.[] = tt
encode-bytes (String.◌∷◌ c s) =
    All-append (λ b. b < 256) (encode_point (code c)) (encode s) point (encode-bytes s)
  where
    bounds : (code c < 55296) ⊎ ((57343 < code c) × (code c < 1114112))
    bounds = code_bounds c

    point : All (λ b. b < 256) (encode_point (code c))
    point = ground (arith, bounds)
