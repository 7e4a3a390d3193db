-- ===== src/Tacacs/Wire/Replies.antt =====
-- naco/tacacs/protocol.py: the bodies of replies.
use naco.Base.{
  All-append, All-take, AreBytes, Bool, List, String, [], arith, if◌then◌else◌, length, length-map,
  length-take, map, take, ℕ, ◌%◌, ◌++◌, ◌/◌, ◌<◌, ◌∷◌, ◌≤◌,
}
use naco.Base.Utf8

-- `_str`: the encoded text, cut to a field's largest length
pub cut_text : String → ℕ → List ℕ
cut_text value limit = take limit (Utf8.encode value)

-- two bytes of `struct.pack("!H", n)`
abbrev word_bytes : ℕ → List ℕ
word_bytes n = (n / 256) ∷ (n % 256) ∷ []

-- `authen_reply`
pub authen_reply : ℕ → String → Bool → List ℕ → List ℕ
unfolding cut_text
authen_reply status server_msg noecho payload =
    let msg = cut_text server_msg 0xffff in
    status ∷ (if noecho then 1 else 0) ∷ word_bytes (length msg)
    ++ (word_bytes (length payload) ++ (msg ++ payload))

-- `b"".join(encoded)`
pub concat_bytes : List (List ℕ) → List ℕ
concat_bytes [] = []
concat_bytes (a ∷ rest) = a ++ concat_bytes rest

-- `author_reply`
pub author_reply : ℕ → List String → String → List ℕ
unfolding cut_text concat_bytes
author_reply status args server_msg =
    let encoded = map (λ a. cut_text a 255) args in
    let msg = cut_text server_msg 0xffff in
    status ∷ length encoded ∷ word_bytes (length msg)
    ++ (word_bytes 0 ++ (map length encoded ++ (msg ++ concat_bytes encoded)))

-- `acct_reply`
pub acct_reply : ℕ → String → List ℕ
unfolding cut_text
acct_reply status server_msg =
    let msg = cut_text server_msg 0xffff in
    word_bytes (length msg) ++ (word_bytes 0 ++ status ∷ msg)

length-cut_text : (value : String) (limit : ℕ) → length (cut_text value limit) ≤ limit
unfolding cut_text
length-cut_text value limit = omega (arith, length-take limit (Utf8.encode value))

cut_text-AreBytes : (value : String) (limit : ℕ) → AreBytes (cut_text value limit)
unfolding cut_text
cut_text-AreBytes value limit =
    All-take (λ b. b < 256) limit (Utf8.encode value) (Utf8.encode-bytes value)

texts-AreBytes :
    (args : List String)
    → AreBytes (map length (map (λ a. cut_text a 255) args))
      × AreBytes (concat_bytes (map (λ a. cut_text a 255) args))
unfolding concat_bytes
texts-AreBytes [] = (tt, tt)
texts-AreBytes (a ∷ args) =
    let (lengths, texts) = texts-AreBytes args in
    (
      (omega (arith, length-cut_text a 255), lengths),
      All-append (λ b. b < 256) (cut_text a 255) _ (cut_text-AreBytes a 255) texts,
    )

-- However long the arguments and the message, each field of an authorization reply is a byte, if the
-- status is one and there are at most 255 arguments: `struct.pack` and `bytes` do not raise.
pub author_reply-AreBytes :
    (status : ℕ) (args : List String) (server_msg : String)
    → status < 256
    → length args < 256
    → AreBytes (author_reply status args server_msg)
unfolding author_reply
author_reply-AreBytes status args server_msg s n =
    (s, (count, (high, (low, (omega arith, (omega arith, rest))))))
  where
    texts :
        AreBytes (map length (map (λ a. cut_text a 255) args))
        × AreBytes (concat_bytes (map (λ a. cut_text a 255) args))
    texts = texts-AreBytes args

    count : length (map (λ a. cut_text a 255) args) < 256
    count = rw (length-map (λ a. cut_text a 255) args) n

    high : length (cut_text server_msg 0xffff) / 256 < 256
    high = omega (arith, length-cut_text server_msg 0xffff)

    low : length (cut_text server_msg 0xffff) % 256 < 256
    low = omega arith

    rest : AreBytes (
        map length (map (λ a. cut_text a 255) args)
        ++ (cut_text server_msg 0xffff ++ concat_bytes (map (λ a. cut_text a 255) args)))
    rest =
        All-append (λ b. b < 256) (map length (map (λ a. cut_text a 255) args)) _ texts.0
          (All-append (λ b. b < 256) (cut_text server_msg 0xffff) _
            (cut_text-AreBytes server_msg 0xffff) texts.1)
