-- ===== src/Passwords.antt =====
-- naco/core/passwords.py. bcrypt is a parameter: its check of a password against a hash, which may
-- raise ValueError, and its hash.
use mathlib.Core.Bool.{true≢false}
use naco.Base.{
  Bool, Bool-cases, List, Option, Result, String, [], ap, arith, err, false, if◌then◌else◌,
  is_empty, is_some, leb, leb→le, length, le→leb, ltb, none, none_not_some, not, ok, or_else, refl,
  some, some-inj, subst, suc, sym, take, text_length, true, zero, ℕ, ◌&&◌, ◌↔◌, ◌∙◌, ◌∷◌, ◌≡◌, ◌≤◌,
}
use naco.Base.Utf8

-- the texts of the `ValueError`s
pub data PasswordError : Type 0 where
  longer_than_72 over_72 : PasswordError
  shorter_than : ℕ → PasswordError

abbrev pub max_bytes : ℕ
max_bytes = 72

-- `checkpw` is `none` where bcrypt raises; `dummy` is what `_dummy_hash` returns
pub record Bcrypt : Type 0 where
  pub checkpw : List ℕ → List ℕ → Option Bool
  pub hashpw : List ℕ → String
  pub dummy : List ℕ

-- `hash_password_sync`
unfoldable pub hash_password : Bcrypt → String → Result PasswordError String
hash_password b password =
    if ltb max_bytes (length (Utf8.encode password))
    then err longer_than_72
    else ok (b.hashpw (Utf8.encode password))

-- `usable`
pub is_usable : String → Option String → Bool
is_usable password hashed = is_some hashed && leb (length (Utf8.encode password)) max_bytes

-- `hashed.encode() if usable and hashed else _dummy_hash()`
pub target_hash : Bcrypt → Bool → Option String → List ℕ
target_hash b usable none = b.dummy
target_hash b usable (some h) = if usable && not (is_empty h) then Utf8.encode h else b.dummy

-- `verify_password_sync`
unfoldable pub verify_password : Bcrypt → String → Option String → Bool
unfolding is_usable target_hash
verify_password b password hashed =
    or_else
      (b.checkpw (take max_bytes (Utf8.encode password))
        (target_hash b (is_usable password hashed) hashed))
      false
    && is_usable password hashed

-- `_validate`
pub validate : String → ℕ → Result PasswordError (Unit {0})
validate password minimum =
    if ltb (text_length password) minimum
    then err (shorter_than minimum)
    else if ltb max_bytes (length (Utf8.encode password))
    then err over_72
    else ok tt

-- `validate_admin_password` and `validate_user_password`
unfoldable pub validate_admin_password : String → Result PasswordError (Unit {0})
unfolding validate
validate_admin_password password = validate password 12

pub validate_user_password : String → Result PasswordError (Unit {0})
unfolding validate
validate_user_password password = validate password 8

-- the hash that a password is checked against: the stored one, or the dummy for an empty text
pub checked_against : Bcrypt → String → List ℕ
checked_against b h = if is_empty h then b.dummy else Utf8.encode h

take-whole : (n : ℕ) (xs : List ℕ) → length xs ≤ n → take n xs ≡ xs
take-whole zero [] h = refl
take-whole zero (x ∷ xs) h = absurd (omega (arith, h))
take-whole (suc n) [] h = refl
take-whole (suc n) (x ∷ xs) h = λ i. x ∷ take-whole n xs (omega (arith, h)) i

or_false_iff : (o : Option Bool) → (or_else o false ≡ true) ↔ (o ≡ some true)
or_false_iff none = ground arith
or_false_iff (some b) = ground arith

and-right : (a b : Bool) → (a && b) ≡ true → b ≡ true
and-right a b h = ground (arith, h)

and-true : (a : Bool) → (a && true) ≡ a
and-true a = ground arith

target-usable :
    (b : Bcrypt) (h : String) (e : Bool)
    → (if true && not e then Utf8.encode h else b.dummy) ≡ (if e then b.dummy else Utf8.encode h)
target-usable b h true = refl
target-usable b h false = refl

verify_password-within :
    (b : Bcrypt) (password h : String)
    → length (Utf8.encode password) ≤ max_bytes
    → verify_password b password (some h)
      ≡ or_else (b.checkpw (Utf8.encode password) (checked_against b h)) false
unfolding verify_password target_hash is_usable checked_against
verify_password-within b password h l =
    rw
      (
        le→leb (length (Utf8.encode password)) max_bytes l,
        take-whole max_bytes (Utf8.encode password) l,
      )
      (and-true (
          or_else
            (b.checkpw (Utf8.encode password)
              (if true && not (is_empty h) then Utf8.encode h else b.dummy))
            false)
        ∙ ap (λ t. or_else (b.checkpw (Utf8.encode password) t) false)
            (target-usable b h (is_empty h)))

-- A password is accepted exactly if a hash is stored, the password has at most 72 bytes, and bcrypt
-- matches the password, uncut, with that hash (with the hash of the dummy, if the stored text is empty).
pub verify_password_iff :
    (b : Bcrypt) (password : String) (hashed : Option String)
    → (verify_password b password hashed ≡ true) ↔ (
        (h : String) × (hashed ≡ some h)
        × (length (Utf8.encode password) ≤ max_bytes)
        × (b.checkpw (Utf8.encode password) (checked_against b h) ≡ some true))
unfolding verify_password is_usable
verify_password_iff b password none = (
  (λ h. absurd (
      true≢false (
        sym (
          and-right
            (or_else (b.checkpw (take max_bytes (Utf8.encode password)) (target_hash b false none))
              false)
            false h)))),
  (λ h. absurd (none_not_some h.1)),
)
verify_password_iff b password (some t) =
    let o = or_false_iff (b.checkpw (Utf8.encode password) (checked_against b t)) in
    (
      (λ h.
          let l = leb→le (length (Utf8.encode password)) max_bytes (
            and-right
              (or_else
                (b.checkpw (take max_bytes (Utf8.encode password))
                  (target_hash b (is_usable password (some t)) (some t)))
                false)
              (leb (length (Utf8.encode password)) max_bytes) h) in
          (t, refl, l, o.0 (sym (verify_password-within b password t l) ∙ h))),
      (λ h.
          let (x, e, l, c) = h in
          verify_password-within b password t l
          ∙ o.1 (
              subst (λ z. b.checkpw (Utf8.encode password) (checked_against b z) ≡ some true)
                (sym (some-inj e)) c)),
    )

-- A password that is valid for an account can be stored: whatever `validate_user_password` or
-- `validate_admin_password` accepts, `hash_password` hashes without an error.
pub validate-hash_password :
    (b : Bcrypt) (password : String) (minimum : ℕ)
    → validate password minimum ≡ ok tt
    → hash_password b password ≡ ok (b.hashpw (Utf8.encode password))
unfolding validate hash_password
validate-hash_password b password minimum h =
    let over = Bool-cases (ltb max_bytes (length (Utf8.encode password))) in ground (arith, h)
