-- ===== src/Netutils/Forms.antt =====
-- Every notation of the same twelve digits is normalized to the same address.
use naco.Base.{Bool, List, [], arith, false, refl, some, true, ℕ, ◌||◌, ◌∷◌, ◌≡◌}
use naco.Netutils.{colons, grouped, hex_digits, hex_lower, is_hex, is_mac, normalize}

pub data Separator : Type 0 where
  colon dash dot space : Separator

abbrev pub sign : Separator → ℕ
sign colon = b':'
sign dash = b'-'
sign dot = b'.'
sign space = b' '

-- The notations: pairs, fours and sixes with a separator, or no separator.
pub data Notation : Type 0 where
  pairs fours sixes : Separator → Notation
  bare : Notation

pub record Digits : Type 0 where
  pub d0 : ℕ
  pub d1 : ℕ
  pub d2 : ℕ
  pub d3 : ℕ
  pub d4 : ℕ
  pub d5 : ℕ
  pub d6 : ℕ
  pub d7 : ℕ
  pub d8 : ℕ
  pub d9 : ℕ
  pub d10 : ℕ
  pub d11 : ℕ

pub record AreHex (m : Digits) : Type 0 where
  pub h0 : is_hex m.d0 ≡ true
  pub h1 : is_hex m.d1 ≡ true
  pub h2 : is_hex m.d2 ≡ true
  pub h3 : is_hex m.d3 ≡ true
  pub h4 : is_hex m.d4 ≡ true
  pub h5 : is_hex m.d5 ≡ true
  pub h6 : is_hex m.d6 ≡ true
  pub h7 : is_hex m.d7 ≡ true
  pub h8 : is_hex m.d8 ≡ true
  pub h9 : is_hex m.d9 ≡ true
  pub h10 : is_hex m.d10 ≡ true
  pub h11 : is_hex m.d11 ≡ true

-- the digits in a notation
abbrev pub written : Notation → Digits → List ℕ
written (pairs s) m =
    m.d0
    ∷ m.d1
    ∷ sign s
    ∷ m.d2
    ∷ m.d3
    ∷ sign s
    ∷ m.d4
    ∷ m.d5
    ∷ sign s
    ∷ m.d6
    ∷ m.d7
    ∷ sign s
    ∷ m.d8
    ∷ m.d9
    ∷ sign s
    ∷ m.d10
    ∷ m.d11
    ∷ []
written (fours s) m =
    m.d0
    ∷ m.d1
    ∷ m.d2
    ∷ m.d3
    ∷ sign s
    ∷ m.d4
    ∷ m.d5
    ∷ m.d6
    ∷ m.d7
    ∷ sign s
    ∷ m.d8
    ∷ m.d9
    ∷ m.d10
    ∷ m.d11
    ∷ []
written (sixes s) m =
    m.d0
    ∷ m.d1
    ∷ m.d2
    ∷ m.d3
    ∷ m.d4
    ∷ m.d5
    ∷ sign s
    ∷ m.d6
    ∷ m.d7
    ∷ m.d8
    ∷ m.d9
    ∷ m.d10
    ∷ m.d11
    ∷ []
written bare m =
    m.d0 ∷ m.d1 ∷ m.d2 ∷ m.d3 ∷ m.d4 ∷ m.d5 ∷ m.d6 ∷ m.d7 ∷ m.d8 ∷ m.d9 ∷ m.d10 ∷ m.d11 ∷ []

abbrev pub lowered : Digits → Digits
lowered m = record {
  d0 = hex_lower m.d0;
  d1 = hex_lower m.d1;
  d2 = hex_lower m.d2;
  d3 = hex_lower m.d3;
  d4 = hex_lower m.d4;
  d5 = hex_lower m.d5;
  d6 = hex_lower m.d6;
  d7 = hex_lower m.d7;
  d8 = hex_lower m.d8;
  d9 = hex_lower m.d9;
  d10 = hex_lower m.d10;
  d11 = hex_lower m.d11;
}

or_true : (b : Bool) → (b || true) ≡ true
or_true b = ground arith

sign_not_hex : (s : Separator) → is_hex (sign s) ≡ false
unfolding is_hex
sign_not_hex colon = refl
sign_not_hex dash = refl
sign_not_hex dot = refl
sign_not_hex space = refl

hex_digits-hex :
    (c : ℕ) (s : List ℕ) → is_hex c ≡ true → hex_digits (c ∷ s) ≡ hex_lower c ∷ hex_digits s
unfolding hex_digits
hex_digits-hex c s h = rw h

hex_digits-sign : (x : Separator) (s : List ℕ) → hex_digits (sign x ∷ s) ≡ hex_digits s
unfolding hex_digits
hex_digits-sign x s = rw (sign_not_hex x)

digits_end : hex_digits [] ≡ []
unfolding hex_digits
digits_end = refl

module _ (m : Digits) (h : AreHex m) where
  is_mac-written : (n : Notation) → is_mac (written n m) ≡ true
  unfolding is_mac grouped
  is_mac-written (pairs colon) =
      simp (h.h0, h.h1, h.h2, h.h3, h.h4, h.h5, h.h6, h.h7, h.h8, h.h9, h.h10, h.h11)
  is_mac-written (fours colon) =
      simp (or_true, h.h0, h.h1, h.h2, h.h3, h.h4, h.h5, h.h6, h.h7, h.h8, h.h9, h.h10, h.h11)
  is_mac-written (sixes colon) =
      simp (or_true, h.h0, h.h1, h.h2, h.h3, h.h4, h.h5, h.h6, h.h7, h.h8, h.h9, h.h10, h.h11)
  is_mac-written _ =
      simp (or_true, h.h0, h.h1, h.h2, h.h3, h.h4, h.h5, h.h6, h.h7, h.h8, h.h9, h.h10, h.h11)

  digits-written : (n : Notation) → hex_digits (written n m) ≡ written bare (lowered m)
  digits-written (pairs x) = simp (
    λ (s : List ℕ). hex_digits-hex m.d0 s h.h0,
    λ (s : List ℕ). hex_digits-hex m.d1 s h.h1,
    λ (s : List ℕ). hex_digits-hex m.d2 s h.h2,
    λ (s : List ℕ). hex_digits-hex m.d3 s h.h3,
    λ (s : List ℕ). hex_digits-hex m.d4 s h.h4,
    λ (s : List ℕ). hex_digits-hex m.d5 s h.h5,
    λ (s : List ℕ). hex_digits-hex m.d6 s h.h6,
    λ (s : List ℕ). hex_digits-hex m.d7 s h.h7,
    λ (s : List ℕ). hex_digits-hex m.d8 s h.h8,
    λ (s : List ℕ). hex_digits-hex m.d9 s h.h9,
    λ (s : List ℕ). hex_digits-hex m.d10 s h.h10,
    λ (s : List ℕ). hex_digits-hex m.d11 s h.h11,
    hex_digits-sign,
    digits_end,
  )
  digits-written _ = simp (
    λ (s : List ℕ). hex_digits-hex m.d0 s h.h0,
    λ (s : List ℕ). hex_digits-hex m.d1 s h.h1,
    λ (s : List ℕ). hex_digits-hex m.d2 s h.h2,
    λ (s : List ℕ). hex_digits-hex m.d3 s h.h3,
    λ (s : List ℕ). hex_digits-hex m.d4 s h.h4,
    λ (s : List ℕ). hex_digits-hex m.d5 s h.h5,
    λ (s : List ℕ). hex_digits-hex m.d6 s h.h6,
    λ (s : List ℕ). hex_digits-hex m.d7 s h.h7,
    λ (s : List ℕ). hex_digits-hex m.d8 s h.h8,
    λ (s : List ℕ). hex_digits-hex m.d9 s h.h9,
    λ (s : List ℕ). hex_digits-hex m.d10 s h.h10,
    λ (s : List ℕ). hex_digits-hex m.d11 s h.h11,
    hex_digits-sign,
    digits_end,
  )

  -- Each of the thirteen notations of a MAC address is accepted, and all give one text: lower-case
  -- pairs with colons.
  pub normalize-written :
      (n : Notation) → normalize (written n m) ≡ some (written (pairs colon) (lowered m))
  unfolding normalize colons
  normalize-written n = rw (is_mac-written n, digits-written n)
