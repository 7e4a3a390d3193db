-- ===== src/Netutils.antt =====
-- naco/core/netutils.py: MAC addresses.
pub mod Addresses
pub mod Forms
pub mod Vendors
use Prim.Native.Char.{code}
use mathlib.Core.Option
use naco.Base.Utf8.{to_char}
use naco.Base.{
  Bool, List, Option, String, Unicode, [], any_of, codes, false, if◌then◌else◌, is_empty, leb, none,
  some, strip, suc, true, zero, ℕ, ◌%◌, ◌&&◌, ◌+◌, ◌-◌, ◌/◌, ◌==◌, ◌||◌, ◌∷◌,
}

unfoldable pub is_hex : ℕ → Bool
is_hex c = (leb b'0' c && leb c b'9') || (leb b'a' c && leb c b'f') || (leb b'A' c && leb c b'F')

-- the digit of `[0-9a-fA-F]` that `str.lower` gives
pub hex_lower : ℕ → ℕ
hex_lower c = if leb b'A' c && leb c b'F' then c + 32 else c

-- `n` hex digits, then the separator and the next group, `more` times, to the end of the text
pub grouped : ℕ → ℕ → ℕ → ℕ → List ℕ → Bool
grouped size sep zero more s = false
grouped size sep (suc n) more [] = false
grouped size sep (suc zero) zero (c ∷ []) = is_hex c
grouped size sep (suc zero) zero (c ∷ d ∷ s) = false
grouped size sep (suc zero) (suc more) (c ∷ []) = false
grouped size sep (suc zero) (suc more) (c ∷ d ∷ s) =
    is_hex c && (d == sep && grouped size sep size more s)
grouped size sep (suc (suc n)) more (c ∷ s) = is_hex c && grouped size sep (suc n) more s

-- `_MAC`: for each separator groups of 2, 4 or 6, or twelve digits
pub is_mac : List ℕ → Bool
unfolding grouped
is_mac s =
    any_of (λ sep. grouped 2 sep 2 5 s || grouped 4 sep 4 2 s || grouped 6 sep 6 1 s)
      (b':' ∷ b'-' ∷ b'.' ∷ b' ' ∷ [])
    || grouped 12 0 12 0 s

-- `re.sub(r"[^0-9a-fA-F]", "", value).lower()`
pub hex_digits : List ℕ → List ℕ
hex_digits [] = []
hex_digits (c ∷ s) = let rest = hex_digits s in if is_hex c then hex_lower c ∷ rest else rest

-- `":".join(raw[i:i + 2] for i in range(0, 12, 2))`
pub colons : List ℕ → List ℕ
colons (a ∷ b ∷ c ∷ s) = a ∷ b ∷ b':' ∷ colons (c ∷ s)
colons s = s

-- `normalize_mac` on a value whose surrounding white space is gone
pub normalize : List ℕ → Option (List ℕ)
unfolding is_mac hex_digits colons
normalize s = if is_mac s then some (colons (hex_digits s)) else none

unfoldable pub text_of : List ℕ → String
text_of [] = String.[]
text_of (c ∷ s) = String.◌∷◌ (to_char c) (text_of s)

-- `normalize_mac`
unfoldable pub normalize_mac : Unicode → Option String → Option String
unfolding normalize text_of
normalize_mac u none = none
normalize_mac u (some value) = elim (is_empty value) [
  | true ↦ none
  | false ↦ Option.map text_of (normalize (codes (strip u value)))
]

-- `is_randomized_mac`: `int(norm[1], 16) & 0x2`
pub hex_value : ℕ → ℕ
hex_value c = if leb c b'9' then c - b'0' else c - b'a' + 10

pub is_randomized_mac : Unicode → String → Bool
unfolding normalize_mac hex_value
is_randomized_mac u mac = elim (normalize_mac u (some mac)) [
  | some (String.◌∷◌ a (String.◌∷◌ b s)) ↦ hex_value (code b) / 2 % 2 == 1
  | _ ↦ false
]
