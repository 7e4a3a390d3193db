-- ===== src/Base/Texts.antt =====
-- Python's `str`: what the source uses of it. Texts are native strings, read character by character.
use Prim.Native.Nat.{ℕ, zero, suc, ◌≤◌}
use Prim.Native.Char.{Char, code}
use Prim.Native.String.{String}
use mathlib.Core.Path.{◌≡◌, refl}
use mathlib.Core.Logic.{inl, inr}
use mathlib.Core.Bool.{Bool, true, false, not}
use mathlib.Core.Option.{Option, none, some}
use mathlib.Core.List.{List, [], ◌∷◌}
use native.Mathlib.Omega.{arith}
use text.Mathlib.Text.{◌==◌ as str_eq}
use naco.Base.Tests.{if◌then◌else◌, Bool-cases}

-- What depends on Python's tables of the characters, `str.lower`, `str.casefold` and `str.isspace`, and
-- `fnmatch.fnmatchcase` on a text and a pattern.
pub record Unicode : Type 0 where
  pub lower : String → String
  pub casefold : String → String
  pub is_space : Char → Bool
  pub fnmatchcase : String → String → Bool

abbrev pub codes : String → List ℕ
codes String.[] = []
codes (String.◌∷◌ c s) = code c ∷ codes s

-- `len(s)`
abbrev pub text_length : String → ℕ
text_length String.[] = 0
text_length (String.◌∷◌ c s) = suc (text_length s)

-- `s[:n]`
abbrev pub clip : ℕ → String → String
clip zero s = String.[]
clip (suc n) String.[] = String.[]
clip (suc n) (String.◌∷◌ c s) = String.◌∷◌ c (clip n s)

-- `s == ""`, so `not s`
abbrev pub is_empty : String → Bool
is_empty String.[] = true
is_empty (String.◌∷◌ c s) = false

-- `s or d`
abbrev pub text_or : String → String → String
text_or String.[] d = d
text_or (String.◌∷◌ c s) d = String.◌∷◌ c s

-- `s or None`
abbrev pub or_none : String → Option String
or_none String.[] = none
or_none (String.◌∷◌ c s) = some (String.◌∷◌ c s)

-- `s or ""`
abbrev pub or_empty : Option String → String
or_empty none = String.[]
or_empty (some s) = s

-- `s in xs`
abbrev pub mem_text : String → List String → Bool
mem_text s [] = false
mem_text s (x ∷ xs) = if str_eq s x then true else mem_text s xs

pub text_length-clip : (n : ℕ) (s : String) → text_length (clip n s) ≤ n
text_length-clip zero s = omega arith
text_length-clip (suc n) String.[] = omega arith
text_length-clip (suc n) (String.◌∷◌ c s) = omega (arith, text_length-clip n s)

module _ (u : Unicode) where
  pub lstrip : String → String
  lstrip String.[] = String.[]
  lstrip (String.◌∷◌ c s) = let rest = lstrip s in if u.is_space c then rest else String.◌∷◌ c s

  abbrev pub rstrip_cons : Char → String → String
  rstrip_cons c String.[] = if u.is_space c then String.[] else String.◌∷◌ c String.[]
  rstrip_cons c (String.◌∷◌ d s) = String.◌∷◌ c (String.◌∷◌ d s)

  pub rstrip : String → String
  rstrip String.[] = String.[]
  rstrip (String.◌∷◌ c s) = rstrip_cons c (rstrip s)

  unfoldable pub strip : String → String
  unfolding lstrip rstrip
  strip s = rstrip (lstrip s)

  -- Neither end of a text in this form is white space.
  starts_solid : String → Bool
  starts_solid String.[] = true
  starts_solid (String.◌∷◌ c s) = not (u.is_space c)

  lstrip_solid : (s : String) → starts_solid s ≡ true → lstrip s ≡ s
  unfolding lstrip starts_solid
  lstrip_solid String.[] h = refl
  lstrip_solid (String.◌∷◌ c s) h = ground arith

  starts_solid-lstrip : (s : String) → starts_solid (lstrip s) ≡ true
  unfolding lstrip starts_solid
  starts_solid-lstrip String.[] = refl
  starts_solid-lstrip (String.◌∷◌ c s) = ground (arith, starts_solid-lstrip s)

  starts_solid-rstrip : (s : String) → starts_solid s ≡ true → starts_solid (rstrip s) ≡ true
  unfolding rstrip starts_solid
  starts_solid-rstrip String.[] h = refl
  starts_solid-rstrip (String.◌∷◌ c s) h = cons_solid (rstrip s)
    where
      cons_solid : (r : String) → starts_solid (rstrip_cons c r) ≡ true
      cons_solid String.[] = ground arith
      cons_solid (String.◌∷◌ d r) = h

  rstrip-rstrip : (s : String) → rstrip (rstrip s) ≡ rstrip s
  unfolding rstrip
  rstrip-rstrip String.[] = refl
  rstrip-rstrip (String.◌∷◌ c s) = cons_twice (rstrip s) (rstrip-rstrip s)
    where
      cons_twice : (r : String) → rstrip r ≡ r → rstrip (rstrip_cons c r) ≡ rstrip_cons c r
      cons_twice String.[] e = elim (Bool-cases (u.is_space c)) [
        | inl space ↦ rw space
        | inr solid ↦ rw (solid, rstrip) (rw solid)
      ]
      cons_twice (String.◌∷◌ d r) e = rw e

  -- Stripping twice is stripping once.
  pub strip-strip : (s : String) → strip (strip s) ≡ strip s
  unfolding strip
  strip-strip s =
      rw (lstrip_solid (rstrip (lstrip s)) (starts_solid-rstrip (lstrip s) (starts_solid-lstrip s)))
        (rstrip-rstrip (lstrip s))
