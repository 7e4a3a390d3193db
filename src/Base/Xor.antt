-- ===== src/Base/Xor.antt =====
-- Exclusive or at every width: it undoes itself, and it makes no number longer.
use Prim.Native.Nat.{
  ℕ, zero, suc, ◌+◌, ◌*◌, ◌/◌, ◌%◌, ◌^◌, ◌≤◌, ◌<◌, bit_xor, digits, differ, bit_xor-bitwise,
}
use mathlib.Core.Path.{◌≡◌, refl, ap}
use native.Mathlib.Omega.{arith}
use native.Mathlib.Nat.{pow-suc}

-- the digits do not depend on the count of digits to go
digits_count :
    (n m a b : ℕ) → a ≤ n → a ≤ m → digits (λ b. b) differ n a b ≡ digits (λ b. b) differ m a b
digits_count zero zero a b p q = refl
digits_count zero (suc m) zero b p q = refl
digits_count zero (suc m) (suc a) b p q = absurd (omega arith)
digits_count (suc n) zero zero b p q = refl
digits_count (suc n) zero (suc a) b p q = absurd (omega arith)
digits_count (suc n) (suc m) zero b p q = refl
digits_count (suc n) (suc m) (suc a) b p q =
    rw (digits_count n m (suc a / 2) (b / 2) (omega arith) (omega arith))

zero-bit_xor : (b : ℕ) → bit_xor 0 b ≡ b
zero-bit_xor b = bit_xor-bitwise 0 b

abbrev xor_digit : ℕ → ℕ → ℕ
xor_digit x y = (x + y) % 2

differ_lem : (x y : ℕ) → x < 2 → y < 2 → differ x y ≡ xor_digit x y
differ_lem zero y h k = omega arith
differ_lem (suc zero) zero h k = refl
differ_lem (suc zero) (suc zero) h k = refl
differ_lem (suc zero) (suc (suc y)) h k = absurd (omega arith)
differ_lem (suc (suc x)) y h k = absurd (omega arith)

xor_step : (a b : ℕ) → bit_xor a b ≡ bit_xor (a / 2) (b / 2) * 2 + xor_digit (a % 2) (b % 2)
xor_step zero b = omega (arith, zero-bit_xor b, zero-bit_xor (b / 2))
xor_step (suc a) b = omega (
  arith,
  bit_xor-bitwise (suc a) b,
  bit_xor-bitwise (suc a / 2) (b / 2),
  digits_count a (suc a / 2) (suc a / 2) (b / 2) (omega arith) (omega arith),
  differ_lem (suc a % 2) (b % 2) (omega arith) (omega arith),
)

-- Below a power of two the result stays below it.
pub bit_xor-lt : (k a b : ℕ) → a < 2 ^ k → b < 2 ^ k → bit_xor a b < 2 ^ k
bit_xor-lt zero a b h l = let e : a ≡ 0 = omega arith in rw (e, zero-bit_xor b) l
bit_xor-lt (suc k) a b h l = omega (
  arith,
  xor_step a b,
  pow-suc 2 k,
  bit_xor-lt k (a / 2) (b / 2) (omega (arith, pow-suc 2 k)) (omega (arith, pow-suc 2 k)),
)

pub bit_xor_cancel : (k a b : ℕ) → a < 2 ^ k → b < 2 ^ k → bit_xor (bit_xor a b) b ≡ a
bit_xor_cancel zero a b h l =
    let e : a ≡ 0 = omega arith in let d : b ≡ 0 = omega arith in rw (e, d)
bit_xor_cancel (suc k) a b h l =
    let half : bit_xor a b / 2 ≡ bit_xor (a / 2) (b / 2) = omega (arith, xor_step a b) in
    omega (
      arith,
      xor_step (bit_xor a b) b,
      ap (λ (x : ℕ). bit_xor x (b / 2)) half,
      xor_step a b,
      bit_xor_cancel k (a / 2) (b / 2) (omega (arith, pow-suc 2 k)) (omega (arith, pow-suc 2 k)),
    )

two_pow_eight : (m : ℕ) → 2 ^ suc (suc (suc (suc (suc (suc (suc (suc m))))))) ≡ 256 * 2 ^ m
two_pow_eight m = omega (
  arith,
  pow-suc 2 m,
  pow-suc 2 (suc m),
  pow-suc 2 (suc (suc m)),
  pow-suc 2 (suc (suc (suc m))),
  pow-suc 2 (suc (suc (suc (suc m)))),
  pow-suc 2 (suc (suc (suc (suc (suc m))))),
  pow-suc 2 (suc (suc (suc (suc (suc (suc m)))))),
  pow-suc 2 (suc (suc (suc (suc (suc (suc (suc m))))))),
)

byte_pow : (k : ℕ) → (m : ℕ) × (256 ^ k ≡ 2 ^ m)
byte_pow zero = (0, refl)
byte_pow (suc k) =
    let (m, e) = byte_pow k in
    (
      suc (suc (suc (suc (suc (suc (suc (suc m))))))),
      omega (arith, pow-suc 256 k, e, two_pow_eight m),
    )

-- The same for numbers of so many bytes.
pub bit_xor-lt_bytes : (k a b : ℕ) → a < 256 ^ k → b < 256 ^ k → bit_xor a b < 256 ^ k
bit_xor-lt_bytes k a b h l =
    let (m, e) = byte_pow k in rw e (bit_xor-lt m a b (rw e at h) (rw e at l))

pub bit_xor_cancel_bytes : (k a b : ℕ) → a < 256 ^ k → b < 256 ^ k → bit_xor (bit_xor a b) b ≡ a
bit_xor_cancel_bytes k a b h l =
    let (m, e) = byte_pow k in bit_xor_cancel m a b (rw e at h) (rw e at l)
