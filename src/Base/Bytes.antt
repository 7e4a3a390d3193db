-- ===== src/Base/Bytes.antt =====
-- Bytes in network order: `struct.pack`, `struct.unpack`, `int.from_bytes`, `int.to_bytes`.
use Prim.Native.Nat.{ℕ, zero, suc, ◌+◌, ◌*◌, ◌/◌, ◌%◌, ◌^◌, ◌<◌}
use mathlib.Core.Path.{◌≡◌, refl, ap, ap₂, subst, ◌∙◌}
use mathlib.Core.List.{List, [], ◌∷◌, ◌++◌, append-nil}
use native.Mathlib.Omega.{arith}
use native.Mathlib.Nat.{pow-suc}
use naco.Base.Lists.{All, length}

abbrev pub AreBytes : List ℕ → Type 0
AreBytes = All (λ b. b < 256)

pub from_bytes_on : ℕ → List ℕ → ℕ
from_bytes_on acc [] = acc
from_bytes_on acc (b ∷ bs) = from_bytes_on (acc * 256 + b) bs

-- `int.from_bytes(bs, "big")`
unfoldable pub from_bytes : List ℕ → ℕ
unfolding from_bytes_on
from_bytes = from_bytes_on 0

to_bytes_before : ℕ → ℕ → List ℕ → List ℕ
to_bytes_before zero n rest = rest
to_bytes_before (suc k) n rest = to_bytes_before k (n / 256) ((n % 256) ∷ rest)

-- `n.to_bytes(k, "big")`, for `n` below `256 ^ k`
unfoldable pub to_bytes : ℕ → ℕ → List ℕ
unfolding to_bytes_before
to_bytes k n = to_bytes_before k n []

from_bytes_on-to_bytes_before :
    (k n : ℕ) (rest : List ℕ)
    → n < 256 ^ k
    → from_bytes_on 0 (to_bytes_before k n rest) ≡ from_bytes_on n rest
unfolding to_bytes_before from_bytes_on
from_bytes_on-to_bytes_before zero n rest h = ap (λ (m : ℕ). from_bytes_on m rest) (omega arith)
from_bytes_on-to_bytes_before (suc k) n rest h =
    from_bytes_on-to_bytes_before k (n / 256) ((n % 256) ∷ rest) (omega (arith, pow-suc 256 k))
    ∙ ap (λ (m : ℕ). from_bytes_on m rest) (omega arith)

pub from_bytes-to_bytes : (k n : ℕ) → n < 256 ^ k → from_bytes (to_bytes k n) ≡ n
unfolding from_bytes to_bytes
from_bytes-to_bytes k n h = from_bytes_on-to_bytes_before k n [] h

to_bytes_before-from_bytes_on :
    (bs rest : List ℕ) (acc k : ℕ)
    → AreBytes bs
    → to_bytes_before (length bs + k) (from_bytes_on acc bs) rest
      ≡ to_bytes_before k acc (bs ++ rest)
unfolding from_bytes_on to_bytes_before
to_bytes_before-from_bytes_on [] rest acc k h =
    ap (λ (m : ℕ). to_bytes_before m acc rest) {x = 0 + k} {y = k} (omega arith)
to_bytes_before-from_bytes_on (b ∷ bs) rest acc k h =
    subst
      (λ (m : ℕ).
        to_bytes_before m (from_bytes_on (acc * 256 + b) bs) rest
        ≡ to_bytes_before k acc (b ∷ (bs ++ rest)))
      {x = length bs + suc k} {y = suc (length bs) + k} (omega arith)
      (to_bytes_before-from_bytes_on bs rest (acc * 256 + b) (suc k) h.1
        ∙ ap₂ (λ (m d : ℕ). to_bytes_before k m (d ∷ (bs ++ rest))) {x = (acc * 256 + b) / 256}
            {y = acc} {u = (acc * 256 + b) % 256} {v = b} (omega (arith, h.0)) (omega (arith, h.0)))

pub to_bytes-from_bytes : (bs : List ℕ) → AreBytes bs → to_bytes (length bs) (from_bytes bs) ≡ bs
unfolding from_bytes to_bytes
to_bytes-from_bytes bs h =
    ap (λ (m : ℕ). to_bytes_before m (from_bytes_on 0 bs) []) {x = length bs} {y = length bs + 0}
      (omega arith)
    ∙ to_bytes_before-from_bytes_on bs [] 0 0 h
    ∙ append-nil bs

length-to_bytes_before :
    (k n : ℕ) (rest : List ℕ) → length (to_bytes_before k n rest) ≡ k + length rest
unfolding to_bytes_before
length-to_bytes_before zero n rest = omega arith
length-to_bytes_before (suc k) n rest =
    omega (arith, length-to_bytes_before k (n / 256) ((n % 256) ∷ rest))

pub length-to_bytes : (k n : ℕ) → length (to_bytes k n) ≡ k
unfolding to_bytes
length-to_bytes k n = omega (arith, length-to_bytes_before k n [])

to_bytes_before-bytes :
    (k n : ℕ) (rest : List ℕ) → AreBytes rest → AreBytes (to_bytes_before k n rest)
unfolding to_bytes_before
to_bytes_before-bytes zero n rest h = h
to_bytes_before-bytes (suc k) n rest h =
    to_bytes_before-bytes k (n / 256) ((n % 256) ∷ rest) (omega arith, h)

pub to_bytes-AreBytes : (k n : ℕ) → AreBytes (to_bytes k n)
unfolding to_bytes
to_bytes-AreBytes k n = to_bytes_before-bytes k n [] tt

from_bytes_on-lt :
    (acc k : ℕ) (bs : List ℕ)
    → AreBytes bs
    → acc < 256 ^ k
    → from_bytes_on acc bs < 256 ^ (length bs + k)
unfolding from_bytes_on
from_bytes_on-lt acc k [] h lt =
    subst (λ (m : ℕ). acc < 256 ^ m) {x = k} {y = 0 + k} (omega arith) lt
from_bytes_on-lt acc k (b ∷ bs) h lt =
    subst (λ (m : ℕ). from_bytes_on (acc * 256 + b) bs < 256 ^ m) {x = length bs + suc k}
      {y = suc (length bs) + k} (omega arith)
      (from_bytes_on-lt (acc * 256 + b) (suc k) bs h.1 (omega (arith, h.0, pow-suc 256 k)))

pub from_bytes-lt : (bs : List ℕ) → AreBytes bs → from_bytes bs < 256 ^ length bs
unfolding from_bytes
from_bytes-lt bs h =
    subst (λ (m : ℕ). from_bytes_on 0 bs < 256 ^ m) {x = length bs + 0} {y = length bs}
      (omega arith) (from_bytes_on-lt 0 0 bs h (omega arith))

-- the four bytes of `struct.pack("!I", n)`
abbrev pub four_bytes : ℕ → List ℕ
four_bytes n =
    (n / 256 / 256 / 256 % 256) ∷ (n / 256 / 256 % 256) ∷ (n / 256 % 256) ∷ (n % 256) ∷ []

pub to_bytes_four : (n : ℕ) → to_bytes 4 n ≡ four_bytes n
unfolding to_bytes
to_bytes_four n = refl

pub from_bytes_four : (n : ℕ) → n < 2 ^ 32 → from_bytes (four_bytes n) ≡ n
from_bytes_four n h =
    subst (λ (bs : List ℕ). from_bytes bs ≡ n) (to_bytes_four n) (from_bytes-to_bytes 4 n h)

pub to_bytes_none : (n : ℕ) → to_bytes 0 n ≡ []
unfolding to_bytes
to_bytes_none n = refl
