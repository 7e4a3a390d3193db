-- ===== src/Base/Results.antt =====
-- What may raise returns a result.
use mathlib.Core.Path.{◌≡◌, refl, ap}
use mathlib.Core.Logic.{◌⊎◌, inl, inr}
use mathlib.Core.Bool.{Bool, true, false, true≢false}
use native.Mathlib.Omega.{arith}
use naco.Base.Tests.{if◌then◌else◌}

pub data Result {ℓ} (E : Type 0) (A : Type ℓ) : Type ℓ where
  ok : A → Result E A
  err : E → Result E A

infixl 5 ◌>>=◌ ◌>>◌
abbrev pub ◌>>=◌ {ℓ κ} :
    {E : Type 0} {A : Type ℓ} {B : Type κ} → Result E A → (A → Result E B) → Result E B
ok a >>= f = f a
err e >>= f = err e

abbrev pub ◌>>◌ {ℓ} : {E : Type 0} {B : Type ℓ} → Result E (Unit {0}) → Result E B → Result E B
m >> k = m >>= λ _. k

-- `if bad: raise e`
abbrev pub raise_if : {E : Type 0} → Bool → E → Result E (Unit {0})
raise_if true e = err e
raise_if false e = ok tt

pub Result-cases {ℓ} :
    {E : Type 0} {A : Type ℓ} (r : Result E A) → ((a : A) × (r ≡ ok a)) ⊎ ((e : E) × (r ≡ err e))
Result-cases (ok a) = inl (a, refl)
Result-cases (err e) = inr (e, refl)

pub ok-inj {ℓ} : {E : Type 0} {A : Type ℓ} {a b : A} → ◌≡◌ {A = Result E A} (ok a) (ok b) → a ≡ b
ok-inj {E} {A} {a} {b} h =
    ap (λ (r : Result E A). elim r [ ok x ↦ x | err e ↦ a ]) {x = ok a} {y = ok b} h

pub bind-ok {ℓ κ} :
    {E : Type 0} {A : Type ℓ} {B : Type κ} (r : Result E A) (f : A → Result E B) (b : B)
    → (r >>= f) ≡ ok b
    → (a : A) × (r ≡ ok a) × (f a ≡ ok b)
bind-ok (ok a) f b h = (a, refl, h)
bind-ok (err e) f b h = ground arith

pub err_not_ok {ℓ} :
    {E : Type 0} {A : Type ℓ} {e : E} {a : A} → ¬ (◌≡◌ {A = Result E A} (err e) (ok a))
err_not_ok {E} {A} {e} {a} h =
    true≢false
      (ap (λ (r : Result E A). elim r [ ok x ↦ false | err x ↦ true ]) {x = err e} {y = ok a} h)

-- an early `raise`, or what comes after it
pub unless_err {ℓ κ} :
    {E : Type 0} {S : Type ℓ} {A : Type κ} (b : Bool) (s : S) (e : E) (r : S × Result E A) (a : A)
    → (if b then (s, err e) else r).1 ≡ ok a
    → (b ≡ false) × (r.1 ≡ ok a)
unless_err true s e r a h = absurd (err_not_ok h)
unless_err false s e r a h = (refl, h)

pub raise-ok :
    {E : Type 0} (b : Bool) (e : E) (k : Result E (Unit {0}))
    → (raise_if b e >> k) ≡ ok tt
    → (b ≡ false) × (k ≡ ok tt)
raise-ok true e k h = absurd (err_not_ok h)
raise-ok false e k h = (refl, h)

pub raised-ok : {E : Type 0} (b : Bool) (e : E) → raise_if b e ≡ ok tt → b ≡ false
raised-ok true e h = absurd (err_not_ok h)
raised-ok false e h = refl
