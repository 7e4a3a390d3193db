-- ===== src/Base/Members.antt =====
-- Membership of a list, split by how the list is built.
use mathlib.Core.Path.{◌≡◌, refl, ap, sym, ◌∙◌}
use mathlib.Core.Logic.{◌↔◌, ◌⊎◌, inl, inr}
use mathlib.Core.Bool.{Bool, true, false, true≢false}
use mathlib.Core.List.{List, [], ◌∷◌, Memᴰ}
use naco.Base.Tests.{if◌then◌else◌}
use naco.Base.Lists.{keep}

pub not_in_nil {ℓ} : {A : Type ℓ} {x : A} → ¬ (Memᴰ x [])
not_in_nil m = elim m [ ]

pub mem-cons {ℓ} : {A : Type ℓ} {x y : A} {xs : List A} → Memᴰ x (y ∷ xs) → (x ≡ y) ⊎ Memᴰ x xs
mem-cons (Memᴰ.head e) = inl e
mem-cons (Memᴰ.tail m) = inr m

pub listed_if {ℓ} :
    {A : Type ℓ} (b : Bool) (x y : A) (xs : List A)
    → Memᴰ x (if b then y ∷ xs else xs) ↔ (((b ≡ true) × (x ≡ y)) ⊎ Memᴰ x xs)
listed_if true x y xs = (
  (λ m. elim (mem-cons m) [ inl q ↦ inl (refl, q) | inr n ↦ inr n ]),
  (λ h. elim h [ inl q ↦ Memᴰ.head q.1 | inr n ↦ Memᴰ.tail n ]),
)
listed_if false x y xs =
    ((λ m. inr m), (λ h. elim h [ inl q ↦ absurd (true≢false (sym q.0)) | inr n ↦ n ]))

pub keep-mem {ℓ} :
    {A : Type ℓ} (p : A → Bool) (xs : List A) (x : A)
    → Memᴰ x (keep p xs) ↔ (Memᴰ x xs × (p x ≡ true))
keep-mem p [] x = ((λ m. absurd (not_in_nil m)), (λ h. absurd (not_in_nil h.0)))
keep-mem p (y ∷ xs) x =
    let listed = listed_if (p y) x y (keep p xs) in
    let ih = keep-mem p xs x in
    (
      (λ m. elim (listed.0 m) [
        | inl (c, q) ↦ (Memᴰ.head q, ap p q ∙ c)
        | inr n ↦ (Memᴰ.tail (ih.0 n).0, (ih.0 n).1)
      ]),
      (λ h. elim (mem-cons h.0) [
        | inl q ↦ listed.1 (inl (sym (ap p q) ∙ h.1, q))
        | inr n ↦ listed.1 (inr (ih.1 (n, h.1)))
      ]),
    )
