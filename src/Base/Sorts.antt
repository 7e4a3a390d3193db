-- ===== src/Base/Sorts.antt =====
-- Sorting by insertion, for `ORDER BY` and `sorted`, and what a predicate on all elements keeps.
use mathlib.Core.Path.{◌≡◌, refl, subst, sym, ◌∙◌}
use mathlib.Core.Logic.{inl, inr}
use mathlib.Core.Bool.{Bool, true, false, true≢false}
use mathlib.Core.List.{List, [], ◌∷◌, Memᴰ}
use naco.Base.Tests.{if◌then◌else◌, Bool-cases}
use naco.Base.Lists.{All, keep}

module _ {ℓ} {A : Type ℓ} where
  -- `before x y`: `x` may stand before `y`
  abbrev pub insert_by : (A → A → Bool) → A → List A → List A
  insert_by before x [] = x ∷ []
  insert_by before x (y ∷ ys) =
      let rest = insert_by before x ys in if before x y then x ∷ y ∷ ys else y ∷ rest

  abbrev pub sort_by : (A → A → Bool) → List A → List A
  sort_by before [] = []
  sort_by before (x ∷ xs) = insert_by before x (sort_by before xs)

  abbrev pub IsSortedBy : (A → A → Bool) → List A → Type ℓ
  IsSortedBy before [] = Unit
  IsSortedBy before (x ∷ xs) = All (λ y. before x y ≡ true) xs × IsSortedBy before xs

  pub All-weaken {κ ν} :
      (P : A → Type κ) (Q : A → Type ν)
      → ((x : A) → P x → Q x)
      → (xs : List A) → All P xs
      → All Q xs
  All-weaken P Q f [] a = tt
  All-weaken P Q f (x ∷ xs) a = (f x a.0, All-weaken P Q f xs a.1)

  pub All-mem : (xs : List A) → All (λ x. Memᴰ x xs) xs
  All-mem [] = tt
  All-mem (x ∷ xs) = (
    Memᴰ.head refl,
    All-weaken (λ y. Memᴰ y xs) (λ y. Memᴰ y (x ∷ xs)) (λ y m. Memᴰ.tail m) xs (All-mem xs),
  )

  pub All-keep {κ} :
      (P : A → Type κ) (p : A → Bool) (xs : List A)
      → All P xs
      → All (λ x. P x × (p x ≡ true)) (keep p xs)
  All-keep P p [] a = tt
  All-keep P p (x ∷ xs) a = elim (Bool-cases (p x)) [
    | inl e ↦
        subst (λ b. All (λ y. P y × (p y ≡ true)) (if b then x ∷ keep p xs else keep p xs)) (sym e)
          ((a.0, e), All-keep P p xs a.1)
    | inr e ↦
        subst (λ b. All (λ y. P y × (p y ≡ true)) (if b then x ∷ keep p xs else keep p xs)) (sym e)
          (All-keep P p xs a.1)
  ]

  pub All-unkeep {κ} :
      (P : A → Type κ) (p : A → Bool) (xs : List A)
      → All P (keep p xs)
      → All (λ x. p x ≡ true → P x) xs
  All-unkeep P p [] a = tt
  All-unkeep P p (x ∷ xs) a = elim (Bool-cases (p x)) [
    | inl e ↦
        let m = subst (λ b. All P (if b then x ∷ keep p xs else keep p xs)) e a in
        (λ h. m.0, All-unkeep P p xs m.1)
    | inr e ↦
        let m = subst (λ b. All P (if b then x ∷ keep p xs else keep p xs)) e a in
        (λ h. absurd (true≢false (sym h ∙ e)), All-unkeep P p xs m)
  ]

  module _ (before : A → A → Bool) where
    pub All-insert_by {κ} :
        (P : A → Type κ) (x : A) (ys : List A) → P x → All P ys → All P (insert_by before x ys)
    All-insert_by P x [] h a = (h, tt)
    All-insert_by P x (y ∷ ys) h a = elim (Bool-cases (before x y)) [
      | inl e ↦
          subst (λ b. All P (if b then x ∷ y ∷ ys else y ∷ insert_by before x ys)) (sym e) (h, a)
      | inr e ↦
          subst (λ b. All P (if b then x ∷ y ∷ ys else y ∷ insert_by before x ys)) (sym e)
            (a.0, All-insert_by P x ys h a.1)
    ]

    pub All-uninsert_by {κ} :
        (P : A → Type κ) (x : A) (ys : List A) → All P (insert_by before x ys) → P x × All P ys
    All-uninsert_by P x [] a = a
    All-uninsert_by P x (y ∷ ys) a = elim (Bool-cases (before x y)) [
      | inl e ↦ subst (λ b. All P (if b then x ∷ y ∷ ys else y ∷ insert_by before x ys)) e a
      | inr e ↦
          let m = subst (λ b. All P (if b then x ∷ y ∷ ys else y ∷ insert_by before x ys)) e a in
          let (h, t) = All-uninsert_by P x ys m.1 in (h, (m.0, t))
    ]

    pub All-sort_by {κ} : (P : A → Type κ) (xs : List A) → All P xs → All P (sort_by before xs)
    All-sort_by P [] a = tt
    All-sort_by P (x ∷ xs) a = All-insert_by P x (sort_by before xs) a.0 (All-sort_by P xs a.1)

    pub All-unsort_by {κ} : (P : A → Type κ) (xs : List A) → All P (sort_by before xs) → All P xs
    All-unsort_by P [] a = tt
    All-unsort_by P (x ∷ xs) a =
        let (h, t) = All-uninsert_by P x (sort_by before xs) a in (h, All-unsort_by P xs t)

    module _ (total : (x y : A) → before x y ≡ false → before y x ≡ true)
        (trans : (x y z : A) → before x y ≡ true → before y z ≡ true → before x z ≡ true) where
      insert_by-IsSortedBy :
          (x : A) (ys : List A) → IsSortedBy before ys → IsSortedBy before (insert_by before x ys)
      insert_by-IsSortedBy x [] s = (tt, tt)
      insert_by-IsSortedBy x (y ∷ ys) s = elim (Bool-cases (before x y)) [
        | inl e ↦
            subst (λ b. IsSortedBy before (if b then x ∷ y ∷ ys else y ∷ insert_by before x ys))
              (sym e)
              (
                (
                  e,
                  All-weaken (λ z. before y z ≡ true) (λ z. before x z ≡ true)
                      (λ z h. trans x y z e h) ys s.0,
                ),
                s,
              )
        | inr e ↦
            subst (λ b. IsSortedBy before (if b then x ∷ y ∷ ys else y ∷ insert_by before x ys))
              (sym e)
              (
                All-insert_by (λ z. before y z ≡ true) x ys (total x y e) s.0,
                insert_by-IsSortedBy x ys s.1,
              )
      ]

      pub sort_by-IsSortedBy : (xs : List A) → IsSortedBy before (sort_by before xs)
      sort_by-IsSortedBy [] = tt
      sort_by-IsSortedBy (x ∷ xs) =
          insert_by-IsSortedBy x (sort_by before xs) (sort_by-IsSortedBy xs)
