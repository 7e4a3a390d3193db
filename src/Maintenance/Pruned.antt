-- ===== src/Maintenance/Pruned.antt =====
-- `_prune` of naco/maintenance.py ends and deletes exactly the old rows.
use naco.Base.{
  Bool, Bool-cases, List, [], ap, arith, if◌then◌else◌, inl, inr, keep, length, length-keep, ltb,
  ltb→lt, not, or_else, refl, some, subst, suc, sym, zero, ℕ, ◌+◌, ◌<◌, ◌∙◌, ◌∷◌, ◌≡◌, ◌≤◌,
}
use naco.Maintenance.{chunk_size, count, delete_some, prune, prune_loop}

module _ {A : Type 0} (is_old : A → Bool) where
  -- the rows that stay
  unfoldable pub young : List A → List A
  young rows = keep (λ x. not (is_old x)) rows

  -- what one transaction leaves: the same rows that are not old, the number of old ones split, and
  -- no old one if it deletes fewer than it may
  IsDeletion : List A → ℕ → ℕ → List A × ℕ → Type 0
  IsDeletion stay old n r =
      (young r.0 ≡ stay) × (count is_old r.0 + r.1 ≡ old) × (r.1 < n → r.0 ≡ stay) × (r.1 ≤ n)

  delete_some-IsDeletion :
      (n : ℕ) (rows : List A)
      → IsDeletion (young rows) (count is_old rows) n (delete_some is_old n rows)
  unfolding delete_some IsDeletion young
  delete_some-IsDeletion zero rows =
      (refl, omega arith, λ h. absurd (omega (arith, h)), omega arith)
  delete_some-IsDeletion (suc n) [] = (refl, omega arith, (λ h. refl), omega arith)
  delete_some-IsDeletion (suc n) (x ∷ rows) =
      let d = delete_some is_old n rows in
      let k = delete_some is_old (suc n) rows in
      elim (Bool-cases (is_old x)) [
        | inl e ↦
            let (a, b, c, l) = delete_some-IsDeletion n rows in
            subst
              (λ t.
                IsDeletion (if not t then x ∷ young rows else young rows)
                  (length (if t then x ∷ keep is_old rows else keep is_old rows)) (suc n)
                  (if t then (d.0, suc d.1) else (x ∷ k.0, k.1)))
              (sym e) (a, omega (arith, b), (λ h. c (omega (arith, h))), omega (arith, l))
        | inr e ↦
            let (a, b, c, l) = delete_some-IsDeletion (suc n) rows in
            subst
              (λ t.
                IsDeletion (if not t then x ∷ young rows else young rows)
                  (length (if t then x ∷ keep is_old rows else keep is_old rows)) (suc n)
                  (if t then (d.0, suc d.1) else (x ∷ k.0, k.1)))
              (sym e)
              (
                ap (λ t. if not t then x ∷ young k.0 else young k.0) e ∙ ap (λ ys. x ∷ ys) a,
                ap (λ t. length (if t then x ∷ keep is_old k.0 else keep is_old k.0) + k.1) e ∙ b,
                (λ h. ap (λ ys. x ∷ ys) (c h)),
                l,
              )
      ]

  count-young : (rows : List A) → count is_old (young rows) ≡ 0
  unfolding young
  count-young [] = refl
  count-young (x ∷ rows) = elim (Bool-cases (is_old x)) [
    | inl e ↦
        ap (λ t. count is_old (if not t then x ∷ young rows else young rows)) e ∙ count-young rows
    | inr e ↦
        ap (λ t. count is_old (if not t then x ∷ young rows else young rows)) e
        ∙ (ap (λ t. length (if t then x ∷ keep is_old (young rows) else keep is_old (young rows))) e
            ∙ count-young rows)
  ]

  pub count-young_all : (rows : List A) → count is_old rows + length (young rows) ≡ length rows
  unfolding young
  count-young_all [] = omega arith
  count-young_all (x ∷ rows) = elim (Bool-cases (is_old x)) [
    | inl e ↦
        subst
          (λ t.
            length (if t then x ∷ keep is_old rows else keep is_old rows)
              + length (if not t then x ∷ young rows else young rows)
            ≡ suc (length rows))
          (sym e) (omega (arith, count-young_all rows))
    | inr e ↦
        subst
          (λ t.
            length (if t then x ∷ keep is_old rows else keep is_old rows)
              + length (if not t then x ∷ young rows else young rows)
            ≡ suc (length rows))
          (sym e) (omega (arith, count-young_all rows))
  ]

  prune_loop-total :
      (fuel chunk total : ℕ) (rows : List A)
      → 1 ≤ chunk
      → count is_old rows < fuel
      → prune_loop is_old fuel chunk total rows ≡ some (young rows, total + count is_old rows)
  unfolding prune_loop IsDeletion
  prune_loop-total zero chunk total rows c h = absurd (omega (arith, h))
  prune_loop-total (suc fuel) chunk total rows c h =
      let r = delete_some is_old chunk rows in
      let rest = prune_loop is_old fuel chunk (total + r.1) r.0 in
      let (a, b, d, l) = delete_some-IsDeletion chunk rows in
      elim (Bool-cases (ltb r.1 chunk)) [
        | inl e ↦
            let stay = d (ltb→lt r.1 chunk e) in
            let gone : count is_old r.0 ≡ 0 = ap (count is_old) stay ∙ count-young rows in
            let sum : total + r.1 ≡ total + count is_old rows = omega (arith, b, gone) in
            ap (λ t. if t then some (r.0, total + r.1) else rest) e ∙ (λ i. some (stay i, sum i))
        | inr e ↦
            let full : chunk ≤ r.1 = ground (arith, e) in
            let sum : total + r.1 + count is_old r.0 ≡ total + count is_old rows =
              omega (arith, b) in
            ap (λ t. if t then some (r.0, total + r.1) else rest) e
            ∙ (prune_loop-total fuel chunk (total + r.1) r.0 c (omega (arith, h, b, full, c))
                ∙ (λ i. some (a i, sum i)))
      ]

  -- `_prune` ends and deletes exactly the old rows: with one round more than there are rows the loop
  -- has ended, the rows that are not old stay, in their order, and the number returned is that of the
  -- old ones.
  pub prune_loop-ends :
      (rows : List A)
      → (prune_loop is_old (suc (length rows)) chunk_size 0 rows
          ≡ some (young rows, count is_old rows))
        × (prune is_old rows ≡ (young rows, count is_old rows))
  unfolding prune
  prune_loop-ends rows =
      let e : prune_loop is_old (suc (length rows)) chunk_size 0 rows
          ≡ some (young rows, count is_old rows) =
        prune_loop-total (suc (length rows)) chunk_size 0 rows (omega arith)
          (omega (arith, length-keep is_old rows))
        ∙ ap (λ n. some (young rows, n)) (omega arith) in
      (e, ap (λ o. or_else o (rows, 0)) e)
