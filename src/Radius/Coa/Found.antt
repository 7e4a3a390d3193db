-- ===== src/Radius/Coa/Found.antt =====
-- `_find_attr` of naco/radius/coa.py ends, and finds the first attribute of its kind.
use naco.Base.{
  Bool-cases, List, ap, arith, inl, inr, ltb, none, none_not_some, refl, some, some-inj, suc, sym,
  zero, ℕ, ◌+◌, ◌==◌, ◌||◌, ◌↔◌, ◌∙◌, ◌≡◌, ◌≢◌, ◌≤◌, ◌⊎◌,
}
use naco.Radius.Coa.{byte_at, find_attr, find_from}

-- an attribute stands whole at `pos`
pub IsWhole : List ℕ → ℕ → ℕ → Type 0
IsWhole packet size pos =
    (pos + 2 ≤ size) × (2 ≤ byte_at packet (pos + 1)) × (pos + byte_at packet (pos + 1) ≤ size)

-- going from attribute to attribute from `pos`, the first of the kind has its value at `at`
pub data FirstAt (packet : List ℕ) (kind size : ℕ) : ℕ → ℕ → Type 0 where
  here :
      {pos at : ℕ}
      → IsWhole packet size pos
      → byte_at packet pos ≡ kind
      → at ≡ pos + 2
      → FirstAt packet kind size pos at
  there :
      {pos at : ℕ}
      → IsWhole packet size pos
      → byte_at packet pos ≢ kind
      → FirstAt packet kind size (pos + byte_at packet (pos + 1)) at
      → FirstAt packet kind size pos at

module _ (packet : List ℕ) (kind size : ℕ) where
  -- one round of the loop
  round :
      (fuel pos : ℕ)
      → ((¬ IsWhole packet size pos) × (find_from (suc fuel) packet kind size pos ≡ none))
        ⊎ (IsWhole packet size pos
            × (((byte_at packet pos ≡ kind)
                  × (find_from (suc fuel) packet kind size pos ≡ some (pos + 2)))
                ⊎ ((byte_at packet pos ≢ kind)
                    × (find_from (suc fuel) packet kind size pos
                        ≡ find_from fuel packet kind size (pos + byte_at packet (pos + 1))))))
  unfolding find_from IsWhole
  round fuel pos = elim (Bool-cases (ltb size (pos + 2))) [
    | inl e ↦ inl ((λ w. ground (arith, w.0, e)), rw e refl)
    | inr e ↦
        elim (Bool-cases
          (ltb (byte_at packet (pos + 1)) 2 || ltb size (pos + byte_at packet (pos + 1)))) [
            | inl f ↦ inl ((λ w. ground (arith, w.1, w.2, f)), rw (e, f) refl)
            | inr f ↦ elim (Bool-cases (byte_at packet pos == kind)) [
              | inl g ↦ inr (ground (arith, e, f), inl (ground (arith, g), rw (e, f, g) refl))
              | inr g ↦ inr (ground (arith, e, f), inr (ground (arith, g), rw (e, f, g) refl))
            ]
          ]
  ]

  find_from_sound :
      (fuel pos at : ℕ)
      → find_from fuel packet kind size pos ≡ some at
      → FirstAt packet kind size pos at
  find_from_sound zero pos at h = absurd (none_not_some {a = at} (unfold find_from in h))
  find_from_sound (suc fuel) pos at h = elim (round fuel pos) [
    | inl (n, e) ↦ absurd (none_not_some (sym e ∙ h))
    | inr (w, inl (k, e)) ↦ here w k (some-inj (sym h ∙ e))
    | inr (w, inr (k, e)) ↦
        there w k (find_from_sound fuel (pos + byte_at packet (pos + 1)) at (sym e ∙ h))
  ]

  find_from_complete :
      {pos at : ℕ}
      → FirstAt packet kind size pos at
      → (fuel : ℕ) → size ≤ pos + fuel
      → find_from fuel packet kind size pos ≡ some at
  find_from_complete (here w k e) zero h = absurd (unfold IsWhole in omega (arith, w.0))
  find_from_complete (there w k f) zero h = absurd (unfold IsWhole in omega (arith, w.0))
  find_from_complete (here {pos = pos} {at = at} w k e) (suc fuel) h = elim (round fuel pos) [
    | inl (n, d) ↦ absurd (n w)
    | inr (v, inl (l, d)) ↦ d ∙ ap (λ x. some x) (sym e)
    | inr (v, inr (l, d)) ↦ absurd (l k)
  ]
  find_from_complete (there {pos = pos} {at = at} w k f) (suc fuel) h = elim (round fuel pos) [
    | inl (n, d) ↦ absurd (n w)
    | inr (v, inl (l, d)) ↦ absurd (k l)
    | inr (v, inr (l, d)) ↦ d ∙ find_from_complete f fuel (unfold IsWhole in omega (arith, w.1))
  ]

  -- The search for an attribute ends, and finds the right one: for any packet, kind and length,
  -- `_find_attr` gives an offset exactly if, going from whole attribute to whole attribute from the
  -- twentieth byte, the first of that kind has its value there. Each round moves on by two bytes at
  -- least, so the fuel given, the length, is enough.
  pub find_attr_iff :
      (at : ℕ) → (find_attr packet kind size ≡ some at) ↔ FirstAt packet kind size 20 at
  unfolding find_attr
  find_attr_iff at = (find_from_sound size 20 at, λ f. find_from_complete f size (omega arith))
