-- ===== src/Events/Newest.antt =====
-- What a subscriber of naco/core/events.py finds in its queue.
use naco.Base.{
  List, [], ap, append-nil, append_assoc, arith, drop, false, if◌then◌else◌, inl, inr, length,
  length-append, length-drop, refl, suc, sym, true, zero, ℕ, ◌++◌, ◌-◌, ◌<◌, ◌∙◌, ◌∷◌, ◌≡◌, ◌≤◌,
  ◌⊎◌,
}
use naco.Events.{deliver, is_full, publish, publish_all}

size-cases : (size n : ℕ) → (n < size) ⊎ (size ≤ n)
size-cases size n = ground arith

module _ {A : Type 0} where
  drop-more :
      (n : ℕ) (xs : List A) (e : A) → n ≤ length xs → drop n (xs ++ e ∷ []) ≡ drop n xs ++ e ∷ []
  drop-more zero xs e h = refl
  drop-more (suc n) [] e h = absurd (omega (arith, h))
  drop-more (suc n) (x ∷ xs) e h = drop-more n xs e (omega (arith, h))

  drop-one : (n : ℕ) (xs : List A) → drop 1 (drop n xs) ≡ drop (suc n) xs
  drop-one zero [] = refl
  drop-one zero (x ∷ xs) = refl
  drop-one (suc n) [] = refl
  drop-one (suc n) (x ∷ xs) = drop-one n xs

  -- the newest `size` events
  pub newest : ℕ → List A → List A
  newest size events = drop (length events - size) events

  length-newest : (size : ℕ) (xs : List A) → size ≤ length xs → length (newest size xs) ≡ size
  unfolding newest
  length-newest size xs l = length-drop (length xs - size) xs ∙ omega (arith, l)

  newest-few : (size : ℕ) (xs : List A) → length xs ≤ size → newest size xs ≡ xs
  unfolding newest
  newest-few size xs l = let z : length xs - size ≡ 0 = omega (arith, l) in ap (λ n. drop n xs) z

  is_full-few : (size : ℕ) (xs : List A) → length xs < size → is_full size xs ≡ false
  unfolding is_full
  is_full-few size xs l = ground (arith, l)

  is_full-many : (size : ℕ) (q : List A) → 1 ≤ size → length q ≡ size → is_full size q ≡ true
  unfolding is_full
  is_full-many size q h l = ground (arith, h, l)

  deliver-newest :
      (size : ℕ) (xs : List A) (e : A)
      → 1 ≤ size
      → deliver size e (newest size xs) ≡ newest size (xs ++ e ∷ [])
  unfolding deliver
  deliver-newest size xs e h = elim (size-cases size (length xs)) [
    | inl l ↦
        ap (deliver size e) (newest-few size xs (omega (arith, l)))
        ∙ (ap (λ b. (if b then drop 1 xs else xs) ++ e ∷ []) (is_full-few size xs l)
            ∙ sym (newest-few size (xs ++ e ∷ []) (omega (arith, l, length-append xs (e ∷ [])))))
    | inr l ↦
        ap (λ b. (if b then drop 1 (newest size xs) else newest size xs) ++ e ∷ [])
          (is_full-many size (newest size xs) h (length-newest size xs l))
        ∙ unfold newest in
          let z : suc (length xs - size) ≡ length (xs ++ e ∷ []) - size =
            omega (arith, h, l, length-append xs (e ∷ [])) in
          (ap (λ ys. ys ++ e ∷ []) (drop-one (length xs - size) xs)
            ∙ (sym (drop-more (suc (length xs - size)) xs e (omega (arith, h, l)))
                ∙ ap (λ n. drop n (xs ++ e ∷ [])) z))
  ]

  publish_all-newest :
      (size : ℕ) (events past : List A)
      → 1 ≤ size
      → publish_all size (newest size past ∷ []) events ≡ newest size (past ++ events) ∷ []
  unfolding publish_all publish
  publish_all-newest size [] past h = ap (λ ys. newest size ys ∷ []) (sym (append-nil past))
  publish_all-newest size (e ∷ events) past h =
      ap (λ q. publish_all size (q ∷ []) events) (deliver-newest size past e h)
      ∙ (publish_all-newest size events (past ++ e ∷ []) h
          ∙ ap (λ ys. newest size ys ∷ []) (append_assoc past (e ∷ []) events))

  -- A slow subscriber loses the oldest events only: after any events were published, the queue of a
  -- subscriber that has read none of them holds the newest ones, in their order, as many as the
  -- queue takes, and never more.
  pub publish_all-empty :
      (size : ℕ) (events : List A)
      → 1 ≤ size
      → (publish_all size ([] ∷ []) events ≡ drop (length events - size) events ∷ [])
        × (length (drop (length events - size) events) ≤ size)
  unfolding newest
  publish_all-empty size events h = (
    ap (λ q. publish_all size (q ∷ []) events) (sym (newest-few size [] (omega arith)))
        ∙ publish_all-newest size events [] h,
    omega (arith, length-drop (length events - size) events),
  )
