-- ===== src/Api/Totp/Replay.antt =====
-- `match` of naco/api/totp.py: which codes it takes, when it raises, and that no step is taken twice.
use mathlib.Core.Bool.{true≢false}
use mathlib.Core.List.{Memᴰ}
use naco.Base.{
  Bool, Bool-cases, List, Option, String, Unicode, [], ap, arith, eq_iff, err, err_not_ok, false,
  inl, inr, mem-cons, none, none_not_some, not, not_in_nil, ok, ok-inj, refl, some, some-inj,
  str_eq, subst, sym, text_length, true, ℕ, ◌+◌, ◌-◌, ◌<◌, ◌==◌, ◌||◌, ◌↔◌, ◌∙◌, ◌∷◌, ◌≡◌, ◌≢◌, ◌≤◌,
  ◌⊎◌,
}
use naco.Api.Totp.{
  clean_code, compare_digest, current_step, first_match, is_ascii, is_spent, match, not_ascii,
}

-- later than the last step that was used
pub IsLater : Option ℕ → ℕ → Type 0
IsLater last s = (l : ℕ) → last ≡ some l → l < s

is_spent_iff : (last : Option ℕ) (s : ℕ) → (is_spent last s ≡ false) ↔ IsLater last s
unfolding is_spent IsLater
is_spent_iff none s = ((λ h l e. absurd (none_not_some e)), (λ h. refl))
is_spent_iff (some k) s = (
  (λ h l e. subst (λ z. z < s) (some-inj e) (ground (arith, h))),
  (λ h. ground (arith, h k refl)),
)

module _ (otp : ℕ → String) (last : Option ℕ) (given : String) where
  -- one round: the candidate is spent, the comparison raises, it matches, or it does not
  round :
      (c : ℕ) (cs : List ℕ)
      → ((is_spent last c ≡ true)
          × (first_match otp last given (c ∷ cs) ≡ first_match otp last given cs))
        ⊎ ((is_spent last c ≡ false)
            × (((is_ascii given ≡ false) × (first_match otp last given (c ∷ cs) ≡ err not_ascii))
                ⊎ ((is_ascii given ≡ true)
                    × (((otp c ≡ given) × (first_match otp last given (c ∷ cs) ≡ ok (some c)))
                        ⊎ ((otp c ≢ given)
                            × (first_match otp last given (c ∷ cs)
                                ≡ first_match otp last given cs))))))
  unfolding first_match compare_digest
  round c cs = elim (Bool-cases (is_spent last c)) [
    | inl e ↦ inl (e, rw e refl)
    | inr e ↦ elim (Bool-cases (is_ascii given)) [
      | inr f ↦ inr (e, inl (f, rw (e, f) refl))
      | inl f ↦ elim (Bool-cases (str_eq (otp c) given)) [
        | inl g ↦ inr (e, inr (f, inl ((eq_iff (otp c) given).0 g, rw (e, f, g) refl)))
        | inr g ↦ inr (
          e,
          inr (
            f,
            inr (
              (λ q. absurd (true≢false (sym ((eq_iff (otp c) given).1 q) ∙ g))),
              rw (e, f, g) refl,
            ),
          ),
        )
      ]
    ]
  ]

  first_match-nil : first_match otp last given [] ≡ ok none
  unfolding first_match
  first_match-nil = refl

  first_match_sound :
      (cs : List ℕ) (s : ℕ)
      → first_match otp last given cs ≡ ok (some s)
      → Memᴰ s cs × (is_spent last s ≡ false) × (otp s ≡ given)
  first_match_sound [] s h = absurd (none_not_some (ok-inj (sym first_match-nil ∙ h)))
  first_match_sound (c ∷ cs) s h = elim (round c cs) [
    | inl (e, r) ↦ let (m, n, g) = first_match_sound cs s (sym r ∙ h) in (Memᴰ.tail m, n, g)
    | inr (e, inl (f, r)) ↦ absurd (err_not_ok (sym r ∙ h))
    | inr (e, inr (f, inl (g, r))) ↦
        let q : c ≡ s = some-inj (ok-inj (sym r ∙ h)) in
        (
          Memᴰ.head (sym q),
          subst (λ z. is_spent last z ≡ false) q e,
          subst (λ z. otp z ≡ given) q g,
        )
    | inr (e, inr (f, inr (k, r))) ↦
        let (m, n, g) = first_match_sound cs s (sym r ∙ h) in (Memᴰ.tail m, n, g)
  ]

  first_match_complete :
      (cs : List ℕ) (s : ℕ)
      → is_ascii given ≡ true
      → Memᴰ s cs
      → is_spent last s ≡ false
      → otp s ≡ given
      → (t : ℕ) × (first_match otp last given cs ≡ ok (some t))
  first_match_complete [] s a m n g = absurd (elim m [ ])
  first_match_complete (c ∷ cs) s a m n g = elim (round c cs) [
    | inl (e, r) ↦ elim (mem-cons m) [
      | inl q ↦ absurd (true≢false (sym e ∙ (ap (is_spent last) (sym q) ∙ n)))
      | inr k ↦ let (t, h) = first_match_complete cs s a k n g in (t, r ∙ h)
    ]
    | inr (e, inl (f, r)) ↦ absurd (true≢false (sym a ∙ f))
    | inr (e, inr (f, inl (k, r))) ↦ (c, r)
    | inr (e, inr (f, inr (k, r))) ↦ elim (mem-cons m) [
      | inl q ↦ absurd (k (ap otp (sym q) ∙ g))
      | inr l ↦ let (t, h) = first_match_complete cs s a l n g in (t, r ∙ h)
    ]
  ]

  first_match-raises :
      (cs : List ℕ)
      → is_ascii given ≡ false
      → (s : ℕ) → Memᴰ s cs
      → is_spent last s ≡ false
      → first_match otp last given cs ≡ err not_ascii
  first_match-raises [] a s m n = absurd (elim m [ ])
  first_match-raises (c ∷ cs) a s m n = elim (round c cs) [
    | inl (e, r) ↦ elim (mem-cons m) [
      | inl q ↦ absurd (true≢false (sym e ∙ (ap (is_spent last) (sym q) ∙ n)))
      | inr k ↦ r ∙ first_match-raises cs a s k n
    ]
    | inr (e, inl (f, r)) ↦ r
    | inr (e, inr (f, x)) ↦ absurd (true≢false (sym f ∙ a))
  ]

  first_match-raised :
      (cs : List ℕ)
      → first_match otp last given cs ≡ err not_ascii
      → (is_ascii given ≡ false) × (s : ℕ) × Memᴰ s cs × (is_spent last s ≡ false)
  first_match-raised [] h = absurd (err_not_ok (sym h ∙ first_match-nil))
  first_match-raised (c ∷ cs) h = elim (round c cs) [
    | inl (e, r) ↦ let (a, s, m, n) = first_match-raised cs (sym r ∙ h) in (a, s, Memᴰ.tail m, n)
    | inr (e, inl (f, r)) ↦ (f, c, Memᴰ.head refl, e)
    | inr (e, inr (f, inl (g, r))) ↦ absurd (err_not_ok (sym h ∙ r))
    | inr (e, inr (f, inr (g, r))) ↦
        let (a, s, m, n) = first_match-raised cs (sym r ∙ h) in (a, s, Memᴰ.tail m, n)
  ]

-- at most one step away from the clock's
pub IsNear : ℕ → ℕ → Type 0
IsNear now s = (current_step now ≤ s + 1) × (s ≤ current_step now + 1)

near-cases : (c s : ℕ) → c ≤ s + 1 → s ≤ c + 1 → (s ≡ c - 1) ⊎ ((s ≡ c) ⊎ (s ≡ c + 1))
near-cases c s a b = ground arith

near-mem :
    (now s : ℕ)
    → IsNear now s
    → Memᴰ s ((current_step now - 1) ∷ current_step now ∷ (current_step now + 1) ∷ [])
unfolding IsNear
near-mem now s (a, b) = elim (near-cases (current_step now) s a b) [
  | inl e ↦ Memᴰ.head e
  | inr (inl e) ↦ Memᴰ.tail (Memᴰ.head e)
  | inr (inr e) ↦ Memᴰ.tail (Memᴰ.tail (Memᴰ.head e))
]

mem-IsNear :
    (now s : ℕ)
    → Memᴰ s ((current_step now - 1) ∷ current_step now ∷ (current_step now + 1) ∷ [])
    → IsNear now s
unfolding IsNear
mem-IsNear now s (Memᴰ.head e) = (omega (arith, e), omega (arith, e))
mem-IsNear now s (Memᴰ.tail (Memᴰ.head e)) = (omega (arith, e), omega (arith, e))
mem-IsNear now s (Memᴰ.tail (Memᴰ.tail (Memᴰ.head e))) = (omega (arith, e), omega (arith, e))
mem-IsNear now s (Memᴰ.tail (Memᴰ.tail (Memᴰ.tail m))) = absurd (not_in_nil m)

refused_iff : (n : ℕ) (d : Bool) → ((not (n == 6) || not d) ≡ false) ↔ ((n ≡ 6) × (d ≡ true))
refused_iff n d = ground arith

module _ (u : Unicode) (isdigit : String → Bool) (otp : String → ℕ → String) (secret typed : String)
    (last : Option ℕ) (now : ℕ) where
  -- what the user typed, without spaces, is six digits
  pub IsCode : Type 0
  IsCode =
      (text_length (clean_code u isdigit otp typed) ≡ 6)
      × (isdigit (clean_code u isdigit otp typed) ≡ true)

  match-cases :
      (IsCode
        × (match u isdigit otp secret typed last now
            ≡ first_match
                (otp secret)
                last
                (clean_code u isdigit otp typed)
                ((current_step now - 1) ∷ current_step now ∷ (current_step now + 1) ∷ [])))
      ⊎ ((¬ IsCode) × (match u isdigit otp secret typed last now ≡ ok none))
  unfolding match IsCode
  match-cases =
      elim (Bool-cases (
        not (text_length (clean_code u isdigit otp typed) == 6)
        || not (isdigit (clean_code u isdigit otp typed)))) [
          | inl e ↦ inr (
            (λ h. true≢false (
                sym e
                ∙ (refused_iff (text_length (clean_code u isdigit otp typed))
                      (isdigit (clean_code u isdigit otp typed))).1
                    h)),
            rw e refl,
          )
          | inr e ↦ inl (
            (refused_iff (text_length (clean_code u isdigit otp typed))
                  (isdigit (clean_code u isdigit otp typed))).0
                e,
            rw e refl,
          )
        ]

  -- A code that `match` takes is right, near and new: if it returns a step, what was typed is six
  -- digits and the code of that step, which is at most one step away from the clock's and later than
  -- the last step that was used.
  pub match-taken :
      (s : ℕ)
      → match u isdigit otp secret typed last now ≡ ok (some s)
      → IsCode × (otp secret s ≡ clean_code u isdigit otp typed) × IsNear now s × IsLater last s
  match-taken s h = elim match-cases [
    | inl (c, e) ↦
        let (m, n, g) =
          first_match_sound (otp secret) last (clean_code u isdigit otp typed)
            ((current_step now - 1) ∷ current_step now ∷ (current_step now + 1) ∷ []) s
            (sym e ∙ h) in
        (c, g, mem-IsNear now s m, (is_spent_iff last s).0 n)
    | inr (c, e) ↦ absurd (none_not_some (ok-inj (sym e ∙ h)))
  ]

  -- A right code is taken: `match` returns a step if what was typed is six ASCII digits and the code
  -- of some step that is at most one step away from the clock's and later than the last one used.
  pub match_complete :
      (s : ℕ)
      → IsCode
      → is_ascii (clean_code u isdigit otp typed) ≡ true
      → otp secret s ≡ clean_code u isdigit otp typed
      → IsNear now s
      → IsLater last s
      → (t : ℕ) × (match u isdigit otp secret typed last now ≡ ok (some t))
  match_complete s c a g n l = elim match-cases [
    | inl (_, e) ↦
        let (t, h) =
          first_match_complete (otp secret) last (clean_code u isdigit otp typed)
            ((current_step now - 1) ∷ current_step now ∷ (current_step now + 1) ∷ []) s a
            (near-mem now s n) ((is_spent_iff last s).1 l) g in
        (t, e ∙ h)
    | inr (d, e) ↦ absurd (d c)
  ]

  -- `match` raises a TypeError exactly if what was typed is six characters that `str.isdigit` takes
  -- for digits, not all of them ASCII, and a step near the clock's is later than the last one used.
  pub match-raises_iff : (match u isdigit otp secret typed last now ≡ err not_ascii) ↔ (
      IsCode
      × (is_ascii (clean_code u isdigit otp typed) ≡ false)
      × (s : ℕ) × IsNear now s
      × IsLater last s)
  match-raises_iff = elim match-cases [
    | inl (c, e) ↦
        let cs = (current_step now - 1) ∷ current_step now ∷ (current_step now + 1) ∷ [] in
        (
          (λ h.
              let (a, s, m, n) =
                first_match-raised (otp secret) last (clean_code u isdigit otp typed) cs
                  (sym e ∙ h) in
              (c, a, s, mem-IsNear now s m, (is_spent_iff last s).0 n)),
          (λ h.
              let (_, a, s, m, n) = h in
              e
              ∙ first_match-raises (otp secret) last (clean_code u isdigit otp typed) cs a s
                  (near-mem now s m) ((is_spent_iff last s).1 n)),
        )
    | inr (d, e) ↦ ((λ h. absurd (err_not_ok (sym h ∙ e))), (λ h. absurd (d h.0)))
  ]
