-- ===== src/Radius/Coa/Exchange/Rounds.antt =====
-- The rounds of `disconnect` in naco/radius/coa.py, by what arrives in them.
use naco.Base.{
  List, Option, Option-cases, String, ap, arith, inl, inr, none, none_not_some, refl, some, suc,
  sym, zero, ℕ, ◌+◌, ◌<◌, ◌↔◌, ◌∙◌, ◌≡◌, ◌≢◌, ◌≤◌, ◌⊎◌,
}
use naco.Radius.Coa.Exchange.{
  Answer, CoaResult, NetEvent, Outcome, attempts, expired, receive_all, result_of,
}
use naco.Radius.Coa.Exchange.Outcomes.{
  IsSilent, arrived, held-IsSilent, ignored-IsSilent, receive_all-done, receive_all_iff,
  result_of-answered, result_of-expired,
}

module _ (md5 : List ℕ → List ℕ) (hmac : List ℕ → List ℕ → List ℕ) (request secret : List ℕ)
    (host : String) (port : ℕ) where
  module _ (waits : ℕ → List NetEvent) (ip : String) where
    unfoldable pub rounds : ℕ → ℕ → CoaResult × ℕ
    rounds n i = attempts md5 hmac request secret host port waits ip n i none

    unfoldable pub heard : ℕ → Option Answer
    heard i = receive_all md5 hmac request secret host port none (waits i)

    after : ℕ → ℕ → Option Answer → CoaResult × ℕ
    after n i o = elim o [
      | some a ↦ elim (result_of a) [
        | some r ↦ (r, suc i)
        | none ↦ attempts md5 hmac request secret host port waits ip n (suc i) (some a)
      ]
      | none ↦ rounds n (suc i)
    ]

    round : (n i : ℕ) → rounds (suc n) i ≡ after n i (heard i)
    unfolding rounds after heard attempts
    round n i = refl

    -- a round with no answer, one with an answer, and all rounds after a TimeoutError of the socket
    silent : (n i : ℕ) → heard i ≡ none → rounds (suc n) i ≡ rounds n (suc i)
    unfolding after
    silent n i e = round n i ∙ ap (after n i) e

    answered :
        (n i : ℕ) (a : Answer) (r : CoaResult)
        → heard i ≡ some a
        → result_of a ≡ some r
        → rounds (suc n) i ≡ (r, suc i)
    unfolding after
    answered n i a r e q = round n i ∙ (ap (after n i) e ∙ rw (after, q) refl)

    stuck :
        (n i : ℕ)
        → ((attempts md5 hmac request secret host port waits ip n i (some expired)).0.outcome
            ≡ Outcome.timeout)
          × ((attempts md5 hmac request secret host port waits ip n i (some expired)).1 ≡ i + n)
    unfolding attempts result_of
    stuck zero i = (refl, omega arith)
    stuck (suc n) i =
        rw (attempts, receive_all-done md5 hmac request secret host port expired (waits i))
          ((stuck n (suc i)).0, omega (arith, (stuck n (suc i)).1))

    gave_up :
        (n i : ℕ)
        → heard i ≡ some expired
        → ((rounds (suc n) i).0.outcome ≡ Outcome.timeout) × ((rounds (suc n) i).1 ≡ i + suc n)
    unfolding after result_of
    gave_up n i e =
        let s = round n i ∙ ap (after n i) e in
        (
          ap (λ x. x.0.outcome) s ∙ (stuck n (suc i)).0,
          ap (λ x. x.1) s ∙ omega (arith, (stuck n (suc i)).1),
        )

    -- a wait ends in silence, in a TimeoutError of the socket, or in a result
    Ending : ℕ → Type 0
    Ending i =
        (heard i ≡ none)
        ⊎ ((heard i ≡ some expired)
            ⊎ ((a : Answer) × (r : CoaResult) × (heard i ≡ some a) × (result_of a ≡ some r)))

    ending : (i : ℕ) → Ending i
    unfolding Ending
    ending i = elim (Option-cases (heard i)) [
      | inl e ↦ inl e
      | inr (a, e) ↦ inr (elim (Option-cases (result_of a)) [
        | inl q ↦ inl (e ∙ ap (λ z. some z) ((result_of-expired a).0 q))
        | inr (r, q) ↦ inr (a, r, e, q)
      ])
    ]

    pub attempts-sends : (n i : ℕ) → (rounds n i).1 ≤ i + n
    unfolding Ending
    attempts-sends zero i = unfold rounds attempts in omega arith
    attempts-sends (suc n) i = elim (ending i) [
      | inl e ↦ rw (silent n i e) (omega (arith, attempts-sends n (suc i)))
      | inr (inl e) ↦ omega (arith, (gave_up n i e).1)
      | inr (inr (a, r, e, q)) ↦ rw (answered n i a r e q) (omega arith)
    ]

    pub attempts-answered :
        (n i : ℕ)
        → (rounds n i).0.outcome ≢ Outcome.timeout
        → (k : ℕ) × (k < i + n)
          × (a : Answer) × (heard k ≡ some a)
          × (result_of a ≡ some (rounds n i).0)
    unfolding Ending
    attempts-answered zero i h = absurd (h (unfold rounds attempts in refl))
    attempts-answered (suc n) i h = elim (ending i) [
      | inl e ↦
          let s = silent n i e in
          let (k, l, a, g, r) =
            attempts-answered n (suc i) (λ t. h (ap (λ x. x.0.outcome) s ∙ t)) in
          (k, omega (arith, l), a, g, r ∙ ap (λ x. some x.0) (sym s))
      | inr (inl e) ↦ absurd (h (gave_up n i e).0)
      | inr (inr (a, r, e, q)) ↦
          (i, omega arith, a, e, q ∙ ap (λ x. some x.0) (sym (answered n i a r e q)))
    ]

    pub attempts-timeout :
        (n i : ℕ)
        → ((rounds n i).0.outcome ≡ Outcome.timeout)
          ↔ IsSilent md5 hmac request secret host port (arrived waits n i)
    unfolding Ending arrived heard
    attempts-timeout zero i = ((λ h. unfold IsSilent in tt), (λ h. unfold rounds attempts in refl))
    attempts-timeout (suc n) i = elim (ending i) [
      | inl e ↦
          let s = ap (λ x. x.0.outcome) (silent n i e) in
          let ih = attempts-timeout n (suc i) in
          let skip =
            ignored-IsSilent md5 hmac request secret host port (waits i) (arrived waits n (suc i))
              ((receive_all_iff md5 hmac request secret host port (waits i)).0 e) in
          ((λ h. skip.1 (ih.0 (sym s ∙ h))), (λ h. s ∙ ih.1 (skip.0 h)))
      | inr (inl e) ↦ (
        (λ h.
            (held-IsSilent md5 hmac request secret host port (waits i) (arrived waits n (suc i))
                expired e).1
              refl),
        (λ h. (gave_up n i e).0),
      )
      | inr (inr (a, r, e, q)) ↦
          let held =
            held-IsSilent md5 hmac request secret host port (waits i) (arrived waits n (suc i)) a
              e in
          (
            (λ h. absurd (
                result_of-answered a r q (sym (ap (λ x. x.0.outcome) (answered n i a r e q)) ∙ h))),
            (λ h. absurd (none_not_some (sym ((result_of-expired a).1 (held.0 h)) ∙ q))),
          )
    ]
