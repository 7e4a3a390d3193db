-- ===== src/Radius/Coa/Exchange/Outcomes.antt =====
-- What each result of `disconnect` in naco/radius/coa.py says of the datagrams received.
use mathlib.Core.List.{Memᴰ}
use naco.Base.{
  All, Bool, List, Option, Option-cases, String, [], ap, arith, eq_iff, from_bytes, if◌then◌else◌,
  inl, inr, none, none_not_some, refl, some, some-inj, str_eq, subst, suc, sym, true, zero, ℕ, ◌&&◌,
  ◌++◌, ◌==◌, ◌↔◌, ◌∙◌, ◌∷◌, ◌≡◌, ◌≢◌, ◌⊎◌,
}
use naco.Radius.Coa.{byte_at, disconnect_ack, slice, verify_response}
use naco.Radius.Coa.Authentic.{IsAuthentic, verify_response_iff}
use naco.Radius.Coa.Exchange.{
  Answer, CoaResult, NetEvent, Outcome, datagram, expired, failure, receive, receive_all, response,
  result_of, socket_error, socket_timeout,
}

pub result_of-acked :
    (a : Answer) (r : CoaResult)
    → result_of a ≡ some r
    → r.outcome ≡ Outcome.ack
    → (bytes : List ℕ) × (a ≡ response bytes) × (byte_at bytes 0 ≡ disconnect_ack)
unfolding result_of
result_of-acked (response bytes) r e h = (bytes, refl, ground (arith, e, h))
result_of-acked (failure t) r e h = ground (arith, e, h)
result_of-acked expired r e h = absurd (none_not_some e)

pub result_of-answered :
    (a : Answer) (r : CoaResult) → result_of a ≡ some r → r.outcome ≢ Outcome.timeout
unfolding result_of
result_of-answered (response bytes) r e h = ground (arith, e, h)
result_of-answered (failure t) r e h = ground (arith, e, h)
result_of-answered expired r e h = absurd (none_not_some e)

pub result_of-expired : (a : Answer) → (result_of a ≡ none) ↔ (a ≡ expired)
unfolding result_of
result_of-expired (response bytes) = ground arith
result_of-expired (failure t) = ground arith
result_of-expired expired = (λ h. refl, λ h. refl)

taken-some :
    (f h : String) (p q : ℕ) (v : Bool) (a b : Answer)
    → (let o : Option Answer = if str_eq f h && p == q then if v then some a else none else none in
        o)
      ≡ some b
    → (f ≡ h) × (p ≡ q) × (v ≡ true) × (a ≡ b)
taken-some f h p q v a b e = ground (arith, eq_iff f h)

taken-none :
    (f h : String) (p q : ℕ) (v : Bool) (a : Answer)
    → ((let o : Option Answer = if str_eq f h && p == q then if v then some a else none else none in
          o)
        ≡ none)
      ↔ (¬ ((f ≡ h) × (p ≡ q) × (v ≡ true)))
taken-none f h p q v a = ground (arith, eq_iff f h)

bytes_of : Answer → List ℕ
bytes_of (response bytes) = bytes
bytes_of (failure t) = []
bytes_of expired = []

-- what arrives in `n` waits from the one with that number on
unfoldable pub arrived : (ℕ → List NetEvent) → ℕ → ℕ → List NetEvent
arrived waits zero i = []
arrived waits (suc n) i = waits i ++ arrived waits n (suc i)

module _ (md5 : List ℕ → List ℕ) (hmac : List ℕ → List ℕ → List ℕ) (request secret : List ℕ)
    (host : String) (port : ℕ) where
  -- nothing that ends the wait: not an error, and not an authentic datagram of the NAS
  pub IsIgnored : NetEvent → Type 0
  IsIgnored (datagram bytes from from_port) = ¬ (
      (from ≡ host)
      × (from_port ≡ port)
      × IsAuthentic md5 hmac request bytes secret (from_bytes (slice 2 4 bytes)))
  IsIgnored (socket_error text) = ⊥
  IsIgnored socket_timeout = ⊥

  -- nothing counts before the end, or before an error of the socket that is a TimeoutError
  unfoldable pub IsSilent : List NetEvent → Type 0
  IsSilent [] = Unit
  IsSilent (e ∷ events) = (e ≡ socket_timeout) ⊎ (IsIgnored e × IsSilent events)

  pub receive-response :
      (e : NetEvent) (bytes : List ℕ)
      → receive md5 hmac request secret host port none e ≡ some (response bytes)
      → (e ≡ datagram bytes host port) × (verify_response md5 hmac request bytes secret ≡ true)
  unfolding receive bytes_of
  receive-response (datagram b f p) bytes h =
      let (hf, hp, hv, ha) =
        taken-some f host p port (verify_response md5 hmac request b secret) (response b)
          (response bytes) h in
      let hb : b ≡ bytes = ap bytes_of ha in
      (
        (λ i. datagram (hb i) (hf i) (hp i)),
        subst (λ x. verify_response md5 hmac request x secret ≡ true) hb hv,
      )
  receive-response (socket_error t) bytes h = ground arith
  receive-response socket_timeout bytes h = ground arith

  receive-expired :
      (e : NetEvent)
      → (receive md5 hmac request secret host port none e ≡ some expired) ↔ (e ≡ socket_timeout)
  unfolding receive
  receive-expired (datagram b f p) = ground arith
  receive-expired (socket_error t) = ground arith
  receive-expired socket_timeout = (λ h. refl, λ h. refl)

  receive_iff :
      (e : NetEvent) → (receive md5 hmac request secret host port none e ≡ none) ↔ IsIgnored e
  unfolding receive IsIgnored
  receive_iff (datagram b f p) =
      let it = taken-none f host p port (verify_response md5 hmac request b secret) (response b) in
      let v = verify_response_iff md5 hmac request b secret in
      ((λ h x. it.0 h (x.0, x.1, v.1 x.2)), (λ h. it.1 (λ x. h (x.0, x.1, v.0 x.2))))
  receive_iff (socket_error t) = ((λ h. absurd (none_not_some (sym h))), (λ h. absurd h))
  receive_iff socket_timeout = ((λ h. absurd (none_not_some (sym h))), (λ h. absurd h))

  pub receive_all-done :
      (a : Answer) (es : List NetEvent)
      → receive_all md5 hmac request secret host port (some a) es ≡ some a
  unfolding receive_all receive
  receive_all-done a [] = refl
  receive_all-done a (e ∷ es) = receive_all-done a es

  pub receive_all-found :
      (es : List NetEvent) (a : Answer)
      → receive_all md5 hmac request secret host port none es ≡ some a
      → (e : NetEvent) × Memᴰ e es × (receive md5 hmac request secret host port none e ≡ some a)
  unfolding receive_all
  receive_all-found [] a h = absurd (none_not_some h)
  receive_all-found (e ∷ es) a h =
      elim (Option-cases (receive md5 hmac request secret host port none e)) [
        | inl n ↦
            let (x, m, r) =
              receive_all-found es a
                (sym (ap (λ o. receive_all md5 hmac request secret host port o es) n) ∙ h) in
            (x, Memᴰ.tail m, r)
        | inr (b, s) ↦ (
          e,
          Memᴰ.head refl,
          s
              ∙ (sym (receive_all-done b es)
                  ∙ (sym (ap (λ o. receive_all md5 hmac request secret host port o es) s) ∙ h)),
        )
      ]

  pub receive_all_iff :
      (es : List NetEvent)
      → (receive_all md5 hmac request secret host port none es ≡ none) ↔ All IsIgnored es
  unfolding receive_all
  receive_all_iff [] = (λ h. tt, λ h. refl)
  receive_all_iff (e ∷ es) =
      elim (Option-cases (receive md5 hmac request secret host port none e)) [
        | inl n ↦
            let step = ap (λ o. receive_all md5 hmac request secret host port o es) n in
            (
              (λ h. ((receive_iff e).0 n, (receive_all_iff es).0 (sym step ∙ h))),
              (λ a. step ∙ (receive_all_iff es).1 a.1),
            )
        | inr (b, s) ↦
            let step = ap (λ o. receive_all md5 hmac request secret host port o es) s in
            (
              (λ h. absurd (none_not_some (sym h ∙ (step ∙ receive_all-done b es)))),
              (λ a. absurd (none_not_some (sym ((receive_iff e).1 a.0) ∙ s))),
            )
      ]

  -- events that are ignored do not matter
  pub ignored-IsSilent :
      (es later : List NetEvent) → All IsIgnored es → IsSilent (es ++ later) ↔ IsSilent later
  unfolding IsSilent
  ignored-IsSilent [] later a = (λ h. h, λ h. h)
  ignored-IsSilent (e ∷ es) later a =
      let ih = ignored-IsSilent es later a.1 in
      (
        (λ h. elim h [
          | inl q ↦ absurd (none_not_some (sym ((receive_iff e).1 a.0) ∙ (receive-expired e).1 q))
          | inr k ↦ ih.0 k.1
        ]),
        (λ h. inr (a.0, ih.1 h)),
      )

  -- what the future holds decides
  pub held-IsSilent :
      (es later : List NetEvent) (a : Answer)
      → receive_all md5 hmac request secret host port none es ≡ some a
      → IsSilent (es ++ later) ↔ (a ≡ expired)
  unfolding IsSilent receive_all
  held-IsSilent [] later a h = absurd (none_not_some h)
  held-IsSilent (e ∷ es) later a h =
      elim (Option-cases (receive md5 hmac request secret host port none e)) [
        | inl n ↦
            let ih =
              held-IsSilent es later a
                (sym (ap (λ o. receive_all md5 hmac request secret host port o es) n) ∙ h) in
            (
              (λ k. elim k [
                | inl q ↦ absurd (none_not_some (sym n ∙ (receive-expired e).1 q))
                | inr x ↦ ih.0 x.1
              ]),
              (λ q. inr ((receive_iff e).0 n, ih.1 q)),
            )
        | inr (b, s) ↦
            let same : b ≡ a = some-inj (
              sym (receive_all-done b es)
              ∙ (sym (ap (λ o. receive_all md5 hmac request secret host port o es) s) ∙ h)) in
            (
              (λ k. elim k [
                | inl q ↦ sym same ∙ some-inj (sym s ∙ (receive-expired e).1 q)
                | inr x ↦ absurd (none_not_some (sym ((receive_iff e).1 x.0) ∙ s))
              ]),
              (λ q. inl ((receive-expired e).0 (s ∙ ap (λ z. some z) (same ∙ q)))),
            )
      ]
