-- ===== src/Radius/Coa/Exchange/Acks.antt =====
-- `disconnect` of naco/radius/coa.py: when it reports an acknowledgement, when a timeout, and how
-- often it sends.
use mathlib.Core.List.{Memᴰ}
use naco.Base.{
  List, Option-cases, String, ap, arith, from_bytes, inl, inr, none, none_not_some, refl, some,
  some-inj, subst, sym, ℕ, ◌<◌, ◌↔◌, ◌∙◌, ◌≡◌, ◌≢◌, ◌≤◌, ◌⊎◌,
}
use naco.Base.Utf8
use naco.Radius.Coa.{SessionIds, byte_at, disconnect_ack, slice}
use naco.Radius.Coa.Authentic.{IsAuthentic, verify_response_iff}
use naco.Radius.Coa.Exchange.{
  CoaResult, CoaTarget, CoaWorld, Outcome, datagram, disconnect, packet_for,
}
use naco.Radius.Coa.Exchange.Outcomes.{
  IsSilent, arrived, receive-response, receive_all-found, result_of-acked,
}
use naco.Radius.Coa.Exchange.Rounds.{
  attempts-answered, attempts-sends, attempts-timeout, heard, rounds,
}
use naco.Radius.Vendors.{Vendor}

not_both : (o : Outcome) → o ≡ Outcome.ack → o ≢ Outcome.timeout
not_both o h t = ground (arith, h, t)

no_error : (o : Outcome) → o ≡ Outcome.error → (o ≢ Outcome.ack) × (o ≢ Outcome.timeout)
no_error o h = ground (arith, h)

module _ (md5 : List ℕ → List ℕ) (hmac : List ℕ → List ℕ → List ℕ) (w : CoaWorld)
    (target : CoaTarget) (ids : SessionIds) (nas : Vendor) (retries : ℕ) where
  sent : List ℕ
  sent = packet_for md5 hmac w target ids nas

  key_bytes : List ℕ
  key_bytes = Utf8.encode target.secret

  -- the rounds of `disconnect`, when the address is read and the endpoint is open
  loop : String → CoaResult × ℕ
  unfolding rounds
  loop host = rounds md5 hmac sent key_bytes host target.port w.waits target.ip retries 0

  -- `disconnect` fails before it sends, or runs the loop
  disconnect-cases :
      ((disconnect md5 hmac w target ids nas retries).0.outcome ≡ Outcome.error)
        × ((disconnect md5 hmac w target ids nas retries).1 ≡ 0)
        × ((host : String) → w.parse target.ip ≡ some host → w.opened ≡ none → ⊥)
      ⊎ ((host : String) × (w.parse target.ip ≡ some host)
          × (w.opened ≡ none)
          × (disconnect md5 hmac w target ids nas retries ≡ loop host))
  unfolding loop rounds sent key_bytes disconnect
  disconnect-cases = elim (Option-cases (w.parse target.ip)) [
    | inl e ↦
        inl
          (rw (disconnect, e) refl, rw (disconnect, e) refl, λ host h o. none_not_some (sym e ∙ h))
    | inr (host, e) ↦ elim (Option-cases w.opened) [
      | inl o ↦ inr (host, e, o, rw (disconnect, e, o) refl)
      | inr (t, o) ↦ inl (
        rw (disconnect, e, o) refl,
        rw (disconnect, e, o) refl,
        λ h1 h2 n. none_not_some (sym n ∙ o),
      )
    ]
  ]

  -- A Disconnect-Request is sent at most as often as `retries` says.
  pub disconnect-sends : (disconnect md5 hmac w target ids nas retries).1 ≤ retries
  unfolding loop
  disconnect-sends = elim disconnect-cases [
    | inl (e, n, f) ↦ rw n (omega arith)
    | inr (host, p, o, e) ↦ rw e (
        omega (
          arith,
          attempts-sends md5 hmac sent key_bytes host target.port w.waits target.ip retries 0,
        ))
  ]

  -- `disconnect` reports an acknowledgement only if one came: in one of the first `retries` waits the
  -- socket received, from the address and the port of the NAS, a datagram that is an authentic
  -- response to the packet sent under the shared secret, and whose code is 41.
  pub disconnect-acknowledged :
      (disconnect md5 hmac w target ids nas retries).0.outcome ≡ Outcome.ack
      → (host : String) × (w.parse target.ip ≡ some host)
        × (k : ℕ) × (k < retries)
        × (bytes : List ℕ) × Memᴰ (datagram bytes host target.port) (w.waits k)
        × IsAuthentic md5 hmac
            (packet_for md5 hmac w target ids nas)
            bytes
            (Utf8.encode target.secret)
            (from_bytes (slice 2 4 bytes))
        × (byte_at bytes 0 ≡ disconnect_ack)
  unfolding loop heard sent key_bytes
  disconnect-acknowledged h = elim disconnect-cases [
    | inl (e, n, f) ↦ absurd ((no_error _ e).0 h)
    | inr (host, p, o, e) ↦
        let s : (loop host).0.outcome ≡ Outcome.ack = ap (λ x. x.0.outcome) (sym e) ∙ h in
        let (k, l, a, g, r) =
          attempts-answered md5 hmac sent key_bytes host target.port w.waits target.ip retries 0
            (λ t. not_both _ s t) in
        let (bytes, b, c) = result_of-acked a _ r s in
        let (x, m, q) =
          receive_all-found md5 hmac sent key_bytes host target.port (w.waits k) a (g) in
        let (d, v) =
          receive-response md5 hmac sent key_bytes host target.port x bytes
            (q ∙ ap (λ z. some z) b) in
        (
          host,
          p,
          k,
          omega (arith, l),
          bytes,
          subst (λ z. Memᴰ z (w.waits k)) d m,
          (verify_response_iff md5 hmac sent bytes key_bytes).0 v,
          c,
        )
  ]

  -- `disconnect` reports a timeout exactly if the address can be read, the endpoint opens, and of
  -- what arrives in the first `retries` waits nothing counts, before an error of the socket that is a
  -- TimeoutError if there is one: no other error of the socket, and no authentic response from the
  -- address and port of the NAS.
  pub disconnect-timeout_iff :
      ((disconnect md5 hmac w target ids nas retries).0.outcome ≡ Outcome.timeout) ↔ (
        (host : String) × (w.parse target.ip ≡ some host)
        × (w.opened ≡ none)
        × IsSilent md5 hmac
            (packet_for md5 hmac w target ids nas)
            (Utf8.encode target.secret)
            host
            target.port
            (arrived w.waits retries 0))
  unfolding loop sent key_bytes
  disconnect-timeout_iff = elim disconnect-cases [
    | inl (e, n, f) ↦ ((λ h. absurd ((no_error _ e).1 h)), (λ x. absurd (f x.0 x.1 x.2)))
    | inr (host, p, o, e) ↦
        let t =
          attempts-timeout md5 hmac sent key_bytes host target.port w.waits target.ip retries 0 in
        let s : (disconnect md5 hmac w target ids nas retries).0.outcome ≡ (loop host).0.outcome =
          ap (λ x. x.0.outcome) e in
        ((λ h. (host, p, o, t.0 (sym s ∙ h))), (λ x. s ∙ t.1 (rw (some-inj (sym p ∙ x.1)) x.3)))
  ]
