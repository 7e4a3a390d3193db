-- ===== src/Radius/Reevaluate/Targets.antt =====
-- Which sessions `reevaluate` of naco/radius/reevaluate.py disconnects, and what it counts.
use mathlib.Core.Bool.{true≢false}
use mathlib.Core.List.{Memᴰ}
use naco.Base.{
  Bool, List, Option, Result, String, Unicode, [], ap, arith, eq_iff, err, err_not_ok, false, inl,
  inr, is_empty, keep-mem, listed_if, mem-cons, none, none_not_some, not, not_in_nil, ok, ok-inj,
  refl, some, some-inj, str_eq, subst, sym, true, ℕ, ◌||◌, ◌↔◌, ◌∙◌, ◌∷◌, ◌≡◌, ◌≢◌, ◌⊎◌,
}
use naco.Models.{NasClient, RadiusSession}
use naco.Policy.Context.{AuthMethod, Decision, Fingerprint, accepted, digest, method_of}
use naco.Policy.Conditions.{Zone}
use naco.Policy.Engine.{CompiledPolicy, PolicyLoadError, load_policies}
use naco.Radius.Clients.{Addresses, find}
use naco.Radius.Coa.Exchange.{CoaResult}
use naco.Radius.Reevaluate.{
  LiveTables, LiveWorld, after_load, both, checkable, decide_again, is_changed, live_sessions,
  load_world, reevaluate, review, review_one,
}

-- refused now, or with another digest than the stored one
IsOther : Fingerprint → Decision → String → Type 0
IsOther f d stored = (accepted d ≡ false) ⊎ (digest f d ≢ stored)

is_changed_iff :
    (f : Fingerprint) (d : Decision) (stored : String)
    → (is_changed f d stored ≡ true) ↔ IsOther f d stored
unfolding is_changed IsOther
is_changed_iff f d stored = either (accepted d) (digest f d)
  where
    either :
        (b : Bool) (t : String)
        → ((not b || not (str_eq t stored)) ≡ true) ↔ ((b ≡ false) ⊎ (t ≢ stored))
    either b t = ground (arith, eq_iff t stored)

both_iff {ℓ κ} :
    {A : Type ℓ} {B : Type κ} (o : Option A) (p : Option B) (x : A) (y : B)
    → (both o p ≡ some (x, y)) ↔ ((o ≡ some x) × (p ≡ some y))
unfolding both
both_iff none p x y = ground arith
both_iff (some a) none x y = ground arith
both_iff (some a) (some b) x y = ground arith

module _ (u : Unicode) (tz : Zone) (f : Fingerprint) (a : Addresses) (world : LiveWorld)
    (policies : List CompiledPolicy) (now : ℕ) where
  -- The session came by a known method from a known NAS, and would be decided otherwise now.
  pub IsStale : RadiusSession → NasClient → Type 0
  IsStale s nas =
      (method : AuthMethod) × (method_of s.auth_method ≡ some method)
      × (find a world.nas s.nas_ip ≡ some nas)
      × IsOther f (decide_again u tz f a world policies now s method nas) s.decision_digest

  checkable_iff :
      (s : RadiusSession) (method : AuthMethod) (nas : NasClient)
      → (checkable u tz f a world policies now s ≡ some (method, nas))
        ↔ ((method_of s.auth_method ≡ some method) × (find a world.nas s.nas_ip ≡ some nas))
  checkable_iff s method nas =
      unfold checkable in both_iff (method_of s.auth_method) (find a world.nas s.nas_ip) method nas

  review_one-mem :
      (x : RadiusSession) (o : Option (AuthMethod × NasClient))
      (r : ℕ × List (RadiusSession × NasClient))
      → checkable u tz f a world policies now x ≡ o
      → (s : RadiusSession) (nas : NasClient)
      → Memᴰ (s, nas) (review_one u tz f a world policies now x o r).1
        ↔ (((x ≡ s) × IsStale s nas) ⊎ Memᴰ (s, nas) r.1)
  unfolding review_one IsStale
  review_one-mem x none r e s nas = (
    (λ m. inr m),
    (λ h. elim h [
      | inl (q, t) ↦ absurd (
          none_not_some (
            sym e
            ∙ (ap (checkable u tz f a world policies now) q
                ∙ (checkable_iff s t.0 nas).1 (t.1, t.2))))
      | inr m ↦ m
    ]),
  )
  review_one-mem x (some (method, client)) r e s nas =
      let found = (checkable_iff x method client).0 e in
      let again =
        λ (m : AuthMethod) (c : NasClient). decide_again u tz f a world policies now x m c in
      let differs = is_changed_iff f (again method client) x.decision_digest in
      let listed =
        listed_if (is_changed f (again method client) x.decision_digest) (s, nas) (x, client) r.1 in
      (
        (λ m. elim (listed.0 m) [
          | inl (c, q) ↦ inl (
            ap (λ z. z.0) (sym q),
            subst (λ (z : RadiusSession × NasClient). IsStale z.0 z.1) (sym q)
                (method, found.0, found.1, differs.0 c),
          )
          | inr m ↦ inr m
        ]),
        (λ h. elim h [
          | inl (q, t) ↦
              let (m, p, n, o) = subst (λ z. IsStale z nas) (sym q) t in
              let em : m ≡ method = some-inj (sym p ∙ found.0) in
              let en : nas ≡ client = some-inj (sym n ∙ found.1) in
              listed.1 (
                inl (
                  differs.1 (
                      subst (λ z. IsOther f (again z client) x.decision_digest) em
                        (subst (λ z. IsOther f (again m z) x.decision_digest) en o)),
                  (λ i. (sym q i, en i)),
                ))
          | inr m ↦ listed.1 (inr m)
        ]),
      )

  review-mem :
      (sessions : List RadiusSession) (s : RadiusSession) (nas : NasClient)
      → Memᴰ (s, nas) (review u tz f a world policies now sessions).1
        ↔ (Memᴰ s sessions × IsStale s nas)
  unfolding review
  review-mem [] s nas = ((λ h. absurd (not_in_nil h)), (λ h. absurd (not_in_nil h.0)))
  review-mem (x ∷ sessions) s nas =
      let step =
        review_one-mem x (checkable u tz f a world policies now x)
          (review u tz f a world policies now sessions) refl s nas in
      let ih = review-mem sessions s nas in
      (
        (λ m. elim (step.0 m) [
          | inl (q, t) ↦ (Memᴰ.head (sym q), t)
          | inr n ↦ (Memᴰ.tail (ih.0 n).0, (ih.0 n).1)
        ]),
        (λ h. elim (mem-cons h.0) [
          | inl q ↦ step.1 (inl (sym q, h.1))
          | inr m ↦ step.1 (inr (ih.1 (m, h.1)))
        ]),
      )

not_empty_iff : (t : String) → (not (is_empty t) ≡ true) ↔ (t ≢ "")
not_empty_iff String.[] = ((λ h. absurd (true≢false (sym h))), (λ h. absurd (h refl)))
not_empty_iff (String.◌∷◌ c s) = ((λ h e. absurd (true≢false (sym (ap is_empty e)))), (λ h. refl))

module _ (u : Unicode) (tz : Zone) (f : Fingerprint) (a : Addresses)
    (send : RadiusSession → NasClient → CoaResult) (db : LiveTables) (now : ℕ)
    (reasons : List String) (s : RadiusSession) (nas : NasClient) where
  after_load-mem :
      (r : Result PolicyLoadError (List CompiledPolicy))
      → Memᴰ (s, nas) (after_load u tz f a send db now reasons r).1 ↔ (
          (policies : List CompiledPolicy) × (r ≡ ok policies)
          × Memᴰ s db.sessions
          × (s.decision_digest ≢ "")
          × IsStale u tz f a (load_world db (live_sessions db) now) policies now s nas)
  unfolding after_load live_sessions
  after_load-mem (err e) = ((λ m. absurd (not_in_nil m)), (λ h. absurd (err_not_ok h.1)))
  after_load-mem (ok policies) =
      let targets =
        review-mem u tz f a (load_world db (live_sessions db) now) policies now (live_sessions db) s
          nas in
      let live = keep-mem (λ (x : RadiusSession). not (is_empty x.decision_digest)) db.sessions s in
      let filled = not_empty_iff s.decision_digest in
      (
        (λ m. let (n, t) = targets.0 m in (policies, refl, (live.0 n).0, filled.0 (live.0 n).1, t)),
        (λ h.
            let (ps, q, m, d, t) = h in
            targets.1 (
              live.1 (m, filled.1 d),
              subst (λ z. IsStale u tz f a (load_world db (live_sessions db) now) z now s nas)
                  (sym (ok-inj q)) t,
            )),
      )

  -- Exactly the sessions whose decision changed are disconnected: a Disconnect-Request goes to a NAS
  -- for a session exactly if all enabled policies load, the session is stored with the digest of a
  -- decision, it came by a known method from a known NAS, and the rules and policies of live
  -- authorization, with the accounts, devices and guests of now, refuse it or give a decision of
  -- another digest. So nobody is disconnected when the policies do not load.
  pub reevaluate-mem : Memᴰ (s, nas) (reevaluate u tz f a send db now reasons).1 ↔ (
      (policies : List CompiledPolicy) × (load_policies u db.policies ≡ ok policies)
      × Memᴰ s db.sessions
      × (s.decision_digest ≢ "")
      × IsStale u tz f a (load_world db (live_sessions db) now) policies now s nas)
  reevaluate-mem = unfold reevaluate in after_load-mem (load_policies u db.policies)
