-- ===== src/Policy/Engine/Loading.antt =====
-- `load_policies` and `evaluate` of naco/policy/engine.py: the order of the stored policies, and
-- what an invalid one does.
use mathlib.Core.List.{Memᴰ}
use mathlib.Core.Bool.{true≢false}
use naco.Base.{
  All, All-keep, All-mem, All-sort_by, All-unkeep, All-unsort_by, All-weaken, Bool-cases,
  IsSortedBy, List, Result, Result-cases, Unicode, [], ap, arith, bind-ok, err, false,
  if◌then◌else◌, inl, inr, keep, ok, ok-inj, sort_by-IsSortedBy, subst, sym, true, ◌>>=◌, ◌∙◌, ◌∷◌,
  ◌≡◌, ◌≢◌,
}
use naco.Policy.Context.{AuthContext, Decision, accepted, deny}
use naco.Models.{PolicyAction}
use naco.Policy.Conditions.{Zone}
use naco.Policy.Engine.{
  CompiledPolicy, Policy, PolicyLoadError, compile_all, compile_policy, decide, decision_of,
  enabled_rows, evaluate, is_before, load_policies, order_by_priority, policy_matches,
}
use naco.Policy.Engine.FirstMatch.{decision_of-accepted, default-denies}

is_before_refl : (p : Policy) → is_before p p ≡ true
unfolding is_before
is_before_refl p = ground arith

is_before_total : (p q : Policy) → is_before p q ≡ false → is_before q p ≡ true
unfolding is_before
is_before_total p q h = ground arith

is_before_trans :
    (p q r : Policy) → is_before p q ≡ true → is_before q r ≡ true → is_before p r ≡ true
unfolding is_before
is_before_trans p q r h k = ground arith

deny-refuses : accepted (deny "policy configuration error") ≢ true
unfolding deny
deny-refuses h = ground arith

module _ (u : Unicode) where
  compile_all_cons :
      (row : Policy) (rows : List Policy) (ps : List CompiledPolicy)
      → compile_all u (row ∷ rows) ≡ ok ps
      → (p : CompiledPolicy) × (qs : List CompiledPolicy) × (compile_policy u row ≡ ok p)
        × (compile_all u rows ≡ ok qs)
        × (p ∷ qs ≡ ps)
  unfolding compile_all
  compile_all_cons row rows ps h =
      let (p, e, k) =
        bind-ok (compile_policy u row) (λ p. compile_all u rows >>= λ qs. ok (p ∷ qs)) ps h in
      let (qs, f, l) = bind-ok (compile_all u rows) (λ qs. ok (p ∷ qs)) ps k in
      (p, qs, e, f, ok-inj l)

  pub compile_policy_fields :
      (row : Policy) (p : CompiledPolicy)
      → compile_policy u row ≡ ok p
      → (p.action ≡ row.action) × (p.id ≡ row.id) × (p.vlan ≡ row.vlan)
  unfolding compile_policy
  compile_policy_fields row p h = ground arith

  -- a row whose policy does not match
  pub IsPassed : AuthContext → Zone → Policy → Type 0
  IsPassed ctx tz row =
      (q : CompiledPolicy) × (compile_policy u row ≡ ok q) × (policy_matches u q ctx tz ≡ false)

  -- a row whose policy grants access with `d`
  pub IsGrantedBy : AuthContext → Zone → Decision → Policy → Type 0
  IsGrantedBy ctx tz d row =
      (p : CompiledPolicy) × (compile_policy u row ≡ ok p)
      × (policy_matches u p ctx tz ≡ true)
      × (p.action ≡ PolicyAction.permit)
      × (d ≡ decision_of p)

  -- `P` holds of a row that grants access with the decision of the policies, and every row that
  -- comes strictly before it is passed over
  pub IsGrantedAmong : AuthContext → Zone → List Policy → Decision → (Policy → Type 0) → Type 0
  IsGrantedAmong ctx tz rows d P =
      (row : Policy) × P row
      × IsGrantedBy ctx tz d row
      × All (λ other. is_before row other ≡ false → IsPassed ctx tz other) rows

  module _ (ctx : AuthContext) (tz : Zone) (P : Policy → Type 0) where
    granted_step :
        (r : Policy) (rows : List Policy) (p : CompiledPolicy) (qs : List CompiledPolicy)
        → IsSortedBy is_before (r ∷ rows)
        → compile_policy u r ≡ ok p
        → P r
        → (accepted (decide u qs ctx tz) ≡ true → IsGrantedAmong ctx tz rows (decide u qs ctx tz) P)
        → accepted (decide u (p ∷ qs) ctx tz) ≡ true
        → IsGrantedAmong ctx tz (r ∷ rows) (decide u (p ∷ qs) ctx tz) P
    unfolding decide IsGrantedAmong IsGrantedBy IsPassed
    granted_step r rows p qs s f a ih h = elim (Bool-cases (policy_matches u p ctx tz)) [
      | inl e ↦
          let d =
            ap (λ b. if b then decision_of p else decide u qs ctx tz)
              {x = policy_matches u p ctx tz} {y = true} e in
          (
            r,
            a,
            (
              p,
              f,
              e,
              (decision_of-accepted p (sym (ap (λ (v : Decision). accepted v) d) ∙ h)).0,
              d,
            ),
            (
              λ k. absurd (true≢false (sym (is_before_refl r) ∙ k)),
              All-weaken (λ o. is_before r o ≡ true)
                  (λ o. is_before r o ≡ false → IsPassed ctx tz o)
                  (λ o t k. absurd (true≢false (sym t ∙ k))) rows s.0,
            ),
          )
      | inr e ↦
          let d =
            ap (λ b. if b then decision_of p else decide u qs ctx tz)
              {x = policy_matches u p ctx tz} {y = false} e in
          let (row, b, (q, g, m, c, v), w) = ih (sym (ap (λ (v : Decision). accepted v) d) ∙ h) in
          (row, b, (q, g, m, c, d ∙ v), (λ k. (p, f, e), w))
    ]

    granted :
        (rows : List Policy) (ps : List CompiledPolicy)
        → IsSortedBy is_before rows
        → All P rows
        → compile_all u rows ≡ ok ps
        → accepted (decide u ps ctx tz) ≡ true
        → IsGrantedAmong ctx tz rows (decide u ps ctx tz) P
    unfolding compile_all decide
    granted [] ps s a e h =
        absurd
          (default-denies (subst (λ qs. accepted (decide u qs ctx tz) ≡ true) (sym (ok-inj e)) h))
    granted (r ∷ rows) ps s a e h =
        let (p, qs, f, g, k) = compile_all_cons r rows ps e in
        subst
          (λ ps.
            accepted (decide u ps ctx tz) ≡ true
            → IsGrantedAmong ctx tz (r ∷ rows) (decide u ps ctx tz) P)
          k (granted_step r rows p qs s f a.0 (granted rows qs s.1 a.1 g)) h

  -- Live decisions, from the stored rows: when `evaluate` accepts, some enabled stored policy
  -- compiles to a PERMIT policy that matches and whose decision is the answer, and every enabled
  -- stored policy that `ORDER BY priority, id` puts strictly before it compiles and does not match.
  pub evaluate-accepted :
      (ctx : AuthContext) (tz : Zone) (rows : List Policy)
      → accepted (evaluate u rows ctx tz) ≡ true
      → (row : Policy) × (Memᴰ row rows × (row.enabled ≡ true))
        × IsGrantedBy ctx tz (evaluate u rows ctx tz) row
        × All
            (λ other. other.enabled ≡ true → is_before row other ≡ false → IsPassed ctx tz other)
            rows
  unfolding evaluate load_policies enabled_rows order_by_priority IsGrantedAmong
  evaluate-accepted ctx tz rows h =
      let enabled = keep (λ (r : Policy). r.enabled) rows in
      elim (Result-cases (compile_all u (order_by_priority enabled))) [
        | inl (ps, e) ↦
            let d = ap (λ r. outcome r) e in
            let (row, b, g, w) =
              granted ctx tz (λ r. Memᴰ r rows × (r.enabled ≡ true)) (order_by_priority enabled) ps
                (sort_by-IsSortedBy is_before is_before_total is_before_trans enabled)
                (All-sort_by is_before (λ r. Memᴰ r rows × (r.enabled ≡ true)) enabled
                  (All-keep (λ r. Memᴰ r rows) (λ (r : Policy). r.enabled) rows (All-mem rows)))
                e (sym (ap (λ (v : Decision). accepted v) d) ∙ h) in
            (
              row,
              b,
              subst (λ v. IsGrantedBy ctx tz v row) (sym d) g,
              All-unkeep (λ o. is_before row o ≡ false → IsPassed ctx tz o)
                  (λ (r : Policy). r.enabled) rows
                  (All-unsort_by is_before (λ o. is_before row o ≡ false → IsPassed ctx tz o)
                    enabled w),
            )
        | inr (x, e) ↦
            absurd
              (deny-refuses (sym (ap (λ (v : Decision). accepted v) (ap (λ r. outcome r) e)) ∙ h))
      ]
    where
      outcome : Result PolicyLoadError (List CompiledPolicy) → Decision
      outcome r = elim r [
        | err e ↦ deny "policy configuration error"
        | ok policies ↦ decide u policies ctx tz
      ]
