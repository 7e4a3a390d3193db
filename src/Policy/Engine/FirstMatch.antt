-- ===== src/Policy/Engine/FirstMatch.antt =====
-- `decide`, `explain` and the decisions of naco/policy/engine.py: the first policy that matches.
use naco.Base.{
  All, Bool, Bool-cases, List, Unicode, [], all_of, ap, arith, false, if◌then◌else◌, inl, inr, map,
  refl, some, sym, true, ◌&&◌, ◌∙◌, ◌∷◌, ◌≡◌, ◌≢◌, ◌⊎◌,
}
use naco.Policy.Context.{AuthContext, Decision, accepted, deny, deny_by}
use naco.Models.{PolicyAction}
use naco.Policy.Conditions.{Condition, Zone, condition_matches}
use naco.Policy.Engine.{
  CompiledPolicy, PolicyTrace, decide, decision_of, explain, no_policy_matched, policy_matches,
  trace,
}

-- `p` is the first of the policies that passes the test
pub data IsFirst (test : CompiledPolicy → Bool) (p : CompiledPolicy)
    : List CompiledPolicy → Type 0 where
  here : {policies : List CompiledPolicy} → test p ≡ true → IsFirst test p (p ∷ policies)
  there :
      {q : CompiledPolicy} {policies : List CompiledPolicy}
      → test q ≡ false
      → IsFirst test p policies
      → IsFirst test p (q ∷ policies)

-- What the traces of the simulator say the decision is.
pub first_traced : List PolicyTrace → Decision
first_traced [] = no_policy_matched
first_traced (t ∷ traces) =
    let rest = first_traced traces in if t.matched then decision_of t.policy else rest

pub decision_of-accepted :
    (p : CompiledPolicy)
    → accepted (decision_of p) ≡ true
    → (p.action ≡ PolicyAction.permit)
      × ((decision_of p).policy_id ≡ some p.id)
      × ((decision_of p).vlan ≡ p.vlan)
      × ((decision_of p).reply_attributes ≡ p.reply_attributes)
unfolding decision_of deny_by
decision_of-accepted p h = ground arith

pub default-denies : accepted no_policy_matched ≢ true
unfolding no_policy_matched deny
default-denies h = ground arith

module _ (u : Unicode) (ctx : AuthContext) (tz : Zone) where
  all-results :
      (cs : List Condition)
      → all_of (λ (r : Condition × Bool). r.1) (map (λ c. (c, condition_matches u c ctx tz)) cs)
        ≡ all_of (λ c. condition_matches u c ctx tz) cs
  all-results [] = refl
  all-results (c ∷ cs) = ap (λ b. condition_matches u c ctx tz && b) (all-results cs)

  -- The simulator agrees with the live decision: on any policies and any context, `decide` returns
  -- the decision of the first policy whose trace from `explain` says that it matched, and the
  -- default denial when no trace says so.
  pub decide-explain :
      (policies : List CompiledPolicy)
      → decide u policies ctx tz ≡ first_traced (explain u policies ctx tz)
  unfolding decide explain trace policy_matches first_traced
  decide-explain [] = refl
  decide-explain (p ∷ policies) = rw (all-results p.conditions, decide-explain policies) refl

  pub decide-IsFirst :
      (policies : List CompiledPolicy)
      → ((p : CompiledPolicy) × IsFirst (λ q. policy_matches u q ctx tz) p policies
          × (decide u policies ctx tz ≡ decision_of p))
        ⊎ (All (λ q. policy_matches u q ctx tz ≡ false) policies
            × (decide u policies ctx tz ≡ no_policy_matched))
  unfolding decide
  decide-IsFirst [] = inr (tt, refl)
  decide-IsFirst (p ∷ policies) = elim (Bool-cases (policy_matches u p ctx tz)) [
    | inl e ↦ inl (p, here e, rw e refl)
    | inr e ↦ elim (decide-IsFirst policies) [
      | inl (q, f, d) ↦ inl (q, there e f, rw (e, d) refl)
      | inr (f, d) ↦ inr ((e, f), rw (e, d) refl)
    ]
  ]

  -- Access is granted only by a policy: when `decide` accepts, the first policy that matches is a
  -- PERMIT policy, and the decision carries its id, its VLAN and its reply attributes.
  pub decide-accepted :
      (policies : List CompiledPolicy)
      → accepted (decide u policies ctx tz) ≡ true
      → (p : CompiledPolicy) × IsFirst (λ q. policy_matches u q ctx tz) p policies
        × (p.action ≡ PolicyAction.permit)
        × ((decide u policies ctx tz).policy_id ≡ some p.id)
        × ((decide u policies ctx tz).vlan ≡ p.vlan)
        × ((decide u policies ctx tz).reply_attributes ≡ p.reply_attributes)
  decide-accepted policies h = elim (decide-IsFirst policies) [
    | inl (p, f, d) ↦
        let (a, i, v, r) = decision_of-accepted p (sym (ap (λ (e : Decision). accepted e) d) ∙ h) in
        (p, f, a, rw d i, rw d v, rw d r)
    | inr (f, d) ↦ absurd (default-denies (sym (ap (λ (e : Decision). accepted e) d) ∙ h))
  ]
