-- ===== src/Policy/Engine.antt =====
-- naco/policy/engine.py: first-match evaluation of the stored policies, default deny. A row is what
-- `policies` holds; the rows come from the database in any order.
pub mod FirstMatch
pub mod Loading
use naco.Base.{
  Bool, Dict, List, Option, Result, String, Unicode, [], all_of, err, if◌then◌else◌, join, keep,
  leb, ltb, map, ok, some, sort_by, ℕ, ◌&&◌, ◌==◌, ◌>>=◌, ◌>>◌, ◌||◌, ◌∷◌,
}
use naco.Policy.Context.{AttrValue, AuthContext, Decision, deny, deny_by}
use naco.Models.{PolicyAction}
use naco.Policy.Conditions.{Condition, RawCondition, Zone, condition_matches, parse_conditions}
use naco.Policy.Attributes.{RawAttr, validate_reply_attributes}

-- the class `Policy` of naco/db/models.py, as far as decisions read it
pub record Policy : Type 0 where
  pub id : ℕ
  pub name : String
  pub priority : ℕ
  pub enabled : Bool
  pub conditions : List RawCondition
  pub action : PolicyAction
  pub vlan : Option ℕ
  pub reply_attributes : Dict RawAttr

pub record CompiledPolicy : Type 0 where
  pub id : ℕ
  pub name : String
  pub priority : ℕ
  pub action : PolicyAction
  pub vlan : Option ℕ
  pub reply_attributes : Dict AttrValue
  pub conditions : List Condition

pub record PolicyTrace : Type 0 where
  pub policy : CompiledPolicy
  pub matched : Bool
  pub conditions : List (Condition × Bool)

pub data PolicyLoadError : Type 0 where
  invalid : String → PolicyLoadError

-- where a policy comes in `ORDER BY priority, id`
pub is_before : Policy → Policy → Bool
is_before p q = ltb p.priority q.priority || (p.priority == q.priority && leb p.id q.id)

pub order_by_priority : List Policy → List Policy
unfolding is_before
order_by_priority rows = sort_by is_before rows

-- the rows of `load_policies`' query
pub enabled_rows : List Policy → List Policy
unfolding order_by_priority
enabled_rows rows = order_by_priority (keep (λ p. p.enabled) rows)

-- `for policy in policies`: the first policy that matches
pub no_policy_matched : Decision
unfolding deny
no_policy_matched = deny "no policy matched"

-- what `decide` returns for the policy that matches
pub decision_of : CompiledPolicy → Decision
unfolding deny_by
decision_of p = elim p.action [
  | PolicyAction.deny ↦ deny_by (join "denied by policy " p.name) (some p.id) p.name
  | PolicyAction.permit ↦ record {
    action = PolicyAction.permit;
    policy_id = some p.id;
    policy_name = p.name;
    reason = join "permitted by policy " p.name;
    vlan = p.vlan;
    reply_attributes = p.reply_attributes;
  }
]

module _ (u : Unicode) where
  -- `compile_policy`
  pub compile_policy : Policy → Result PolicyLoadError CompiledPolicy
  unfolding validate_reply_attributes parse_conditions
  compile_policy row = elim (validate_reply_attributes u row.reply_attributes) [
    | err e ↦ err (invalid row.name)
    | ok attributes ↦ elim (parse_conditions u row.conditions) [
      | err e ↦ err (invalid row.name)
      | ok conditions ↦ ok (record {
        id = row.id;
        name = row.name;
        priority = row.priority;
        action = row.action;
        vlan = row.vlan;
        reply_attributes = attributes;
        conditions = conditions;
      })
    ]
  ]

  -- `_matches`
  pub policy_matches : CompiledPolicy → AuthContext → Zone → Bool
  unfolding condition_matches
  policy_matches p ctx tz = all_of (λ c. condition_matches u c ctx tz) p.conditions

  unfoldable pub decide : List CompiledPolicy → AuthContext → Zone → Decision
  unfolding policy_matches decision_of no_policy_matched
  decide [] ctx tz = no_policy_matched
  decide (p ∷ policies) ctx tz =
      let rest = decide policies ctx tz in if policy_matches p ctx tz then decision_of p else rest

  -- `explain`; a condition stands for its label
  pub trace : CompiledPolicy → AuthContext → Zone → PolicyTrace
  unfolding condition_matches
  trace p ctx tz =
      let results = map (λ c. (c, condition_matches u c ctx tz)) p.conditions in
      record { policy = p; matched = all_of (λ r. r.1) results; conditions = results }

  pub explain : List CompiledPolicy → AuthContext → Zone → List PolicyTrace
  unfolding trace
  explain [] ctx tz = []
  explain (p ∷ policies) ctx tz = trace p ctx tz ∷ explain policies ctx tz

  pub compile_all : List Policy → Result PolicyLoadError (List CompiledPolicy)
  unfolding compile_policy
  compile_all [] = ok []
  compile_all (row ∷ rows) = do p ← compile_policy row; ps ← compile_all rows; ok (p ∷ ps)

  unfoldable pub load_policies : List Policy → Result PolicyLoadError (List CompiledPolicy)
  unfolding enabled_rows compile_all
  load_policies rows = compile_all (enabled_rows rows)

  unfoldable pub evaluate : List Policy → AuthContext → Zone → Decision
  unfolding load_policies decide deny
  evaluate rows ctx tz = elim (load_policies rows) [
    | err e ↦ deny "policy configuration error"
    | ok policies ↦ decide policies ctx tz
  ]
