-- ===== src/Tacacs/Authz/Commands.antt =====
-- Which rule of a command set decides: `command_allowed` of naco/tacacs/authz.py.
use naco.Base.{
  All, Bool-cases, List, String, Unicode, [], ap, arith, false, if◌then◌else◌, inl, inr, none,
  or_else, refl, some, true, ℕ, ◌∙◌, ◌∷◌, ◌≡◌, ◌≤◌, ◌⊎◌,
}
use naco.Models.{CommandAction}
use naco.Aaa.Identity.{UserInfo}
use naco.Tacacs.Authz.{
  CompiledCommandSet, admin_rights, command_allowed, first_rule, is_permit, privilege_allowed,
  rule_matches,
}

module _ (u : Unicode) (words : String → String) where
  -- `Governs folded rules action`: the first rule that matches the line has this action
  pub data Governs (folded : String) (action : CommandAction)
      : List (CommandAction × String) → Type 0 where
    here :
        {pattern : String} {rules : List (CommandAction × String)}
        → rule_matches u words folded pattern ≡ true
        → Governs folded action ((action, pattern) ∷ rules)
    there :
        {rule : CommandAction × String} {rules : List (CommandAction × String)}
        → rule_matches u words folded rule.1 ≡ false
        → Governs folded action rules
        → Governs folded action (rule ∷ rules)

  first_rule-Governs :
      (folded : String) (rules : List (CommandAction × String))
      → ((r : CommandAction × String) × (first_rule u words folded rules ≡ some r)
          × Governs folded r.0 rules)
        ⊎ ((first_rule u words folded rules ≡ none)
            × All (λ (r : CommandAction × String). rule_matches u words folded r.1 ≡ false) rules)
  unfolding first_rule
  first_rule-Governs folded [] = inr (refl, tt)
  first_rule-Governs folded ((action, pattern) ∷ rules) =
      elim (Bool-cases (rule_matches u words folded pattern)) [
        | inl e ↦ inl (
          (action, pattern),
          ap (λ b. if b then some (action, pattern) else first_rule u words folded rules) e,
          here e,
        )
        | inr e ↦ elim (first_rule-Governs folded rules) [
          | inl (r, f, g) ↦ inl (
            r,
            ap (λ b. if b then some (action, pattern) else first_rule u words folded rules) e ∙ f,
            there e g,
          )
          | inr (f, g) ↦ inr (
            ap (λ b. if b then some (action, pattern) else first_rule u words folded rules) e ∙ f,
            (e, g),
          )
        ]
      ]

  -- Command authorization is first match with a default: for any line and command set, either the
  -- first rule whose pattern matches the line decides by its action, or no rule matches and the
  -- set's default decides.
  pub command_allowed-Governs :
      (line : String) (s : CompiledCommandSet)
      → ((action : CommandAction) × Governs (u.casefold line) action s.rules
          × ((command_allowed u words line (some s)).allowed ≡ is_permit action))
        ⊎ (All
              (λ (r : CommandAction × String). rule_matches u words (u.casefold line) r.1 ≡ false)
              s.rules
            × ((command_allowed u words line (some s)).allowed ≡ is_permit s.default))
  unfolding command_allowed
  command_allowed-Governs line s = elim (first_rule-Governs (u.casefold line) s.rules) [
    | inl (r, f, g) ↦ inl (r.0, g, rw (f, command_allowed) refl)
    | inr (f, g) ↦ inr (g, rw (f, command_allowed) refl)
  ]

pub admin_rights-allowed :
    (x : UserInfo)
    → (admin_rights (some x)).allowed ≡ true
    → (x.enabled ≡ true) × ((level : ℕ) × (x.device_admin_privilege ≡ some level))
unfolding admin_rights
admin_rights-allowed x h = ground arith

pub privilege_allowed-le :
    (x : UserInfo) (requested : ℕ)
    → (privilege_allowed x requested).allowed ≡ true
    → requested ≤ or_else x.device_admin_privilege 0
unfolding privilege_allowed
privilege_allowed-le x requested h = ground arith
