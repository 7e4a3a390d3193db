-- ===== src/Tacacs/Authz.antt =====
-- naco/tacacs/authz.py: who may administer devices, and which commands.
pub mod Commands
pub mod Requests
use naco.Models.{CommandAction}
use naco.Base.{
  Bool, List, Option, String, Unicode, [], false, if◌then◌else◌, is_some, join, ltb, none, not,
  or_else, some, true, ℕ, ◌∷◌,
}
use naco.Aaa.Identity.{UserInfo}

pub record Verdict : Type 0 where
  pub allowed : Bool
  pub reason : String

pub record CompiledCommandSet : Type 0 where
  pub name : String
  pub default : CommandAction
  pub rules : List (CommandAction × String)

abbrev pub refused : String → Verdict
refused reason = record { allowed = false; reason = reason }

abbrev pub granted : String → Verdict
granted reason = record { allowed = true; reason = reason }

unfoldable pub admin_rights : Option UserInfo → Verdict
admin_rights none = refused "unknown user"
admin_rights (some x) =
    if not x.enabled
    then refused "user disabled"
    else if is_some x.device_admin_privilege
    then granted "ok"
    else refused "no device-administration rights"

-- the reason names both levels
unfoldable pub privilege_allowed : UserInfo → ℕ → Verdict
privilege_allowed x requested =
    if ltb (or_else x.device_admin_privilege 0) requested
    then refused "privilege requested beyond the granted one"
    else granted "ok"

abbrev pub is_permit : CommandAction → Bool
is_permit CommandAction.permit = true
is_permit CommandAction.deny = false

abbrev pub action_word : CommandAction → String
action_word CommandAction.permit = "permit"
action_word CommandAction.deny = "deny"

-- `words` is `" ".join(s.split())`
module _ (u : Unicode) (words : String → String) where
  pub rule_matches : String → String → Bool
  rule_matches folded pattern = u.fnmatchcase folded (u.casefold (words pattern))

  -- the loop of `command_allowed` over the rules
  pub first_rule : String → List (CommandAction × String) → Option (CommandAction × String)
  unfolding rule_matches
  first_rule folded [] = none
  first_rule folded ((action, pattern) ∷ rules) =
      let rest = first_rule folded rules in
      if rule_matches folded pattern then some (action, pattern) else rest

  pub command_allowed : String → Option CompiledCommandSet → Verdict
  unfolding first_rule
  command_allowed line none = granted "no command set: privilege level governs"
  command_allowed line (some s) = elim (first_rule (u.casefold line) s.rules) [
    | some (action, pattern) ↦ record {
      allowed = is_permit action;
      reason = join (action_word action) (join " by rule '" (join pattern "'"));
    }
    | none ↦ record {
      allowed = is_permit s.default;
      reason = join (action_word s.default) (join " by default of " s.name);
    }
  ]
