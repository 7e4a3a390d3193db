-- ===== src/Tacacs/Authz/Requests.antt =====
-- `parse_args`, `command_line` and `load_command_set` of naco/tacacs/authz.py, and `authorize` of
-- naco/tacacs/server.py. `attributes_for` stands
-- for `service_attributes`.
use mathlib.Core.Bool.{true≢false}
use Prim.Native.String.{String}
use naco.Base.{
  Bool, Bool-cases, Dict, List, Option, String, Unicode, [], ap, clip, codes, false, get,
  if◌then◌else◌, inl, inr, is_empty, is_some, join, keep, leb, map, min, none, not, or_else, put,
  refl, some, sort_by, str_eq, strip, suc, sym, true, zero, ℕ, ◌++◌, ◌+◌, ◌==◌, ◌∙◌, ◌∷◌, ◌≡◌,
}
use naco.Models.{CommandRule, CommandSet}
use naco.Aaa.Identity.{UserInfo}
use naco.Tacacs.Wire.Bodies.{Request}
use naco.Tacacs.Authz.Commands.{admin_rights-allowed}
use naco.Tacacs.Authz.{CompiledCommandSet, admin_rights, command_allowed}

-- `pair.find(c)`
pub find_char : ℕ → List ℕ → Option ℕ
find_char c [] = none
find_char c (d ∷ s) =
    let rest = find_char c s in
    if d == c then some 0 else elim rest [ none ↦ none | some i ↦ some (i + 1) ]

-- the positions above 0
pub inner : Option ℕ → Option ℕ
inner none = none
inner (some i) = if i == 0 then none else some i

pub least : Option ℕ → Option ℕ → Option ℕ
least none o = o
least (some i) none = some i
least (some i) (some j) = some (min i j)

-- the place of the first separator
pub separator : List ℕ → Option ℕ
unfolding find_char inner least
separator pair = least (inner (find_char b'=' pair)) (inner (find_char b'*' pair))

-- `pair[n:]`
pub skip : ℕ → String → String
skip zero s = s
skip (suc n) String.[] = String.[]
skip (suc n) (String.◌∷◌ c s) = skip n s

-- `attrs.setdefault(key, value)`
pub set_default : Dict String → String → String → Dict String
set_default d k v = if is_some (get d k) then d else put d k v

-- the rules of a set, `ORDER BY position`
pub rules_of : ℕ → List CommandRule → List CommandRule
rules_of id rules =
    sort_by (λ r q. leb r.position q.position) (keep (λ r. r.command_set_id == id) rules)

pub find_set : List CommandSet → ℕ → Option CommandSet
find_set [] id = none
find_set (s ∷ sets) id = let rest = find_set sets id in if s.id == id then some s else rest

-- `load_command_set`
pub load_command_set : List CommandSet → List CommandRule → Option ℕ → Option CompiledCommandSet
unfolding find_set rules_of
load_command_set sets rules none = none
load_command_set sets rules (some id) = elim (find_set sets id) [
  | none ↦ none
  | some s ↦ some (record {
    name = s.name;
    default = s.default_action;
    rules = map (λ (r : CommandRule). (r.action, r.pattern)) (rules_of s.id rules);
  })
]

module _ (u : Unicode) (words : String → String) where
  -- one step of `parse_args`
  pub add_pair : String → Dict String × List String → Dict String × List String
  unfolding separator set_default strip skip
  add_pair pair (attrs, cmd_args) = elim (separator (codes pair)) [
    | none ↦ (attrs, cmd_args)
    | some i ↦
        let key = u.lower (strip u (clip i pair)) in
        let value = skip (i + 1) pair in
        if str_eq key "cmd-arg"
        then (attrs, cmd_args ++ value ∷ [])
        else (set_default attrs key value, cmd_args)
  ]

  -- `parse_args`
  pub parse_args : List String → Dict String × List String → Dict String × List String
  unfolding add_pair
  parse_args [] parsed = parsed
  parse_args (a ∷ args) parsed = parse_args args (add_pair a parsed)

  -- the arguments without `<cr>`, each after a space
  pub spaced : List String → String
  spaced [] = ""
  spaced (a ∷ args) =
      let rest = spaced args in if str_eq a "<cr>" then rest else join " " (join a rest)

  -- `command_line`; `words` joins the words of a text with single spaces
  pub command_line : String → List String → String
  unfolding spaced
  command_line cmd cmd_args = words (join cmd (spaced cmd_args))

  -- a grant carries the attributes of the reply
  pub data Answer : Type 0 where
    fail : String → Answer
    pass_add : List String → Answer

  -- a command, against the command set of the group
  pub answer_command : List CommandSet → List CommandRule → UserInfo → String → Answer
  unfolding load_command_set command_allowed
  answer_command sets rules x line =
      let v = command_allowed u words line (load_command_set sets rules x.command_set_id) in
      if v.allowed then pass_add [] else fail v.reason

  -- a service other than the shell: only what the group spells out
  pub answer_service : List String → Answer
  answer_service [] = fail "no attributes for service"
  answer_service (a ∷ extra) = pass_add (a ∷ extra)

  -- `authorize` for the account of `lookup_user`; `level_text` prints `priv-lvl=` with the level
  unfoldable pub authorize :
      (UserInfo → String → List String)
      → (Option ℕ → String)
      → List CommandSet
      → List CommandRule
      → Option UserInfo
      → Request
      → Answer
  unfolding parse_args command_line answer_command answer_service admin_rights
  authorize attributes_for level_text sets rules none req = fail "unknown user"
  authorize attributes_for level_text sets rules (some x) req =
      let (attrs, cmd_args) = parse_args req.args ([], []) in
      let cmd = or_else (get attrs "cmd") "" in
      let service = or_else (get attrs "service") "" in
      let rights = admin_rights (some x) in
      if not rights.allowed
      then fail rights.reason
      else if not (str_eq (u.lower service) "shell")
      then answer_service (attributes_for x service)
      else if is_empty cmd
      then pass_add (level_text x.device_admin_privilege ∷ attributes_for x "shell")
      else answer_command sets rules x (command_line cmd cmd_args)

  abbrev pub is_granted : Answer → Bool
  is_granted (fail reason) = false
  is_granted (pass_add args) = true

  granted_unless :
      (b : Bool) (reason : String) (a : Answer)
      → is_granted (let r : Answer = if not b then fail reason else a in r) ≡ true
      → (b ≡ true) × (is_granted a ≡ true)
  granted_unless true reason a h = (refl, h)
  granted_unless false reason a h = absurd (true≢false (sym h))

  shell_or_service :
      (b : Bool) (s a : Answer)
      → is_granted (let r : Answer = if not b then s else a in r) ≡ true
      → b ≡ true
      → is_granted a ≡ true
  shell_or_service true s a h k = h
  shell_or_service false s a h k = absurd (true≢false (sym k))

  when_command :
      (b : Bool) (s a : Answer)
      → is_granted (let r : Answer = if b then s else a in r) ≡ true
      → b ≡ false
      → is_granted a ≡ true
  when_command true s a h k = absurd (true≢false k)
  when_command false s a h k = h

  answer_command-allowed :
      (sets : List CommandSet) (rules : List CommandRule) (x : UserInfo) (line : String)
      → is_granted (answer_command sets rules x line) ≡ true
      → (command_allowed u words line (load_command_set sets rules x.command_set_id)).allowed ≡ true
  unfolding answer_command
  answer_command-allowed sets rules x line h =
      elim (Bool-cases
        (command_allowed u words line (load_command_set sets rules x.command_set_id)).allowed) [
          | inl e ↦ e
          | inr e ↦ absurd (true≢false (sym h ∙ ap (λ b. is_granted (answered b)) e))
        ]
    where
      answered : Bool → Answer
      answered b =
          if b
          then pass_add []
          else fail
              (command_allowed u words line (load_command_set sets rules x.command_set_id)).reason

  -- TACACS+ authorization grants only to device administrators, and only allowed commands: when
  -- `authorize` answers with a grant, the account was found, is enabled and has a level, and if the
  -- request asks the shell for a command, the command set of its group allows the command line.
  pub authorize-granted :
      (attributes_for : UserInfo → String → List String) (level_text : Option ℕ → String)
      (sets : List CommandSet) (rules : List CommandRule) (user : Option UserInfo) (req : Request)
      → is_granted (authorize attributes_for level_text sets rules user req) ≡ true
      → (x : UserInfo) × (user ≡ some x)
        × (x.enabled ≡ true)
        × ((level : ℕ) × (x.device_admin_privilege ≡ some level))
        × (let p = parse_args req.args ([], []) in
            str_eq (u.lower (or_else (get p.0 "service") "")) "shell" ≡ true
            → is_empty (or_else (get p.0 "cmd") "") ≡ false
            → (command_allowed u words
                (command_line (or_else (get p.0 "cmd") "") p.1)
                (load_command_set sets rules x.command_set_id)).allowed
              ≡ true)
  unfolding authorize
  authorize-granted attributes_for level_text sets rules none req h = absurd (true≢false (sym h))
  authorize-granted attributes_for level_text sets rules (some x) req h =
      let p = parse_args req.args ([], []) in
      let cmd = or_else (get p.0 "cmd") "" in
      let service = or_else (get p.0 "service") "" in
      let command = answer_command sets rules x (command_line cmd p.1) in
      let shell : Answer =
        if is_empty cmd
        then pass_add (level_text x.device_admin_privilege ∷ attributes_for x "shell")
        else command in
      let is_shell = str_eq (u.lower service) "shell" in
      let other = answer_service (attributes_for x service) in
      let (e, g) =
        granted_unless (admin_rights (some x)).allowed (admin_rights (some x)).reason
          (if not is_shell then other else shell) h in
      let (on, level) = admin_rights-allowed x e in
      (
        x,
        refl,
        on,
        level,
        λ s c. answer_command-allowed sets rules x (command_line cmd p.1) (
            when_command (is_empty cmd)
              (pass_add (level_text x.device_admin_privilege ∷ attributes_for x "shell")) command
              (shell_or_service is_shell other shell g s) c),
      )
