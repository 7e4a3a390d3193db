-- ===== src/Tests/Access.antt =====
-- Authorization, policies and logins at concrete inputs: one enabled account, one group, and a
-- policy that permits everybody.
use mathlib.Core.List.{Memᴰ}
use naco.Base.{
  All, String, Unicode, [], false, get, is_empty, none, or_else, refl, some, str_eq, true, ℕ, ◌∷◌,
  ◌≡◌, ◌⊎◌,
}
use naco.Policy.Context.{AuthContext, AuthMethod, accepted}
use naco.Models.{CommandAction, CommandSet, Group, NasClient, PolicyAction, User, UserSource}
use naco.Policy.Conditions.{Condition, RawCondition, Zone}
use naco.Policy.Engine.{CompiledPolicy, Policy, decide, evaluate, explain, is_before}
use naco.Policy.Engine.FirstMatch.{decide-explain, first_traced}
use naco.Policy.Engine.Loading.{IsGrantedBy, IsPassed, evaluate-accepted}
use naco.Aaa.Identity.{LdapAnswer, Tables, UserInfo, World, authenticate_user, canonical_username}
use naco.Aaa.Identity.Logins.{IsVouched, authenticate_user-IsSound}
use naco.Aaa.Service.Verified.{recently_verified}
use naco.Aaa.Service.{verified_key, Database, RequestInfo, decide_request}
use naco.Aaa.Service.Rules.{HasPassed, decide_request-HasPassed}
use naco.RateLimit.Delay.{ProgressiveDelay}
use naco.RateLimit.Guard.{GuessGuard}
use naco.Tacacs.Wire.Bodies.{AuthenStart, Request}
use naco.Tacacs.Authz.{CompiledCommandSet, command_allowed, is_permit, rule_matches}
use naco.Tacacs.Authz.Commands.{Governs, command_allowed-Governs}
use naco.Tacacs.Authz.Requests.{
  authorize, authorize-granted, command_line, is_granted, load_command_set, parse_args,
}
use naco.Tacacs.Server.{State, status_pass, verify}
use naco.Tacacs.Server.Passes.{HasLevel, verify-pass}

abbrev plain : Unicode
plain = record {
  lower = λ s. s;
  casefold = λ s. s;
  is_space = λ c. false;
  fnmatchcase = λ text pattern. str_eq text pattern;
}

abbrev utc : Zone
utc = record { weekday = λ t. 0; minute = λ t. 0 }

abbrev staff : Group
staff = record {
  id = 1;
  name = "staff";
  device_admin_privilege = some 15;
  command_set_id = none;
  device_admin_attributes = [];
}

abbrev ann : User
ann = record {
  id = 7;
  username = "ann";
  source = UserSource.local;
  password_hash = some "hash";
  email = "";
  full_name = "";
  group_id = some 1;
  enabled = true;
  last_login_at = none;
}

abbrev accounts : Tables
accounts = record { users = ann ∷ []; groups = staff ∷ [] }

abbrev world : World
world = record {
  verify_password = λ p h. str_eq p "secret";
  ldap_enabled = false;
  ldap_authenticate = λ n p. LdapAnswer.refused;
  has_group_map = false;
  map_group = λ dns. none;
  now = 100;
  next_id = 8;
}

abbrev everybody : Policy
everybody = record {
  id = 3;
  name = "everybody";
  priority = 100;
  enabled = true;
  conditions = RawCondition.always ∷ [];
  action = PolicyAction.permit;
  vlan = some 20;
  reply_attributes = [];
}

abbrev database : Database
database = record { tables = accounts; devices = []; guests = []; policies = everybody ∷ [] }

abbrev switch : NasClient
switch = record {
  id = 1;
  name = "switch";
  ip_address = "10.0.0.1";
  secret = "s";
  coa_port = 3799;
  vendor = "standard";
  require_message_authenticator = true;
  enabled = true;
}

abbrev request : RequestInfo
request = record {
  method = some AuthMethod.eap_tls;
  nas_ip = "10.0.0.1";
  mac = none;
  ssid = none;
  calling_station = "";
}

abbrev context_of_ann : AuthContext
context_of_ann = record {
  auth_method = AuthMethod.eap_tls;
  username = "ann";
  group = some "staff";
  mac = none;
  device_status = none;
  device_type = "";
  vendor = "";
  nas_name = "switch";
  nas_ip = "10.0.0.1";
  ssid = none;
  now = 100;
}

abbrev compiled : CompiledPolicy
compiled = record {
  id = 3;
  name = "everybody";
  priority = 100;
  action = PolicyAction.permit;
  vlan = some 20;
  reply_attributes = [];
  conditions = Condition.always ∷ [];
}

evaluate-test : accepted (evaluate plain (everybody ∷ []) context_of_ann utc) ≡ true
unfolding evaluate
evaluate-test = refl

decide-test : accepted (decide plain (compiled ∷ []) context_of_ann utc) ≡ true
unfolding decide
decide-test = refl

decide_request-test :
    accepted
      (decide_request plain
        (λ m. "")
        utc
        database
        request
        (some switch)
        (some "ann")
        "ann"
        []
        0
        100).1
    ≡ true
unfolding decide_request
decide_request-test = refl

authenticate_user-test : (authenticate_user plain world accounts "ann" "secret").1.is_ok ≡ true
unfolding authenticate_user
authenticate_user-test = refl

decide_request-HasPassed_example :
    (method : AuthMethod) × (x : NasClient) × (request.method ≡ some method)
    × (some switch ≡ some x)
    × HasPassed plain
        (λ m. "")
        utc
        database
        request
        (some "ann")
        "ann"
        (recently_verified [] 0 (verified_key "ann" request))
        100
        method
        x
decide_request-HasPassed_example =
    decide_request-HasPassed plain (λ m. "") utc database request (some switch) (some "ann") "ann"
      [] 0 100 decide_request-test

evaluate-accepted_example :
    (row : Policy) × (Memᴰ row (everybody ∷ []) × (row.enabled ≡ true))
    × IsGrantedBy plain context_of_ann utc (evaluate plain (everybody ∷ []) context_of_ann utc) row
    × All
        (λ other.
          other.enabled ≡ true
          → is_before row other ≡ false
          → IsPassed plain context_of_ann utc other)
        (everybody ∷ [])
evaluate-accepted_example =
    evaluate-accepted plain context_of_ann utc (everybody ∷ []) evaluate-test

decide-explain_example :
    decide plain (compiled ∷ []) context_of_ann utc
    ≡ first_traced (explain plain (compiled ∷ []) context_of_ann utc)
decide-explain_example = decide-explain plain context_of_ann utc (compiled ∷ [])

authenticate_user-IsSound_example :
    (is_empty (canonical_username plain (some "ann")) ≡ false)
    × (is_empty "secret" ≡ false)
    × ((info : UserInfo) × ((authenticate_user plain world accounts "ann" "secret").1.user
          ≡ some info)
        × (info.enabled ≡ true)
        × ((authenticate_user plain world accounts "ann" "secret").1.username
            ≡ canonical_username plain (some "ann"))
        × IsVouched world accounts (canonical_username plain (some "ann")) "secret" info)
authenticate_user-IsSound_example =
    authenticate_user-IsSound plain world accounts "ann" "secret" authenticate_user-test

abbrev guard : GuessGuard
guard =
    let track : ProgressiveDelay = record {
      base = 1;
      cap_wait = 300;
      free = 5;
      forget = 900;
      max_keys = 50000;
      state = [];
    } in
    record {
      pair = track;
      identity = track;
      sources = [];
      spread = 10;
      window = 900;
      max_keys = 50000;
    }

abbrev state : State
state = record { failures = guard; tables = accounts; logins = [] }

abbrev start_enable : AuthenStart
start_enable = record {
  action = 1;
  priv_lvl = 15;
  authen_type = 2;
  authen_service = 2;
  user = "ann";
  port = "tty1";
  rem_addr = "10.1.1.1";
  payload = [];
}

verify-test :
    (verify plain world "10.0.0.1" (λ bytes. "") state start_enable "ann" "secret").1.status
    ≡ status_pass
unfolding verify
verify-test = refl

verify-pass_example :
    ((authenticate_user plain world accounts "ann" "secret").1.is_ok ≡ true)
    × HasLevel start_enable (authenticate_user plain world accounts "ann" "secret").1.user
verify-pass_example =
    verify-pass plain world "10.0.0.1" (λ bytes. "") state start_enable "ann" "secret" verify-test

abbrev read_only : CompiledCommandSet
read_only = record {
  name = "read-only";
  default = CommandAction.deny;
  rules = (CommandAction.permit, "show *") ∷ [];
}

command_allowed-Governs_example :
    ((action : CommandAction) × Governs plain (λ s. s) "show version" action read_only.rules
      × ((command_allowed plain (λ s. s) "show version" (some read_only)).allowed
          ≡ is_permit action))
    ⊎ (All
          (λ (r : CommandAction × String). rule_matches plain (λ s. s) "show version" r.1 ≡ false)
          read_only.rules
        × ((command_allowed plain (λ s. s) "show version" (some read_only)).allowed
            ≡ is_permit read_only.default))
command_allowed-Governs_example = command_allowed-Governs plain (λ s. s) "show version" read_only

abbrev ann_info : UserInfo
ann_info = record {
  id = 7;
  username = "ann";
  source = UserSource.local;
  enabled = true;
  group_id = some 1;
  group_name = some "staff";
  device_admin_privilege = some 15;
  command_set_id = some 1;
  device_admin_attributes = [];
}

abbrev open_set : CommandSet
open_set = record { id = 1; name = "open"; default_action = CommandAction.permit }

abbrev show_command : Request
show_command = record {
  flags = 0;
  authen_method = 6;
  priv_lvl = 1;
  authen_type = 1;
  authen_service = 1;
  user = "ann";
  port = "tty1";
  rem_addr = "10.1.1.1";
  args = "service=shell" ∷ "cmd=show" ∷ [];
}

authorize-test :
    is_granted plain
      (λ s. s)
      (authorize plain
        (λ s. s)
        (λ x s. [])
        (λ l. "")
        (open_set ∷ [])
        []
        (some ann_info)
        show_command)
    ≡ true
unfolding authorize
authorize-test = refl

authorize-granted_example :
    (x : UserInfo) × (some ann_info ≡ some x)
    × (x.enabled ≡ true)
    × ((level : ℕ) × (x.device_admin_privilege ≡ some level))
    × (let p = parse_args plain (λ s. s) show_command.args ([], []) in
        str_eq (or_else (get p.0 "service") "") "shell" ≡ true
        → is_empty (or_else (get p.0 "cmd") "") ≡ false
        → (command_allowed plain
            (λ s. s)
            (command_line plain (λ s. s) (or_else (get p.0 "cmd") "") p.1)
            (load_command_set (open_set ∷ []) [] x.command_set_id)).allowed
          ≡ true)
authorize-granted_example =
    authorize-granted plain (λ s. s) (λ x s. []) (λ l. "") (open_set ∷ []) [] (some ann_info)
      show_command authorize-test
