-- ===== src/Tests/SignIn.antt =====
-- Signing in, sessions, tokens and housekeeping at concrete inputs: one administrator whose password is
-- "correct horse" and whose one-time code is always 123456.
use naco.RateLimit.Delay.{ProgressiveDelay}
use naco.RateLimit.Guard.{GuessGuard}
use naco.RateLimit.Window.{SlidingWindow}
use naco.Maintenance.{
  Housekeeping, Retention, chunk_size, count, maintenance_pass, prune, prune_loop,
}
use naco.Api.Audit.{diff, field, hidden, same_value, values}
use naco.Api.Audit.Masked.{get-diff}
use naco.Events.{publish_all}
use naco.Events.Newest.{publish_all-empty}
use naco.Maintenance.Pruned.{prune_loop-ends, young}
use naco.Maintenance.Kept.{IsExpired, maintenance_pass-IsExact}
use mathlib.Core.List.{Memᴰ}
use naco.Api.SignIn.{LoginIn, Me, SignInState, SignInWorld, find_name, login, store_admin}
use naco.Api.SignIn.Factors.{HasFactor, login-IsSound}
use naco.Api.SignIn.Setup.{SetupState, SetupWorld, change_password, own_admin}
use naco.Api.SignIn.Setup.Revoked.{change_password-IsSound}
use naco.Base.{
  Bool, Dict, List, Option, String, Unicode, [], arith, drop, err, false, get, if◌then◌else◌,
  is_empty, length, ltb, mem_text, none, ok, or_empty, refl, some, str_eq, strip, text_length, true,
  ℕ, ◌*◌, ◌+◌, ◌-◌, ◌<◌, ◌==◌, ◌↔◌, ◌∷◌, ◌≡◌, ◌≤◌, ◌⊎◌,
}
use naco.Base.Utf8
use naco.Models.{
  AdminRole, AdminSession, AdminUser, AuditLog, AuthLog, GuestRegistration, RadiusSession,
  TacacsLog, admin_actor, rank,
}
use naco.Passwords.{
  Bcrypt, checked_against, hash_password, max_bytes, validate_admin_password, verify_password,
  verify_password_iff,
}
use naco.Api.Totp.{clean_code, is_ascii, match, not_ascii, second}
use naco.Api.Totp.Replay.{IsCode, IsLater, IsNear, match-raises_iff, match-taken}
use naco.Api.Sessions.{Accounts, Security, find_admin, find_session, resolve, token_hash, touched}
use naco.Api.Sessions.Resolved.{IsLive, resolve_iff}
use naco.Api.Sessions.Lifetime.{Change, IsUsed, apply_all, created, resolve-young}
use naco.Api.Access.{ApiTables, Principal, Request, by_session, current_principal, require}
use naco.Api.Access.Callers.{IsSessionCaller, IsTokenCaller, current_principal-IsKnown, require_iff}
use naco.Radius.Reevaluate.Worker.{asleep, schedule, step}

abbrev plain : Unicode
plain = record {
  lower = λ s. s;
  casefold = λ s. s;
  is_space = λ c. false;
  fnmatchcase = λ text pattern. str_eq text pattern;
}

-- a hash is the password itself
abbrev bcrypt : Bcrypt
bcrypt = record {
  checkpw = λ p h. some (length p == length h);
  hashpw = λ p. "correct horse";
  dummy = [];
}

verify_password_iff_example :
    (verify_password bcrypt "correct horse" (some "correct horse") ≡ true) ↔ (
      (h : String) × (some "correct horse" ≡ some h)
      × (length (Utf8.encode "correct horse") ≤ max_bytes)
      × (bcrypt.checkpw (Utf8.encode "correct horse") (checked_against bcrypt h) ≡ some true))
verify_password_iff_example = verify_password_iff bcrypt "correct horse" (some "correct horse")

abbrev any_digits : String → Bool
any_digits s = true

abbrev same_code : String → ℕ → String
same_code secret step = "123456"

abbrev noon : ℕ
noon = 3000 * second

match-test : match plain any_digits same_code "k" "123456" none noon ≡ ok (some 99)
unfolding match strip
match-test = refl

match-taken_example :
    IsCode plain any_digits same_code "k" "123456" none noon
    × (same_code "k" 99 ≡ clean_code plain any_digits same_code "123456")
    × IsNear noon 99
    × IsLater none 99
match-taken_example = match-taken plain any_digits same_code "k" "123456" none noon 99 match-test

match-raises_iff_example :
    (match plain any_digits same_code "k" "１２３４５６" none noon ≡ err not_ascii) ↔ (
      IsCode plain any_digits same_code "k" "１２３４５６" none noon
      × (is_ascii (clean_code plain any_digits same_code "１２３４５６") ≡ false)
      × (s : ℕ) × IsNear noon s
      × IsLater none s)
match-raises_iff_example = match-raises_iff plain any_digits same_code "k" "１２３４５６" none noon

abbrev cfg : Security
cfg = record {
  session_idle_minutes = 30;
  session_max_hours = 12;
  require_totp = false;
  login_window_seconds = 60;
}

abbrev root : AdminUser
root = record {
  id = 1;
  username = "root";
  password_hash = "correct horse";
  role = AdminRole.superuser;
  enabled = true;
  must_change_password = false;
  totp_secret = some "k";
  totp_pending_secret = none;
  totp_last_step = none;
  recovery_codes = [];
  last_login_at = none;
  password_changed_at = none;
}

abbrev sha : List ℕ → String
sha x = "h"

abbrev session : AdminSession
session = record {
  id = 4;
  token_hash = "h";
  admin_id = 1;
  csrf_token = "c";
  created_at = 0;
  last_seen_at = 0;
  expires_at = 43200 * second;
  ip = "";
  user_agent = "";
}

abbrev signed_in : Accounts
signed_in = record { admins = root ∷ []; sessions = session ∷ [] }

resolve_iff_example : ((resolve sha cfg signed_in (some "t") 5).1 ≡ some (session, root)) ↔ (
    (is_empty (or_empty (some "t")) ≡ false)
    × (text_length (or_empty (some "t")) ≤ 128)
    × (s : AdminSession) × (find_session (session ∷ []) (token_hash sha cfg "t") ≡ some s)
    × IsLive sha cfg signed_in 5 s root
    × (session ≡ touched 5 s))
resolve_iff_example = resolve_iff sha cfg signed_in (some "t") 5 session root

abbrev history : List Change
history = created 4 "t" "c" root "" "" 0 ∷ []

history-test :
    (resolve sha cfg
      (apply_all sha cfg (record { admins = root ∷ []; sessions = [] }) history)
      (some "t")
      5).1
    ≡ some (session, root)
unfolding resolve apply_all
history-test = refl

resolve-young_example :
    (5 < 0 + 12 * (3600 * second))
    × (at : ℕ) × IsUsed sha cfg history (token_hash sha cfg "t") at
    × (5 < at + 30 * (60 * second))
resolve-young_example =
    resolve-young sha cfg (root ∷ []) history (some "t") 5 session root history-test

abbrev call : Request
call = record {
  method = "POST";
  url_scheme = "https";
  headers = ("x-csrf-token", "c") ∷ ("content-type", "application/json") ∷ [];
  cookie = some "t";
  host = some "10.0.0.9";
}

abbrev tables : ApiTables
tables = record { accounts = signed_in; tokens = [] }

abbrev caller : Principal
caller = record {
  kind = by_session;
  username = "root";
  role = AdminRole.superuser;
  admin_id = some 1;
  session_id = some 4;
  token_id = none;
  csrf_token = "c";
  restricted = none;
  ip = "10.0.0.9";
}

current_principal-test : (current_principal plain sha cfg tables call 5).1 ≡ ok caller
unfolding current_principal
current_principal-test = refl

current_principal-IsKnown_example :
    IsSessionCaller plain sha cfg tables call 5 caller
    ⊎ IsTokenCaller plain sha cfg tables call 5 caller
current_principal-IsKnown_example =
    current_principal-IsKnown plain sha cfg tables call 5 caller current_principal-test

require_iff_example : (require AdminRole.operator false caller ≡ ok caller) ↔ (
    (caller ≡ caller)
    × (rank AdminRole.operator ≤ rank caller.role)
    × ((caller.restricted ≡ none) ⊎ (false ≡ true)))
require_iff_example = require_iff AdminRole.operator false caller caller

abbrev slow : ProgressiveDelay
slow = record { base = 1; cap_wait = 300; free = 3; forget = 900; max_keys = 8; state = [] }

abbrev guard : GuessGuard
guard = record {
  pair = slow;
  identity = slow;
  sources = [];
  spread = 5;
  window = 900;
  max_keys = 8;
}

abbrev window : SlidingWindow
window = record { limit = 10; window = 60; max_keys = 8; hits = [] }

abbrev before : SignInState
before = record { accounts = signed_in; audit = []; guesses = guard; per_ip = window }

abbrev surroundings : SignInWorld
surroundings = record {
  bcrypt = bcrypt;
  isdigit = any_digits;
  otp = same_code;
  sha256 = sha;
  now = noon;
  clock = 0;
  first_pause = λ db. db;
  second_pause = λ db. db;
  drawn_id = 5;
  drawn_token = "u";
  drawn_csrf = "d";
}

abbrev typed : LoginIn
typed = record { username = "root"; password = "correct horse"; totp_code = "123456" }

abbrev welcome : Me
welcome = record {
  username = "root";
  role = AdminRole.superuser;
  restricted = none;
  totp_enabled = true;
  csrf_token = "d";
}

login-test : (login plain surroundings cfg call before typed).1 ≡ ok ("u", welcome)
unfolding login strip Utf8.encode
login-test = refl

login-IsSound_example :
    (a : AdminUser) × (find_name (root ∷ []) (strip plain "root") ≡ some a)
    × (verify_password bcrypt "correct horse" (some a.password_hash) ≡ true)
    × (a.enabled ≡ true)
    × (b : AdminUser) × (find_admin (root ∷ []) a.id ≡ some b)
    × (b.enabled ≡ true)
    × HasFactor plain surroundings signed_in b "123456"
login-IsSound_example =
    login-IsSound plain surroundings cfg call before typed ("u", welcome) login-test

abbrev setup : SetupWorld
setup = record {
  bcrypt = bcrypt;
  isdigit = any_digits;
  otp = same_code;
  now = noon;
  pause = λ db. db;
  drawn_secret = "k";
  drawn_codes = [];
}

abbrev untouched : SetupState
untouched = record { accounts = signed_in; audit = [] }

abbrev changed : SetupState
changed = record {
  accounts = record {
    admins =
        record root {
          password_hash = "correct horse";
          must_change_password = false;
          password_changed_at = some noon;
        }
        ∷ [];
    sessions = session ∷ [];
  };
  audit =
      record {
        actor = "root";
        actor_type = admin_actor;
        ip = "10.0.0.9";
        action = "auth.password_changed";
        target_type = "admin";
        target_id = some 1;
        target_name = "root";
      }
      ∷ [];
}

change_password-test :
    change_password plain setup caller untouched "correct horse" "battery stapl" ≡ ok changed
unfolding change_password Utf8.encode
change_password-test = refl

change_password-IsSound_example :
    (a : AdminUser) × (own_admin signed_in by_session (some 1) ≡ ok a)
    × (verify_password bcrypt "correct horse" (some a.password_hash) ≡ true)
    × (validate_admin_password "battery stapl" ≡ ok tt)
    × (str_eq "battery stapl" "correct horse" ≡ false)
    × (hash : String) × (hash_password bcrypt "battery stapl" ≡ ok hash)
    × (b : AdminUser) × (find_admin (root ∷ []) a.id ≡ some b)
    × (changed.accounts.admins
        ≡ (store_admin
            (record b {
              password_hash = hash;
              must_change_password = false;
              password_changed_at = some noon;
            })
            signed_in).admins)
    × ((s : AdminSession)
        → Memᴰ s changed.accounts.sessions
          ↔ (Memᴰ s (session ∷ []) × (s.admin_id ≡ b.id → some 4 ≡ some s.id)))
change_password-IsSound_example =
    change_password-IsSound plain setup caller untouched changed "correct horse" "battery stapl"
      change_password-test

abbrev is_small : ℕ → Bool
is_small n = ltb n 10

prune_loop-ends_example :
    (prune_loop is_small 4 chunk_size 0 (3 ∷ 30 ∷ 4 ∷ [])
      ≡ some (young is_small (3 ∷ 30 ∷ 4 ∷ []), count is_small (3 ∷ 30 ∷ 4 ∷ [])))
    × (prune is_small (3 ∷ 30 ∷ 4 ∷ [])
        ≡ (young is_small (3 ∷ 30 ∷ 4 ∷ []), count is_small (3 ∷ 30 ∷ 4 ∷ [])))
prune_loop-ends_example = prune_loop-ends is_small (3 ∷ 30 ∷ 4 ∷ [])

abbrev retention : Retention
retention = record {
  auth_log_days = 90;
  tacacs_log_days = 90;
  audit_log_days = 365;
  session_idle_minutes = 30;
  stale_session_hours = 24;
}

abbrev house : Housekeeping
house = record {
  auth_logs = [];
  tacacs_logs = [];
  audit_logs = [];
  admin_sessions = session ∷ [];
  radius_sessions = [];
  guests = [];
  reevaluator = asleep;
}

maintenance_pass-IsExact_example :
    let (after, result) = maintenance_pass retention noon house (some 0) in
    ((x : AuthLog) → Memᴰ x after.auth_logs ↔ (Memᴰ x [] × (noon ≤ x.timestamp + 90 * 86400000000)))
    × ((x : ℕ × TacacsLog)
        → Memᴰ x after.tacacs_logs ↔ (Memᴰ x [] × (noon ≤ x.0 + 90 * 86400000000)))
    × ((x : ℕ × AuditLog)
        → Memᴰ x after.audit_logs ↔ (Memᴰ x [] × (noon ≤ x.0 + 365 * 86400000000)))
    × ((s : AdminSession)
        → Memᴰ s after.admin_sessions ↔ (
            Memᴰ s (session ∷ [])
            × (noon ≤ s.expires_at)
            × (noon ≤ s.last_seen_at + retention.session_idle_minutes * 60000000)))
    × ((s : RadiusSession)
        → Memᴰ s after.radius_sessions
          ↔ (Memᴰ s [] × (noon ≤ s.updated_at + retention.stale_session_hours * 3600000000)))
    × (result.pruned + (length after.auth_logs + length after.tacacs_logs + length after.audit_logs)
        ≡ 0 + 0 + 0)
    × (((g : GuestRegistration) × Memᴰ g house.guests × IsExpired noon (some 0) g)
        → after.reevaluator ≡ schedule asleep "guest registrations expired")
    × (¬ ((g : GuestRegistration) × Memᴰ g house.guests × IsExpired noon (some 0) g)
        → after.reevaluator ≡ asleep)
maintenance_pass-IsExact_example = maintenance_pass-IsExact retention noon house (some 0)

publish_all-empty_example :
    (publish_all {A = ℕ} 2 ([] ∷ []) (7 ∷ 8 ∷ 9 ∷ [])
      ≡ drop (length {A = ℕ} (7 ∷ 8 ∷ 9 ∷ []) - 2) (7 ∷ 8 ∷ 9 ∷ []) ∷ [])
    × (length {A = ℕ} (drop (length {A = ℕ} (7 ∷ 8 ∷ 9 ∷ []) - 2) (7 ∷ 8 ∷ 9 ∷ [])) ≤ 2)
publish_all-empty_example = publish_all-empty {A = ℕ} 2 (7 ∷ 8 ∷ 9 ∷ []) (omega arith)

abbrev old_fields : Dict (Option String)
old_fields = ("secret", some "a") ∷ ("email", none) ∷ []

abbrev new_fields : Dict (Option String)
new_fields = ("secret", some "b") ∷ []

get-diff_example : get (diff str_eq old_fields new_fields ("secret" ∷ [])) "secret" ≡ (
    if same_value str_eq (field str_eq old_fields "secret") (field str_eq new_fields "secret")
    then none
    else some (
        if mem_text "secret" ("secret" ∷ [])
        then hidden
        else values (field str_eq old_fields "secret") (field str_eq new_fields "secret")))
get-diff_example = get-diff str_eq old_fields new_fields ("secret" ∷ []) "secret"
