-- ===== src/Api/SignIn.antt =====
-- naco/api/routes/auth.py: signing in. While bcrypt runs no transaction is open, so other requests may
-- change the accounts meanwhile: what they do is a parameter. bcrypt, the one-time codes, SHA-256 and
-- the random texts are parameters too. Times are in microseconds, those of the throttles in seconds.
pub mod Factors
pub mod Setup
use naco.Base.{
  Bool, List, Option, Result, String, Unicode, [], clip, err, false, get, if◌then◌else◌, is_empty,
  is_some, keep, ltb, map, mem_text, none, not, ok, or_empty, some, str_eq, strip, true, ℕ, ◌&&◌,
  ◌++◌, ◌==◌, ◌||◌, ◌∷◌,
}
use naco.Base.Utf8
use naco.Models.{ActorType, AdminRole, AdminUser, AuditLog, admin_actor}
use naco.Passwords.{Bcrypt, PasswordError, verify_password}
use naco.RateLimit.Window.{SlidingWindow, hit}
use naco.RateLimit.Window
use naco.RateLimit.Guard.{GuessGuard}
use naco.RateLimit.Guard
use naco.Api.Totp.{TypeError, looks_like_recovery_code, match}
use naco.Api.Sessions.{Accounts, Security, create, find_admin}
use naco.Api.Access.{
  ApiError, Request, Restriction, check_same_origin, client_ip, restriction, starts_with,
}

-- what a request raises: an answer of the API, a wait that the answer names, or an error that nothing
-- handles
pub data RouteError : Type 0 where
  refused : ApiError → RouteError
  too_many_attempts : ℕ → RouteError
  wait_first : ℕ → RouteError
  invalid_password : PasswordError → RouteError
  crashed : RouteError

pub record LoginIn : Type 0 where
  pub username : String
  pub password : String
  pub totp_code : String

-- what surrounds one request; the pauses are those of the password check and of the recovery codes
pub record SignInWorld : Type 0 where
  pub bcrypt : Bcrypt
  pub isdigit : String → Bool
  pub otp : String → ℕ → String
  pub sha256 : List ℕ → String
  pub now : ℕ
  pub clock : ℕ
  pub first_pause : Accounts → Accounts
  pub second_pause : Accounts → Accounts
  pub drawn_id : ℕ
  pub drawn_token : String
  pub drawn_csrf : String

pub record SignInState : Type 0 where
  pub accounts : Accounts
  pub audit : List AuditLog
  pub guesses : GuessGuard
  pub per_ip : SlidingWindow

pub record Me : Type 0 where
  pub username : String
  pub role : AdminRole
  pub restricted : Option Restriction
  pub totp_enabled : Bool
  pub csrf_token : String

-- `bool(admin.totp_secret)`
abbrev pub has_totp : AdminUser → Bool
has_totp a = not (is_empty (or_empty a.totp_secret))

-- `_me`
pub me_of : Security → AdminUser → String → Me
unfolding restriction
me_of cfg a csrf = record {
  username = a.username;
  role = a.role;
  restricted = restriction cfg a;
  totp_enabled = has_totp a;
  csrf_token = csrf;
}

-- `write` of naco/api/audit.py, for rows without a target
pub audit_row : String → ActorType → String → String → AuditLog
audit_row actor actor_type ip action = record {
  actor = clip 64 actor;
  actor_type = actor_type;
  ip = clip 45 ip;
  action = clip 64 action;
  target_type = "";
  target_id = none;
  target_name = "";
}

-- the account is stored instead of the one of its id
pub store_admin : AdminUser → Accounts → Accounts
store_admin a db = record db {
  admins = map (λ (x : AdminUser). if x.id == a.id then a else x) db.admins;
}

pub find_name : List AdminUser → String → Option AdminUser
find_name [] name = none
find_name (a ∷ admins) name =
    let rest = find_name admins name in if str_eq a.username name then some a else rest

-- `for hashed in candidates`: the first hash that the code matches
pub used_code : Bcrypt → String → List String → Option String
unfolding verify_password
used_code b given [] = none
used_code b given (h ∷ hashes) =
    let rest = used_code b given hashes in if verify_password b given (some h) then some h else rest

module _ (u : Unicode) (w : SignInWorld) where
  -- the account read again when bcrypt is done
  pub spend_code : String → Accounts → Option AdminUser → Accounts × Result RouteError Bool
  unfolding store_admin
  spend_code used db none = (db, err crashed)
  spend_code used db (some a) =
      if mem_text used a.recovery_codes
      then (
        store_admin (record a { recovery_codes = keep (λ h. not (str_eq h used)) a.recovery_codes })
            db,
        ok true,
      )
      else (db, ok false)

  pub try_recovery : Accounts → AdminUser → String → Accounts × Result RouteError Bool
  unfolding used_code spend_code find_admin
  try_recovery db a typed = elim (used_code w.bcrypt (u.lower (strip u typed)) a.recovery_codes) [
    | none ↦ (w.second_pause db, ok false)
    | some used ↦ spend_code used (w.second_pause db) (find_admin (w.second_pause db).admins a.id)
  ]

  -- what `totp.match` returned
  pub after_match :
      Accounts
      → AdminUser
      → String
      → Result TypeError (Option ℕ)
      → Accounts × Result RouteError Bool
  unfolding store_admin try_recovery looks_like_recovery_code
  after_match db a typed (err e) = (db, err crashed)
  after_match db a typed (ok (some step)) =
      (store_admin (record a { totp_last_step = some step }) db, ok true)
  after_match db a typed (ok none) =
      if looks_like_recovery_code u w.isdigit w.otp typed
      then try_recovery db a typed
      else (db, ok false)

  -- `_second_factor`, on the account as it is read again
  pub second_factor : Accounts → Option AdminUser → String → Accounts × Result RouteError Bool
  unfolding after_match match
  second_factor db none typed = (db, err crashed)
  second_factor db (some a) typed =
      if not a.enabled || not (has_totp a)
      then (db, ok (not (has_totp a) && a.enabled))
      else after_match db a typed
          (match u w.isdigit w.otp (or_empty a.totp_secret) typed a.totp_last_step w.now)

  -- the password, the account and the second factor
  pub check_login : Accounts → Option AdminUser → LoginIn → Accounts × Result RouteError Bool
  unfolding second_factor verify_password find_admin
  check_login db none body = (w.first_pause db, ok false)
  check_login db (some a) body =
      if verify_password w.bcrypt body.password (some a.password_hash) && a.enabled
      then second_factor (w.first_pause db) (find_admin (w.first_pause db).admins a.id)
          body.totp_code
      else (w.first_pause db, ok false)

  module _ (cfg : Security) (r : Request) where
    -- a failure: it is counted and recorded, whatever was wrong
    pub fail_login :
        SignInState
        → Accounts
        → String
        → Option AdminUser
        → SignInState × Result RouteError (String × Me)
    unfolding audit_row client_ip
    fail_login st db name admin = (
      record st {
        accounts = db;
        guesses = Guard.failure st.guesses name (client_ip r) w.clock;
        audit =
            st.audit
            ++ audit_row (if is_some admin then name else "(unknown)") admin_actor (client_ip r)
                "auth.login_failed"
              ∷ [];
      },
      err (
          refused (record {
            status = 401;
            message = "invalid username, password or code";
            error_code = none;
          })),
    )

    -- a success: the account as it is now gets a session
    pub pass_login :
        SignInState
        → Accounts
        → String
        → Option AdminUser
        → SignInState × Result RouteError (String × Me)
    unfolding create store_admin audit_row me_of client_ip
    pass_login st db name none = (record st { accounts = db }, err crashed)
    pass_login st db name (some a) =
        let (db', s) =
          create w.sha256 cfg db w.drawn_id w.drawn_token w.drawn_csrf a (client_ip r)
            (or_empty (get r.headers "user-agent")) w.now in
        (
          record st {
            accounts = store_admin (record a { last_login_at = some w.now }) db';
            guesses = Guard.success st.guesses name (client_ip r);
            audit = st.audit ++ audit_row a.username admin_actor (client_ip r) "auth.login" ∷ [];
          },
          ok (w.drawn_token, me_of cfg a s.csrf_token),
        )

    -- what the checks gave
    pub after_check :
        SignInState
        → String
        → Option AdminUser
        → Accounts × Result RouteError Bool
        → SignInState × Result RouteError (String × Me)
    unfolding fail_login pass_login find_admin
    after_check st name admin (db, err e) = (record st { accounts = db }, err e)
    after_check st name admin (db, ok false) = fail_login st db name admin
    after_check st name none (db, ok true) = fail_login st db name none
    after_check st name (some a) (db, ok true) = pass_login st db name (find_admin db.admins a.id)

    -- past the throttles
    pub login_admitted :
        SignInState → String → LoginIn → SignInState × Result RouteError (String × Me)
    unfolding check_login after_check find_name
    login_admitted st name body =
        let admin = find_name st.accounts.admins name in
        after_check st name admin (check_login st.accounts admin body)

    pub login_throttled :
        SignInState → String → LoginIn → SignInState × Result RouteError (String × Me)
    unfolding login_admitted client_ip Guard.delay_for
    login_throttled st name body =
        let (wait, g) = Guard.delay_for st.guesses name (client_ip r) w.clock in
        if ltb 0 wait
        then (record st { guesses = g }, err (wait_first wait))
        else login_admitted (record st { guesses = g }) name body

    -- what `check_same_origin` gives, and the window of the address after the hit
    pub login_checked :
        SignInState
        → SlidingWindow × Bool
        → String
        → LoginIn
        → Result ApiError (Unit {0})
        → SignInState × Result RouteError (String × Me)
    unfolding login_throttled
    login_checked st hit name body (err e) = (st, err (refused e))
    login_checked st (window, admitted) name body (ok x) =
        if not admitted
        then (record st { per_ip = window }, err (too_many_attempts cfg.login_window_seconds))
        else login_throttled (record st { per_ip = window }) name body

    -- `login`: the new state, and the cookie's text with the answer
    unfoldable pub login : SignInState → LoginIn → SignInState × Result RouteError (String × Me)
    unfolding login_checked client_ip check_same_origin starts_with Window.hit
    login st body =
        if not (starts_with "application/json" (or_empty (get r.headers "content-type")))
        then (st, err (refused (record { status = 415; message = "send JSON"; error_code = none })))
        else login_checked st (Window.hit st.per_ip (client_ip r) w.clock)
            (u.lower (strip u body.username)) body (check_same_origin r)
