-- ===== src/Api/SignIn/Setup.antt =====
-- naco/api/routes/auth.py past the sign-in: passwords, one-time codes and one's own sessions. A request
-- that raises stores nothing. `pause` is what other requests do to the accounts while bcrypt runs.
pub mod Revoked
use naco.Base.{
  Bool, List, Option, Result, String, Unicode, [], clip, codes, err, false, if◌then◌else◌, is_empty,
  is_some, none, not, ok, or_empty, raise_if, some, str_eq, true, ℕ, ◌++◌, ◌==◌, ◌>>=◌, ◌>>◌, ◌||◌,
  ◌∷◌,
}
use naco.Models.{AdminSession, AdminUser, AuditLog, admin_actor, token_actor}
use naco.Passwords.{Bcrypt, PasswordError, hash_password, validate_admin_password, verify_password}
use naco.Api.Totp.{match}
use naco.Api.Sessions.{Accounts, delete_session, find_admin, revoke_all}
use naco.Api.Access.{Principal, PrincipalKind, by_session, by_token, forbid, unauthenticated}
use naco.Api.SignIn.{RouteError, crashed, has_totp, invalid_password, refused, store_admin}

-- the tables that these routes change
pub record SetupState : Type 0 where
  pub accounts : Accounts
  pub audit : List AuditLog

pub record SetupWorld : Type 0 where
  pub bcrypt : Bcrypt
  pub isdigit : String → Bool
  pub otp : String → ℕ → String
  pub now : ℕ
  pub pause : Accounts → Accounts
  pub drawn_secret : String
  pub drawn_codes : List String

abbrev pub refuse : ℕ → String → RouteError
refuse status message = refused (record { status = status; message = message; error_code = none })

-- `AuditTrail.record`
pub record_audit : SetupState → Principal → String → String → Option ℕ → String → SetupState
record_audit st p action target_type target_id target_name = record st {
  audit =
      st.audit
      ++ record {
        actor = clip 64 p.username;
        actor_type = elim p.kind [ by_token ↦ token_actor | by_session ↦ admin_actor ];
        ip = clip 45 p.ip;
        action = clip 64 action;
        target_type = clip 32 target_type;
        target_id = target_id;
        target_name = clip 128 target_name;
      }
        ∷ [];
}

-- what `db.get` or `db.refresh` finds; `db.refresh` raises when the row is gone
abbrev pub present : RouteError → Option AdminUser → Result RouteError AdminUser
present e none = err e
present e (some a) = ok a

-- `_admin`
pub own_admin : Accounts → PrincipalKind → Option ℕ → Result RouteError AdminUser
unfolding find_admin
own_admin db by_token id = err (refuse 403 "not available to API tokens")
own_admin db by_session none = err (refuse 403 "not available to API tokens")
own_admin db by_session (some id) =
    present (refused (unauthenticated "not signed in")) (find_admin db.admins id)

-- `ApiError(422, str(exc))`
abbrev pub or_invalid : Result PasswordError (Unit {0}) → Result RouteError (Unit {0})
or_invalid (ok a) = ok a
or_invalid (err e) = err (invalid_password e)

abbrev pub or_crash : {E : Type 0} {A : Type 0} → Result E A → Result RouteError A
or_crash (ok a) = ok a
or_crash (err e) = err crashed

abbrev pub needed : RouteError → Option ℕ → Result RouteError ℕ
needed e none = err e
needed e (some s) = ok s

-- the account is stored, and of its sessions only the caller's is kept
pub store_and_revoke : Accounts → AdminUser → Principal → Accounts
unfolding store_admin revoke_all
store_and_revoke db a p = revoke_all (store_admin a db) a.id p.session_id

module _ (u : Unicode) (w : SetupWorld) (p : Principal) where
  -- `change_password`
  unfoldable pub change_password : SetupState → String → String → Result RouteError SetupState
  unfolding own_admin verify_password validate_admin_password hash_password find_admin
      store_and_revoke record_audit
  change_password st current new = do
    a ← own_admin st.accounts p.kind p.admin_id
    _ ←
        raise_if (not (verify_password w.bcrypt current (some a.password_hash)))
          (refuse 403 "current password is wrong")
    _ ← or_invalid (validate_admin_password new)
    _ ← raise_if (str_eq new current) (refuse 422 "choose a password you have not used just now")
    hash ← or_crash (hash_password w.bcrypt new)
    b ← present crashed (find_admin (w.pause st.accounts).admins a.id)
    let c = record b {
      password_hash = hash;
      must_change_password = false;
      password_changed_at = some w.now;
    }
    ok (
        record_audit (record st { accounts = store_and_revoke (w.pause st.accounts) c p }) p
          "auth.password_changed" "admin" (some b.id) b.username)

  -- `totp_setup`: the new state and the secret
  pub totp_setup : SetupState → String → Result RouteError (SetupState × String)
  unfolding own_admin verify_password find_admin store_admin record_audit
  totp_setup st given = do
    a ← own_admin st.accounts p.kind p.admin_id
    _ ←
        raise_if a.must_change_password
          (refused (forbid "change your password first" "setup_required"))
    _ ←
        raise_if (not (verify_password w.bcrypt given (some a.password_hash)))
          (refuse 403 "password is wrong")
    b ← present crashed (find_admin (w.pause st.accounts).admins a.id)
    _ ← raise_if (has_totp b) (refuse 409 "two-factor authentication is already enabled")
    let c = record b { totp_pending_secret = some w.drawn_secret }
    ok (
      record_audit (record st { accounts = store_admin c (w.pause st.accounts) }) p
          "auth.totp_setup_started" "admin" (some b.id) b.username,
      w.drawn_secret,
    )

  -- `hash_password` of every code
  pub hash_codes : List String → Result RouteError (List String)
  unfolding hash_password
  hash_codes [] = ok []
  hash_codes (c ∷ codes) = do
    h ← or_crash (hash_password w.bcrypt c)
    hashes ← hash_codes codes
    ok (h ∷ hashes)

  -- `totp_confirm`: the new state and the recovery codes
  unfoldable pub totp_confirm : SetupState → String → Result RouteError (SetupState × List String)
  unfolding own_admin match hash_codes find_admin store_and_revoke record_audit
  totp_confirm st typed = do
    a ← own_admin st.accounts p.kind p.admin_id
    _ ← raise_if (is_empty (or_empty a.totp_pending_secret)) (refuse 409 "start the setup first")
    matched ← or_crash (match u w.isdigit w.otp (or_empty a.totp_pending_secret) typed none w.now)
    step ← needed (refuse 422 "that code is not valid — check the time on your device") matched
    hashes ← hash_codes w.drawn_codes
    b ← present crashed (find_admin (w.pause st.accounts).admins a.id)
    _ ←
        raise_if (not (same_secret b.totp_pending_secret a.totp_pending_secret))
          (refuse 409 "the setup changed meanwhile — start again")
    let c = record b {
      totp_secret = a.totp_pending_secret;
      totp_pending_secret = none;
      totp_last_step = some step;
      recovery_codes = hashes;
    }
    ok (
      record_audit (record st { accounts = store_and_revoke (w.pause st.accounts) c p }) p
          "auth.totp_enabled" "admin" (some b.id) b.username,
      w.drawn_codes,
    )
    where
      same_secret : Option String → Option String → Bool
      same_secret none none = true
      same_secret none (some t) = false
      same_secret (some s) none = false
      same_secret (some s) (some t) = str_eq s t

  -- `totp_disable`
  unfoldable pub totp_disable : SetupState → String → String → Result RouteError SetupState
  unfolding own_admin verify_password match find_admin store_and_revoke record_audit
  totp_disable st given typed = do
    a ← own_admin st.accounts p.kind p.admin_id
    _ ← raise_if (not (has_totp a)) (refuse 409 "two-factor authentication is not enabled")
    b ← present crashed (find_admin (w.pause st.accounts).admins a.id)
    matched ←
        if has_totp b
        then or_crash
            (match u w.isdigit w.otp (or_empty b.totp_secret) typed b.totp_last_step w.now)
        else ok none
    _ ←
        raise_if
          (not (verify_password w.bcrypt given (some a.password_hash)) || not (is_some matched))
          (refuse 403 "password or code is wrong")
    let c = record b { totp_secret = none; totp_last_step = none; recovery_codes = [] }
    ok (
        record_audit (record st { accounts = store_and_revoke (w.pause st.accounts) c p }) p
          "auth.totp_disabled" "admin" (some b.id) b.username)

  -- `logout`
  pub logout : SetupState → SetupState
  unfolding record_audit delete_session
  logout st = elim p.session_id [
    | none ↦ record_audit st p "auth.logout" "" none ""
    | some id ↦
        record_audit
          (record st {
            accounts = record (st.accounts) { sessions = delete_session id st.accounts.sessions };
          })
          p "auth.logout" "" none ""
  ]

  pub session_by_id : ℕ → List AdminSession → Option AdminSession
  session_by_id id [] = none
  session_by_id id (s ∷ sessions) =
      let rest = session_by_id id sessions in if s.id == id then some s else rest

  -- `session is None or session.admin_id != admin.id`
  pub is_other : Option AdminSession → ℕ → Bool
  is_other none id = true
  is_other (some s) id = not (s.admin_id == id)

  -- `end_session`
  pub end_session : SetupState → ℕ → Result RouteError SetupState
  unfolding own_admin session_by_id is_other delete_session record_audit
  end_session st session_id = do
    a ← own_admin st.accounts p.kind p.admin_id
    _ ←
        raise_if (is_other (session_by_id session_id st.accounts.sessions) a.id)
          (refuse 404 "no such session")
    ok (
        record_audit
          (record st {
            accounts = record (st.accounts) {
              sessions = delete_session session_id st.accounts.sessions;
            };
          })
          p "auth.session_ended" "admin_session" (some session_id) a.username)
