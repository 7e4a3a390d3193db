-- ===== src/Api/SignIn/Factors.antt =====
-- What `login` of naco/api/routes/auth.py has checked when it lets someone in.
use mathlib.Core.Bool.{true≢false}
use naco.Base.{
  Bool, Option, Option-cases, Result, String, Unicode, ap, arith, err, err_not_ok, false, get,
  if◌then◌else◌, inl, inr, keep, ltb, mem_text, none, not, ok, ok-inj, or_empty, refl, some, str_eq,
  strip, sym, true, unless_err, ℕ, ◌&&◌, ◌||◌, ◌∙◌, ◌≡◌, ◌⊎◌,
}
use naco.Models.{AdminUser}
use naco.Passwords.{verify_password}
use naco.RateLimit.Window.{SlidingWindow}
use naco.RateLimit.Window
use naco.RateLimit.Guard
use naco.Api.Totp.{TypeError, looks_like_recovery_code, match}
use naco.Api.Sessions.{Accounts, Security, find_admin}
use naco.Api.Access.{ApiError, Request, check_same_origin, client_ip, starts_with}
use naco.Api.SignIn.{
  LoginIn, Me, RouteError, SignInState, SignInWorld, after_check, after_match, check_login,
  fail_login, find_name, has_totp, login, login_admitted, login_checked, login_throttled,
  second_factor, spend_code, store_admin, too_many_attempts, try_recovery, used_code,
}

both_true : (a b : Bool) → (a && b) ≡ true → (a ≡ true) × (b ≡ true)
both_true a b h = ground (arith, h)

false_not_ok : {E : Type 0} → ¬ (◌≡◌ {A = Result E Bool} (ok false) (ok true))
false_not_ok h = true≢false (sym (ok-inj h))

-- `if b: return x` before `return False`
taken-ok :
    {E S : Type 0} (b : Bool) (x : S × Result E Bool) (s : S)
    → (if b then x else (s, ok false)).1 ≡ ok true
    → (b ≡ true) × (x.1 ≡ ok true)
taken-ok true x s h = (refl, h)
taken-ok false x s h = absurd (false_not_ok h)

enrolled-ok :
    {E S : Type 0} (e t : Bool) (s : S) (x : S × Result E Bool)
    → (if not e || not t then (s, ok (not t && e)) else x).1 ≡ ok true
    → (e ≡ true) × ((t ≡ false) ⊎ (x.1 ≡ ok true))
enrolled-ok true true s x h = (refl, inr h)
enrolled-ok true false s x h = (refl, inl refl)
enrolled-ok false true s x h = absurd (false_not_ok h)
enrolled-ok false false s x h = absurd (false_not_ok h)

module _ (u : Unicode) (w : SignInWorld) where
  -- the second factor of the account, when it has one: a code of a later step, or an unused recovery
  -- code that is still there when bcrypt is done
  pub HasFactor : Accounts → AdminUser → String → Type 0
  HasFactor db a typed =
      (has_totp a ≡ false)
      ⊎ (((s : ℕ) × (match u w.isdigit w.otp (or_empty a.totp_secret) typed a.totp_last_step w.now
              ≡ ok (some s)))
          ⊎ ((c : String) × (used_code w.bcrypt (u.lower (strip u typed)) a.recovery_codes ≡ some c)
              × (d : AdminUser) × (find_admin (w.second_pause db).admins a.id ≡ some d)
              × (mem_text c d.recovery_codes ≡ true)))

  spend_code-ok :
      (used : String) (db : Accounts) (o : Option AdminUser)
      → (spend_code u w used db o).1 ≡ ok true
      → (d : AdminUser) × (o ≡ some d) × (mem_text used d.recovery_codes ≡ true)
  unfolding spend_code
  spend_code-ok used db none h = absurd (err_not_ok h)
  spend_code-ok used db (some d) h = (
    d,
    refl,
    (taken-ok (mem_text used d.recovery_codes)
        (
          store_admin
              (record d { recovery_codes = keep (λ h. not (str_eq h used)) d.recovery_codes }) db,
          ok true,
        )
        db h).0,
  )

  try_recovery-ok :
      (db : Accounts) (a : AdminUser) (typed : String)
      → (try_recovery u w db a typed).1 ≡ ok true
      → HasFactor db a typed
  unfolding HasFactor
  try_recovery-ok db a typed h =
      elim (Option-cases (used_code w.bcrypt (u.lower (strip u typed)) a.recovery_codes)) [
        | inl e ↦ absurd (false_not_ok (sym (ap (λ z. z.1) (step none e)) ∙ h))
        | inr (c, e) ↦
            let (d, f, m) =
              spend_code-ok c (w.second_pause db) (find_admin (w.second_pause db).admins a.id)
                (sym (ap (λ z. z.1) (step (some c) e)) ∙ h) in
            inr (inr (c, e, d, f, m))
      ]
    where
      by_code : Option String → Accounts × Result RouteError Bool
      by_code o = elim o [
        | none ↦ (w.second_pause db, ok false)
        | some used ↦
            spend_code u w used (w.second_pause db) (find_admin (w.second_pause db).admins a.id)
      ]

      step :
          (o : Option String)
          → used_code w.bcrypt (u.lower (strip u typed)) a.recovery_codes ≡ o
          → try_recovery u w db a typed ≡ by_code o
      step o e = unfold try_recovery in ap by_code e

  after_match-ok :
      (db : Accounts) (a : AdminUser) (typed : String) (m : Result TypeError (Option ℕ))
      → match u w.isdigit w.otp (or_empty a.totp_secret) typed a.totp_last_step w.now ≡ m
      → (after_match u w db a typed m).1 ≡ ok true
      → HasFactor db a typed
  unfolding after_match
  after_match-ok db a typed (err e) q h = absurd (err_not_ok h)
  after_match-ok db a typed (ok (some s)) q h = unfold HasFactor in inr (inl (s, q))
  after_match-ok db a typed (ok none) q h =
      try_recovery-ok db a typed
        (taken-ok (looks_like_recovery_code u w.isdigit w.otp typed) (try_recovery u w db a typed)
          db h).1

  second_factor-ok :
      (db : Accounts) (o : Option AdminUser) (typed : String)
      → (second_factor u w db o typed).1 ≡ ok true
      → (a : AdminUser) × (o ≡ some a) × (a.enabled ≡ true) × HasFactor db a typed
  unfolding second_factor
  second_factor-ok db none typed h = absurd (err_not_ok h)
  second_factor-ok db (some a) typed h =
      let m = match u w.isdigit w.otp (or_empty a.totp_secret) typed a.totp_last_step w.now in
      let (e, k) = enrolled-ok a.enabled (has_totp a) db (after_match u w db a typed m) h in
      (
        a,
        refl,
        e,
        elim k [ inl t ↦ unfold HasFactor in inl t | inr x ↦ after_match-ok db a typed m refl x ],
      )

  check_login-ok :
      (db : Accounts) (o : Option AdminUser) (body : LoginIn)
      → (check_login u w db o body).1 ≡ ok true
      → (a : AdminUser) × (o ≡ some a)
        × (verify_password w.bcrypt body.password (some a.password_hash) ≡ true)
        × (a.enabled ≡ true)
        × (b : AdminUser) × (find_admin (w.first_pause db).admins a.id ≡ some b)
        × (b.enabled ≡ true)
        × HasFactor (w.first_pause db) b body.totp_code
  unfolding check_login
  check_login-ok db none body h = absurd (false_not_ok h)
  check_login-ok db (some a) body h =
      let (c, k) =
        taken-ok (verify_password w.bcrypt body.password (some a.password_hash) && a.enabled) _
          (w.first_pause db) h in
      let (v, e) =
        both_true (verify_password w.bcrypt body.password (some a.password_hash)) a.enabled c in
      let (b, f, n, x) =
        second_factor-ok (w.first_pause db) (find_admin (w.first_pause db).admins a.id)
          body.totp_code k in
      (a, refl, v, e, b, f, n, x)

  module _ (cfg : Security) (r : Request) where
    after_check-ok :
        (st : SignInState) (name : String) (o : Option AdminUser)
        (x : Accounts × Result RouteError Bool) (y : String × Me)
        → (after_check u w cfg r st name o x).1 ≡ ok y
        → x.1 ≡ ok true
    unfolding after_check fail_login
    after_check-ok st name o (db, err e) y h = absurd (err_not_ok h)
    after_check-ok st name o (db, ok false) y h = absurd (err_not_ok h)
    after_check-ok st name o (db, ok true) y h = refl

    login_checked-ok :
        (st : SignInState) (x : SlidingWindow × Bool) (name : String) (body : LoginIn)
        (c : Result ApiError (Unit {0})) (y : String × Me)
        → (login_checked u w cfg r st x name body c).1 ≡ ok y
        → (check_login u w st.accounts (find_name st.accounts.admins name) body).1 ≡ ok true
    unfolding login_checked login_throttled login_admitted
    login_checked-ok st x name body (err e) y h = absurd (err_not_ok h)
    login_checked-ok st (window, admitted) name body (ok x) y h =
        let (e, k) =
          unless_err (not admitted) (record st { per_ip = window })
            (too_many_attempts cfg.login_window_seconds) _ y h in
        let (f, l) =
          unless_err (ltb 0 (Guard.delay_for st.guesses name (client_ip r) w.clock).0) _ _ _ y k in
        after_check-ok
          (record st {
            per_ip = window;
            guesses = (Guard.delay_for st.guesses name (client_ip r) w.clock).1;
          })
          name (find_name st.accounts.admins name)
          (check_login u w st.accounts (find_name st.accounts.admins name) body) y l

    -- Nobody signs in without every factor: `login` answers with a session only if the name, trimmed and
    -- in lower case, is that of an enabled administrator whose password hash the password matches, and
    -- that account, read again when bcrypt is done and whatever other requests did meanwhile, is
    -- still enabled and has no one-time codes, or the code typed is one of a step later than the last
    -- used, or a recovery code that no other request has used up.
    pub login-IsSound :
        (st : SignInState) (body : LoginIn) (y : String × Me)
        → (login u w cfg r st body).1 ≡ ok y
        → (a : AdminUser) × (find_name st.accounts.admins (u.lower (strip u body.username))
            ≡ some a)
          × (verify_password w.bcrypt body.password (some a.password_hash) ≡ true)
          × (a.enabled ≡ true)
          × (b : AdminUser) × (find_admin (w.first_pause st.accounts).admins a.id ≡ some b)
          × (b.enabled ≡ true)
          × HasFactor (w.first_pause st.accounts) b body.totp_code
    unfolding login
    login-IsSound st body y h =
        let name = u.lower (strip u body.username) in
        let (e, k) =
          unless_err
            (not (starts_with "application/json" (or_empty (get r.headers "content-type")))) st _ _
            y h in
        check_login-ok st.accounts (find_name st.accounts.admins name) body (
          login_checked-ok st (Window.hit st.per_ip (client_ip r) w.clock) name body
            (check_same_origin r) y k)
