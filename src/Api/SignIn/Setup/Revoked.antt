-- ===== src/Api/SignIn/Setup/Revoked.antt =====
-- What a changed password and a switched-off second factor have asked for, and which sessions they end.
use mathlib.Core.List.{Memᴰ}
use naco.Base.{
  Bool, Option, Result, String, Unicode, ap, arith, bind-ok, err, err_not_ok, false, none, not, ok,
  ok-inj, raise_if, raised-ok, refl, some, str_eq, subst, sym, true, ◌↔◌, ◌≡◌,
}
use naco.Models.{AdminSession, AdminUser}
use naco.Passwords.{PasswordError, hash_password, validate_admin_password, verify_password}
use naco.Api.Sessions.{Accounts, find_admin, revoke_all}
use naco.Api.Sessions.Lifetime.{revoke_all-mem}
use naco.Api.Access.{Principal}
use naco.Api.SignIn.{RouteError, crashed, store_admin}
use naco.Api.SignIn.Setup.{
  SetupState, SetupWorld, change_password, or_crash, or_invalid, own_admin, present, record_audit,
  refuse, store_and_revoke,
}

not-false : (b : Bool) → not b ≡ false → b ≡ true
not-false b h = ground (arith, h)

present-ok :
    (e : RouteError) (o : Option AdminUser) (a : AdminUser) → present e o ≡ ok a → o ≡ some a
present-ok e none a h = absurd (err_not_ok h)
present-ok e (some b) a h = ap (λ z. some z) (ok-inj h)

valid-ok : (r : Result PasswordError (Unit {0})) → or_invalid r ≡ ok tt → r ≡ ok tt
valid-ok (ok x) h = refl
valid-ok (err e) h = absurd (err_not_ok h)

hashed-ok : (r : Result PasswordError String) (t : String) → or_crash r ≡ ok t → r ≡ ok t
hashed-ok (ok x) t h = ap (λ z. ok z) (ok-inj h)
hashed-ok (err e) t h = absurd (err_not_ok h)

-- the sessions after `store_and_revoke`
store_and_revoke-mem :
    (db : Accounts) (a : AdminUser) (p : Principal) (s : AdminSession)
    → Memᴰ s (store_and_revoke db a p).sessions
      ↔ (Memᴰ s db.sessions × (s.admin_id ≡ a.id → p.session_id ≡ some s.id))
unfolding store_and_revoke store_admin
store_and_revoke-mem db a p s = revoke_all-mem (store_admin a db) a.id p.session_id s

module _ (u : Unicode) (w : SetupWorld) (p : Principal) where
  -- A changed password ends every other session: if `change_password` succeeds, the caller is a signed-in
  -- administrator who knew the old password; the new one is valid, differs from it, and its hash is
  -- what is stored, for the account as it is once bcrypt is done; and of the sessions that there are
  -- then exactly those stay that are another administrator's or the caller's own.
  pub change_password-IsSound :
      (st st' : SetupState) (current new : String)
      → change_password u w p st current new ≡ ok st'
      → (a : AdminUser) × (own_admin st.accounts p.kind p.admin_id ≡ ok a)
        × (verify_password w.bcrypt current (some a.password_hash) ≡ true)
        × (validate_admin_password new ≡ ok tt)
        × (str_eq new current ≡ false)
        × (hash : String) × (hash_password w.bcrypt new ≡ ok hash)
        × (b : AdminUser) × (find_admin (w.pause st.accounts).admins a.id ≡ some b)
        × (st'.accounts.admins
            ≡ (store_admin
                (record b {
                  password_hash = hash;
                  must_change_password = false;
                  password_changed_at = some w.now;
                })
                (w.pause st.accounts)).admins)
        × ((s : AdminSession)
            → Memᴰ s st'.accounts.sessions ↔ (
                Memᴰ s (w.pause st.accounts).sessions
                × (s.admin_id ≡ b.id → p.session_id ≡ some s.id)))
  unfolding change_password record_audit store_and_revoke revoke_all
  change_password-IsSound st st' current new h =
      let (a, ea, h1) = bind-ok (own_admin st.accounts p.kind p.admin_id) _ st' h in
      let (x2, e2, h2) =
        bind-ok
          (raise_if (not (verify_password w.bcrypt current (some a.password_hash)))
            (refuse 403 "current password is wrong"))
          _ st' h1 in
      let (x3, e3, h3) = bind-ok (or_invalid (validate_admin_password new)) _ st' h2 in
      let (x4, e4, h4) =
        bind-ok
          (raise_if (str_eq new current)
            (refuse 422 "choose a password you have not used just now"))
          _ st' h3 in
      let (hash, e5, h5) = bind-ok (or_crash (hash_password w.bcrypt new)) _ st' h4 in
      let (b, e6, h6) =
        bind-ok (present crashed (find_admin (w.pause st.accounts).admins a.id)) _ st' h5 in
      let q = ok-inj h6 in
      let c = record b {
        password_hash = hash;
        must_change_password = false;
        password_changed_at = some w.now;
      } in
      (
        a,
        ea,
        not-false (verify_password w.bcrypt current (some a.password_hash))
            (raised-ok _ (refuse 403 "current password is wrong") e2),
        valid-ok (validate_admin_password new) e3,
        raised-ok (str_eq new current) (refuse 422 "choose a password you have not used just now")
            e4,
        hash,
        hashed-ok (hash_password w.bcrypt new) hash e5,
        b,
        present-ok crashed (find_admin (w.pause st.accounts).admins a.id) b e6,
        sym (ap (λ z. z.accounts.admins) q),
        (λ s.
            subst
              (λ (z : SetupState). Memᴰ s z.accounts.sessions ↔ (
                Memᴰ s (w.pause st.accounts).sessions
                × (s.admin_id ≡ b.id → p.session_id ≡ some s.id)))
              q (store_and_revoke-mem (w.pause st.accounts) c p s)),
      )
