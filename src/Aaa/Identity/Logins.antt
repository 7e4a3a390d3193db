-- ===== src/Aaa/Identity/Logins.antt =====
-- What a successful `authenticate_user` of naco/auth/identity.py rests on.
use mathlib.Core.Bool.{true≢false}
use naco.Base.{
  Bool, Bool-cases, Option, String, Unicode, ap, clip, false, if◌then◌else◌, inl, inr, is_empty,
  none, refl, some, subst, sym, text_or, true, ℕ, ◌||◌, ◌∙◌, ◌≡◌, ◌⊎◌,
}
use naco.Models.{User, UserSource}
use naco.Aaa.Identity.{
  IdentityResult, LdapAnswer, LdapUser, Tables, UserInfo, World, admit, admit_provisioned,
  after_answer, authenticate_found, authenticate_ldap, authenticate_source, authenticate_user,
  canonical_username, find_user, group_id_of, info_of, load_user, max_username, new_user, provision,
  provision_existing, provision_row, record_login, refresh, refuse,
}

-- the source of the account that a step returns, `ldap` when it returns none
abbrev source_of : Option UserInfo → UserSource
source_of none = UserSource.ldap
source_of (some i) = i.source

module _ (w : World) (db : Tables) (name : String) (e : LdapUser) where
  provision_existing-source :
      (g : Option ℕ) (x : User) (s : UserSource)
      → x.source ≡ s
      → source_of (provision_existing w db name e g x s).1 ≡ UserSource.ldap
  unfolding provision_existing info_of refresh
  provision_existing-source g x UserSource.local h = refl
  provision_existing-source g x UserSource.ldap h = h

  provision_row-source :
      (g : Option ℕ) (o : Option User)
      → source_of (provision_row w db name e g o).1 ≡ UserSource.ldap
  unfolding provision_row new_user info_of
  provision_row-source g none = refl
  provision_row-source g (some x) = provision_existing-source g x x.source refl

  provision-source : source_of (provision w db name e).1 ≡ UserSource.ldap
  unfolding provision
  provision-source =
      provision_row-source
        (if w.has_group_map then group_id_of db.groups (w.map_group e.group_dns) else none)
        (find_user db.users name)

module _ (w : World) (db : Tables) (name password : String) where
  -- what vouches for a login: the stored hash of a local account, or the directory's entry
  pub IsVouched : UserInfo → Type 0
  IsVouched info =
      ((info.source ≡ UserSource.local)
        × (hash : Option String) × (load_user db name ≡ some (info, hash))
        × (w.verify_password password hash ≡ true))
      ⊎ ((info.source ≡ UserSource.ldap)
          × (w.ldap_enabled ≡ true)
          × (e : LdapUser) × (w.ldap_authenticate name password ≡ LdapAnswer.entry e))

  -- a result that, when it admits, admits an enabled account under its canonical name
  pub IsSound : IdentityResult → Type 0
  IsSound r =
      r.is_ok ≡ true
      → (info : UserInfo) × (r.user ≡ some info)
        × (info.enabled ≡ true)
        × (r.username ≡ name)
        × IsVouched info

  admit_provisioned-IsSound :
      (e : LdapUser) (p : Tables × Option UserInfo)
      → source_of p.1 ≡ UserSource.ldap
      → w.ldap_enabled ≡ true
      → w.ldap_authenticate name password ≡ LdapAnswer.entry e
      → IsSound (admit_provisioned name p).1
  unfolding admit_provisioned IsSound IsVouched
  admit_provisioned-IsSound e (t, none) s on a = λ h. absurd (true≢false (sym h))
  admit_provisioned-IsSound e (t, some p) s on a = elim (Bool-cases p.enabled) [
    | inl k ↦
        subst
          (λ b. IsSound (
            let r : Tables × IdentityResult =
              if b then (t, admit name p) else (t, refuse "user disabled" name (some p)) in
            r.1))
          (sym k) (λ h. (p, refl, k, refl, inr (s, on, e, a)))
    | inr k ↦
        subst
          (λ b. IsSound (
            let r : Tables × IdentityResult =
              if b then (t, admit name p) else (t, refuse "user disabled" name (some p)) in
            r.1))
          (sym k) (λ h. absurd (true≢false (sym h)))
  ]

  after_answer-IsSound :
      (info : Option UserInfo) (a : LdapAnswer)
      → w.ldap_enabled ≡ true
      → w.ldap_authenticate name password ≡ a
      → IsSound (after_answer w db name info a).1
  unfolding after_answer IsSound
  after_answer-IsSound info LdapAnswer.unavailable on f = λ h. absurd (true≢false (sym h))
  after_answer-IsSound info LdapAnswer.refused on f = λ h. absurd (true≢false (sym h))
  after_answer-IsSound info (LdapAnswer.entry e) on f =
      admit_provisioned-IsSound e (provision w db name e) (provision-source w db name e) on f

  -- the directory is asked only when it is enabled
  asked-IsSound :
      (info : Option UserInfo) (r : IdentityResult)
      → r.is_ok ≡ false
      → IsSound (if w.ldap_enabled then authenticate_ldap w db name password info else (db, r)).1
  unfolding authenticate_ldap IsSound
  asked-IsSound info r k = elim (Bool-cases w.ldap_enabled) [
    | inl on ↦
        subst (λ b. IsSound (if b then authenticate_ldap w db name password info else (db, r)).1)
          (sym on) (after_answer-IsSound info (w.ldap_authenticate name password) on refl)
    | inr off ↦
        subst (λ b. IsSound (if b then authenticate_ldap w db name password info else (db, r)).1)
          (sym off) (λ h. absurd (true≢false (sym h ∙ k)))
  ]

  authenticate_source-IsSound :
      (info : UserInfo) (hash : Option String) (s : UserSource)
      → info.source ≡ s
      → info.enabled ≡ true
      → load_user db name ≡ some (info, hash)
      → IsSound (authenticate_source w db name password info hash s).1
  unfolding authenticate_source IsSound IsVouched
  authenticate_source-IsSound info hash UserSource.ldap e k f =
      asked-IsSound (some info) (refuse "directory disabled" name (some info)) refl
  authenticate_source-IsSound info hash UserSource.local e k f =
      elim (Bool-cases (w.verify_password password hash)) [
        | inl v ↦
            subst
              (λ b. IsSound (
                let r : Tables × IdentityResult =
                  if b
                  then (record_login w db info.id, admit name info)
                  else (db, refuse "wrong password" name (some info)) in
                r.1))
              (sym v) (λ h. (info, refl, k, refl, inl (e, hash, f, v)))
        | inr v ↦
            subst
              (λ b. IsSound (
                let r : Tables × IdentityResult =
                  if b
                  then (record_login w db info.id, admit name info)
                  else (db, refuse "wrong password" name (some info)) in
                r.1))
              (sym v) (λ h. absurd (true≢false (sym h)))
      ]

  authenticate_found-IsSound :
      (found : Option (UserInfo × Option String))
      → load_user db name ≡ found
      → IsSound (authenticate_found w db name password found).1
  unfolding authenticate_found IsSound
  authenticate_found-IsSound none f = asked-IsSound none (refuse "unknown user" name none) refl
  authenticate_found-IsSound (some (info, hash)) f = elim (Bool-cases info.enabled) [
    | inl k ↦
        subst
          (λ b.
            IsSound
              (if b
                then authenticate_source w db name password info hash info.source
                else (db, refuse "user disabled" name (some info))).1)
          (sym k) (authenticate_source-IsSound info hash info.source refl k f)
    | inr k ↦
        subst
          (λ b.
            IsSound
              (if b
                then authenticate_source w db name password info hash info.source
                else (db, refuse "user disabled" name (some info))).1)
          (sym k) (λ h. absurd (true≢false (sym h)))
  ]

guarded :
    (b : Bool) (db : Tables) (r0 : IdentityResult) (r : Tables × IdentityResult)
    → r0.is_ok ≡ false
    → (let q : Tables × IdentityResult = if b then (db, r0) else r in q.1.is_ok) ≡ true
    → (b ≡ false) × (r ≡ (if b then (db, r0) else r))
guarded true db r0 r k h = absurd (true≢false (sym h ∙ k))
guarded false db r0 r k h = (refl, refl)

or-false : (a b : Bool) → (a || b) ≡ false → (a ≡ false) × (b ≡ false)
or-false true b h = absurd (true≢false h)
or-false false b h = (refl, h)

-- Network logins fail closed: `authenticate_user` succeeds only with a name that has a canonical
-- form and a password that is not empty, for an enabled account, under its canonical name, that is
-- either a stored local account whose hash verifies the password, or an account of the directory
-- while the directory is enabled and answered that name and password with an entry. A directory's
-- answer thus never lets anybody in as a local account.
pub authenticate_user-IsSound :
    (u : Unicode) (w : World) (db : Tables) (username password : String)
    → (authenticate_user u w db username password).1.is_ok ≡ true
    → (is_empty (canonical_username u (some username)) ≡ false)
      × (is_empty password ≡ false)
      × ((info : UserInfo) × ((authenticate_user u w db username password).1.user ≡ some info)
          × (info.enabled ≡ true)
          × ((authenticate_user u w db username password).1.username
              ≡ canonical_username u (some username))
          × IsVouched w db (canonical_username u (some username)) password info)
unfolding authenticate_user IsSound
authenticate_user-IsSound u w db username password h =
    let name = canonical_username u (some username) in
    let r = authenticate_found w db name password (load_user db name) in
    let (g, e) =
      guarded (is_empty name || is_empty password) db
        (refuse "missing or invalid credentials" (text_or name (clip max_username username)) none) r
        refl h in
    let (a, b) = or-false (is_empty name) (is_empty password) g in
    (
      a,
      b,
      subst
          (λ (q : Tables × IdentityResult).
            (info : UserInfo) × (q.1.user ≡ some info)
            × (info.enabled ≡ true)
            × (q.1.username ≡ name)
            × IsVouched w db name password info)
          e
          (authenticate_found-IsSound w db name password (load_user db name) refl
            (ap (λ (q : Tables × IdentityResult). q.1.is_ok) e ∙ h)),
    )
