-- ===== src/Aaa/Identity.antt =====
-- naco/auth/identity.py. The tables `users` and `groups` are lists; the bcrypt check and the
-- directory (with the mapping of its groups to local ones) are parameters.
pub mod Logins
use Prim.Native.Char.{code}
use naco.Base.{
  Bool, List, Option, String, Unicode, [], any_of, clip, codes, false, if◌then◌else◌, is_empty,
  is_some, ltb, none, or_empty, some, str_eq, strip, text_length, text_or, true, ℕ, ◌++◌, ◌==◌,
  ◌||◌, ◌∷◌,
}
use naco.Models.{Group, User, UserSource}

pub record UserInfo : Type 0 where
  pub id : ℕ
  pub username : String
  pub source : UserSource
  pub enabled : Bool
  pub group_id : Option ℕ
  pub group_name : Option String
  pub device_admin_privilege : Option ℕ
  pub command_set_id : Option ℕ
  pub device_admin_attributes : List String

-- the class `IdentityResult`; `ok` is `is_ok`
pub record IdentityResult : Type 0 where
  pub is_ok : Bool
  pub reason : String
  pub username : String
  pub user : Option UserInfo

-- `LdapUser` of naco/auth/ldap.py, as far as it is read
pub record LdapUser : Type 0 where
  pub email : String
  pub full_name : String
  pub group_dns : List String

-- what `ldap_authenticate` does: it raises `LdapError`, or returns None or an entry
pub data LdapAnswer : Type 0 where
  unavailable refused : LdapAnswer
  entry : LdapUser → LdapAnswer

-- `bcrypt`, the configured directory, the clock and the next id
pub record World : Type 0 where
  pub verify_password : String → Option String → Bool
  pub ldap_enabled : Bool
  pub ldap_authenticate : String → String → LdapAnswer
  pub has_group_map : Bool
  pub map_group : List String → Option String
  pub now : ℕ
  pub next_id : ℕ

pub record Tables : Type 0 where
  pub users : List User
  pub groups : List Group

abbrev pub max_username : ℕ
max_username = 64

-- `name.rsplit("\\", 1)[1]`, or the whole name without a backslash
pub after_backslash : String → String
after_backslash s = keep_last s s
  where
    -- the text after the last backslash of the rest, or `best`
    keep_last : String → String → String
    keep_last String.[] best = best
    keep_last (String.◌∷◌ c s) best = if code c == 0x5C then keep_last s s else keep_last s best

abbrev pub same_id : Option ℕ → ℕ → Bool
same_id none id = false
same_id (some i) id = i == id

-- `outerjoin(Group, User.group_id == Group.id)`
pub group_of : List Group → Option ℕ → Option Group
group_of [] id = none
group_of (g ∷ groups) id = let rest = group_of groups id in if same_id id g.id then some g else rest

pub find_user : List User → String → Option User
find_user [] name = none
find_user (x ∷ users) name =
    let rest = find_user users name in if str_eq x.username name then some x else rest

unfoldable pub info_of : List Group → User → UserInfo
unfolding group_of
info_of groups x =
    let group = group_of groups x.group_id in
    record {
      id = x.id;
      username = x.username;
      source = x.source;
      enabled = x.enabled;
      group_id = x.group_id;
      group_name = elim group [ none ↦ none | some g ↦ some g.name ];
      device_admin_privilege = elim group [ none ↦ none | some g ↦ g.device_admin_privilege ];
      command_set_id = elim group [ none ↦ none | some g ↦ g.command_set_id ];
      device_admin_attributes = elim group [ none ↦ [] | some g ↦ g.device_admin_attributes ];
    }

-- `load_user`
unfoldable pub load_user : Tables → String → Option (UserInfo × Option String)
unfolding find_user info_of
load_user db name = elim (find_user db.users name) [
  | none ↦ none
  | some x ↦ some (info_of db.groups x, x.password_hash)
]

-- `_record_login`
pub stamp_login : ℕ → ℕ → List User → List User
stamp_login now id [] = []
stamp_login now id (x ∷ users) =
    let rest = stamp_login now id users in
    if x.id == id then record x { last_login_at = some now } ∷ users else x ∷ rest

pub record_login : World → Tables → ℕ → Tables
unfolding stamp_login
record_login w db id = record db { users = stamp_login w.now id db.users }

-- the id of the group of that name
pub group_id_of : List Group → Option String → Option ℕ
group_id_of [] name = none
group_id_of (g ∷ groups) none = none
group_id_of (g ∷ groups) (some name) =
    let rest = group_id_of groups (some name) in if str_eq g.name name then some g.id else rest

-- an LDAP account whose data the directory refreshes
pub refresh : World → LdapUser → Option ℕ → User → User
refresh w e group_id x = record x {
  email = text_or (clip 128 e.email) x.email;
  full_name = text_or (clip 128 e.full_name) x.full_name;
  group_id = if w.has_group_map then group_id else x.group_id;
  last_login_at = some w.now;
}

pub replace_user : String → User → List User → List User
replace_user name y [] = []
replace_user name y (x ∷ users) =
    let rest = replace_user name y users in if str_eq x.username name then y ∷ users else x ∷ rest

-- the account of a first login through the directory
pub new_user : World → String → LdapUser → Option ℕ → User
new_user w name e group_id = record {
  id = w.next_id;
  username = name;
  source = UserSource.ldap;
  password_hash = none;
  email = clip 128 e.email;
  full_name = clip 128 e.full_name;
  group_id = group_id;
  enabled = true;
  last_login_at = some w.now;
}

-- an account that is there; a local one is never taken over
pub provision_existing :
    World → Tables → String → LdapUser → Option ℕ → User → UserSource → Tables × Option UserInfo
unfolding refresh replace_user info_of
provision_existing w db name e group_id x UserSource.local = (db, none)
provision_existing w db name e group_id x UserSource.ldap = (
  record db { users = replace_user name (refresh w e group_id x) db.users },
  some (info_of db.groups (refresh w e group_id x)),
)

pub provision_row :
    World → Tables → String → LdapUser → Option ℕ → Option User → Tables × Option UserInfo
unfolding new_user provision_existing info_of
provision_row w db name e group_id none = (
  record db { users = db.users ++ new_user w name e group_id ∷ [] },
  some (info_of db.groups (new_user w name e group_id)),
)
provision_row w db name e group_id (some x) = provision_existing w db name e group_id x x.source

-- `_provision`
pub provision : World → Tables → String → LdapUser → Tables × Option UserInfo
unfolding find_user group_id_of provision_row
provision w db name e =
    let group_id =
      if w.has_group_map then group_id_of db.groups (w.map_group e.group_dns) else none in
    provision_row w db name e group_id (find_user db.users name)

abbrev pub refuse : String → String → Option UserInfo → IdentityResult
refuse reason username user = record {
  is_ok = false;
  reason = reason;
  username = username;
  user = user;
}

abbrev pub admit : String → UserInfo → IdentityResult
admit username user = record { is_ok = true; reason = "ok"; username = username; user = some user }

-- the end of `authenticate_user`: only an enabled account is let in
pub admit_provisioned : String → Tables × Option UserInfo → Tables × IdentityResult
admit_provisioned name (db, none) = (db, refuse "user disabled" name none)
admit_provisioned name (db, some p) =
    if p.enabled then (db, admit name p) else (db, refuse "user disabled" name (some p))

pub after_answer : World → Tables → String → Option UserInfo → LdapAnswer → Tables × IdentityResult
unfolding provision admit_provisioned
after_answer w db name info LdapAnswer.unavailable = (db, refuse "directory unavailable" name info)
after_answer w db name info LdapAnswer.refused =
    (db, refuse (if is_some info then "wrong password" else "unknown user") name info)
after_answer w db name info (LdapAnswer.entry e) = admit_provisioned name (provision w db name e)

-- the part of `authenticate_user` that asks the directory
pub authenticate_ldap : World → Tables → String → String → Option UserInfo → Tables × IdentityResult
unfolding after_answer
authenticate_ldap w db name password info =
    after_answer w db name info (w.ldap_authenticate name password)

-- an enabled account that is stored
pub authenticate_source :
    World
    → Tables
    → String
    → String
    → UserInfo
    → Option String
    → UserSource
    → Tables × IdentityResult
unfolding record_login authenticate_ldap
authenticate_source w db name password info pw_hash UserSource.local =
    if w.verify_password password pw_hash
    then (record_login w db info.id, admit name info)
    else (db, refuse "wrong password" name (some info))
authenticate_source w db name password info pw_hash UserSource.ldap =
    if w.ldap_enabled
    then authenticate_ldap w db name password (some info)
    else (db, refuse "directory disabled" name (some info))

-- what `load_user` found
pub authenticate_found :
    World → Tables → String → String → Option (UserInfo × Option String) → Tables × IdentityResult
unfolding authenticate_source authenticate_ldap
authenticate_found w db name password none =
    if w.ldap_enabled
    then authenticate_ldap w db name password none
    else (db, refuse "unknown user" name none)
authenticate_found w db name password (some (info, pw_hash)) =
    if info.enabled
    then authenticate_source w db name password info pw_hash info.source
    else (db, refuse "user disabled" name (some info))

module _ (u : Unicode) where
  -- `canonical_username`
  unfoldable pub canonical_username : Option String → String
  unfolding after_backslash strip
  canonical_username raw =
      let name = u.lower (after_backslash (strip u (or_empty raw))) in
      if is_empty name
        || ltb max_username (text_length name)
        || any_of (λ c. ltb c 0x20) (codes name)
      then ""
      else name

  -- `authenticate_user`
  unfoldable pub authenticate_user : World → Tables → String → String → Tables × IdentityResult
  unfolding canonical_username load_user authenticate_found
  authenticate_user w db username password =
      let name = canonical_username (some username) in
      if is_empty name || is_empty password
      then (
        db,
        refuse "missing or invalid credentials" (text_or name (clip max_username username)) none,
      )
      else authenticate_found w db name password (load_user db name)

  -- `lookup_user`
  pub lookup_user : Tables → String → Option UserInfo
  unfolding canonical_username load_user
  lookup_user db username =
      if is_empty (canonical_username (some username))
      then none
      else elim (load_user db (canonical_username (some username))) [
        | none ↦ none
        | some (info, pw_hash) ↦ some info
      ]
