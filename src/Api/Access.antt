-- ===== src/Api/Access.antt =====
-- naco/api/deps.py: who is calling, and whether they may. A refused request leaves no trace of a
-- session's use, since its transaction is not committed. SHA-256 is a parameter; times are in
-- microseconds.
pub mod Callers
use Prim.Native.Char.{code}
use naco.Base.{
  Bool, Dict, List, Option, Result, String, Unicode, [], err, false, get, if◌then◌else◌, is_empty,
  is_some, join, leb, ltb, map, mem_text, none, not, ok, or_empty, raise_if, some, str_eq, strip,
  text_length, true, ℕ, ◌&&◌, ◌*◌, ◌+◌, ◌==◌, ◌>>=◌, ◌>>◌, ◌||◌, ◌∷◌,
}
use naco.Base.Utf8
use naco.Models.{AdminRole, AdminSession, AdminUser, ApiToken, allows}
use naco.Api.Totp.{second}
use naco.Api.Sessions.{Accounts, Security, resolve}

-- `ApiError(status, message, code)`
pub record ApiError : Type 0 where
  pub status : ℕ
  pub message : String
  pub error_code : Option String

pub data PrincipalKind : Type 0 where
  by_session by_token : PrincipalKind

-- the values of `restricted`
pub data Restriction : Type 0 where
  password totp : Restriction

pub record Principal : Type 0 where
  pub kind : PrincipalKind
  pub username : String
  pub role : AdminRole
  pub admin_id : Option ℕ
  pub session_id : Option ℕ
  pub token_id : Option ℕ
  pub csrf_token : String
  pub restricted : Option Restriction
  pub ip : String

-- the header names are in lower case; `cookie` is that of `naco_session`
pub record Request : Type 0 where
  pub method : String
  pub url_scheme : String
  pub headers : Dict String
  pub cookie : Option String
  pub host : Option String

pub record ApiTables : Type 0 where
  pub accounts : Accounts
  pub tokens : List ApiToken

abbrev pub safe_methods : List String
safe_methods = "GET" ∷ "HEAD" ∷ "OPTIONS" ∷ []

abbrev pub token_prefix : String
token_prefix = "naco_"

-- `client_ip`
unfoldable pub client_ip : Request → String
client_ip r = or_empty r.host

-- `restriction`
unfoldable pub restriction : Security → AdminUser → Option Restriction
restriction cfg a =
    if a.must_change_password
    then some password
    else if cfg.require_totp && is_empty (or_empty a.totp_secret)
    then some totp
    else none

-- `own_origin`
pub own_origin : Request → String
own_origin r = join r.url_scheme (join "://" (or_empty (get r.headers "host")))

abbrev pub forbid : String → String → ApiError
forbid message code = record { status = 403; message = message; error_code = some code }

-- `origin is not None and origin != own_origin(request)`
pub is_cross_origin : Request → Option String → Bool
unfolding own_origin
is_cross_origin r none = false
is_cross_origin r (some origin) = not (str_eq origin (own_origin r))

-- `site is not None and site not in ("same-origin", "none")`
pub is_cross_site : Option String → Bool
is_cross_site none = false
is_cross_site (some site) = not (mem_text site ("same-origin" ∷ "none" ∷ []))

-- `check_same_origin`
unfoldable pub check_same_origin : Request → Result ApiError (Unit {0})
unfolding is_cross_origin is_cross_site
check_same_origin r =
    raise_if (is_cross_origin r (get r.headers "origin"))
      (forbid "cross-origin request refused" "csrf")
    >> raise_if (is_cross_site (get r.headers "sec-fetch-site"))
        (forbid "cross-site request refused" "csrf")

abbrev pub unauthenticated : String → ApiError
unauthenticated message = record { status = 401; message = message; error_code = none }

pub find_token : List ApiToken → String → Option ApiToken
find_token [] hash = none
find_token (t ∷ tokens) hash =
    let rest = find_token tokens hash in if str_eq t.token_hash hash then some t else rest

abbrev pub reached : Option ℕ → ℕ → Bool
reached none now = false
reached (some t) now = leb t now

-- `token.last_used_at is None or now - token.last_used_at > timedelta(minutes=1)`
abbrev pub is_stale_use : Option ℕ → ℕ → Bool
is_stale_use none now = true
is_stale_use (some t) now = ltb (t + 60 * second) now

pub use_token : ApiToken → ℕ → List ApiToken → List ApiToken
use_token t now tokens =
    if is_stale_use t.last_used_at now
    then map (λ (x : ApiToken). if x.id == t.id then record x { last_used_at = some now } else x)
        tokens
    else tokens

-- `s.startswith(prefix)`
unfoldable pub starts_with : String → String → Bool
starts_with String.[] s = true
starts_with (String.◌∷◌ c p) String.[] = false
starts_with (String.◌∷◌ c p) (String.◌∷◌ d s) = code c == code d && starts_with p s

-- what stands before and after the first blank, as `s.partition(" ")`
pub partition : String → String × String
partition String.[] = ("", "")
partition (String.◌∷◌ c s) =
    let (a, b) = partition s in if code c == 0x20 then ("", s) else (String.◌∷◌ c a, b)

module _ (u : Unicode) (sha256 : List ℕ → String) (cfg : Security) where
  -- the token that was found
  pub token_row : ApiTables → String → ℕ → Option ApiToken → ApiTables × Result ApiError Principal
  unfolding use_token
  token_row db ip now none = (db, err (unauthenticated "invalid API token"))
  token_row db ip now (some t) =
      if is_some t.revoked_at || reached t.expires_at now
      then (db, err (unauthenticated "invalid API token"))
      else (
        record db { tokens = use_token t now db.tokens },
        ok (record {
          kind = by_token;
          username = join "token:" t.name;
          role = t.role;
          admin_id = none;
          session_id = none;
          token_id = some t.id;
          csrf_token = "";
          restricted = none;
          ip = ip;
        }),
      )

  -- `_token_principal`
  pub token_principal : ApiTables → String → String → ℕ → ApiTables × Result ApiError Principal
  unfolding starts_with find_token token_row
  token_principal db raw ip now =
      if not (starts_with token_prefix raw) || ltb 128 (text_length raw)
      then (db, err (unauthenticated "invalid API token"))
      else token_row db ip now (find_token db.tokens (sha256 (Utf8.encode raw)))

  -- the CSRF checks; texts are compared, which is comparing their bytes
  pub check_csrf : Request → AdminSession → Result ApiError (Unit {0})
  unfolding check_same_origin
  check_csrf r s =
      let given = or_empty (get r.headers "x-csrf-token") in
      if mem_text r.method safe_methods
      then ok tt
      else raise_if (is_empty given || not (str_eq given s.csrf_token))
          (forbid "missing or invalid CSRF token" "csrf")
        >> check_same_origin r

  pub session_of : Request → AdminSession → AdminUser → Principal
  unfolding restriction client_ip
  session_of r s a = record {
    kind = by_session;
    username = a.username;
    role = a.role;
    admin_id = some a.id;
    session_id = some s.id;
    token_id = none;
    csrf_token = s.csrf_token;
    restricted = restriction cfg a;
    ip = client_ip r;
  }

  -- the principal, if the checks pass; only then is the use of the session stored
  pub checked_principal :
      ApiTables
      → ApiTables
      → Principal
      → Result ApiError (Unit {0})
      → ApiTables × Result ApiError Principal
  checked_principal db used p (err e) = (db, err e)
  checked_principal db used p (ok x) = (used, ok p)

  -- what `sessions.resolve` found
  pub session_principal :
      ApiTables
      → Request
      → Accounts × Option (AdminSession × AdminUser)
      → ApiTables × Result ApiError Principal
  unfolding check_csrf session_of checked_principal
  session_principal db r (accounts, none) =
      (record db { accounts = accounts }, err (unauthenticated "not signed in"))
  session_principal db r (accounts, some (s, a)) =
      checked_principal db (record db { accounts = accounts }) (session_of r s a) (check_csrf r s)

  -- `current_principal`
  unfoldable pub current_principal : ApiTables → Request → ℕ → ApiTables × Result ApiError Principal
  unfolding partition token_principal session_principal client_ip resolve
  current_principal db r now =
      let (scheme, credential) = partition (or_empty (get r.headers "authorization")) in
      if str_eq (u.lower scheme) "bearer" && not (is_empty credential)
      then token_principal db (strip u credential) (client_ip r) now
      else session_principal db r (resolve sha256 cfg db.accounts r.cookie now)

-- the message of an unfinished setup
pub setup_message : Restriction → String
setup_message password = "finish account setup first: change your password"
setup_message totp = "finish account setup first: enroll two-factor authentication"

-- the text of a role
pub role_value : AdminRole → String
role_value AdminRole.viewer = "VIEWER"
role_value AdminRole.operator = "OPERATOR"
role_value AdminRole.superuser = "SUPERUSER"

-- `if not principal.role.allows(role)`
pub check_role : AdminRole → Principal → Result ApiError Principal
unfolding allows role_value
check_role role p =
    if allows p.role role
    then ok p
    else err (record {
      status = 403;
      message = join "requires the " (join (role_value role) " role");
      error_code = none;
    })

-- `principal.restricted and not setup_allowed`
pub check_setup : Option Restriction → Bool → Result ApiError (Unit {0})
unfolding setup_message
check_setup none setup_allowed = ok tt
check_setup (some what) setup_allowed =
    raise_if (not setup_allowed) (forbid (setup_message what) "setup_required")

-- `require(role, setup_allowed)`
unfoldable pub require : AdminRole → Bool → Principal → Result ApiError Principal
unfolding check_setup check_role
require role setup_allowed p = check_setup p.restricted setup_allowed >>= λ _. check_role role p
