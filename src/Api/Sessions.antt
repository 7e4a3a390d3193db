-- ===== src/Api/Sessions.antt =====
-- naco/api/sessions.py: the sessions of administrators. SHA-256 and the random texts are parameters;
-- times are in microseconds. The cookies' attributes are left out.
pub mod Resolved
pub mod Lifetime
use naco.Base.{
  Bool, List, Option, String, [], clip, if◌then◌else◌, is_empty, keep, leb, ltb, map, none, not,
  or_empty, some, str_eq, text_length, ℕ, ◌&&◌, ◌*◌, ◌++◌, ◌+◌, ◌==◌, ◌||◌, ◌∷◌,
}
use naco.Base.Utf8
use naco.Models.{AdminSession, AdminUser}
use naco.Api.Totp.{second}

-- `security` of the configuration, as far as it is read
pub record Security : Type 0 where
  pub session_idle_minutes : ℕ
  pub session_max_hours : ℕ
  pub require_totp : Bool
  pub login_window_seconds : ℕ

-- the tables of administrators and of their sessions
pub record Accounts : Type 0 where
  pub admins : List AdminUser
  pub sessions : List AdminSession

pub find_session : List AdminSession → String → Option AdminSession
find_session [] hash = none
find_session (s ∷ sessions) hash =
    let rest = find_session sessions hash in if str_eq s.token_hash hash then some s else rest

unfoldable pub find_admin : List AdminUser → ℕ → Option AdminUser
find_admin [] id = none
find_admin (a ∷ admins) id = let rest = find_admin admins id in if a.id == id then some a else rest

-- `db.delete(session)`
unfoldable pub delete_session : ℕ → List AdminSession → List AdminSession
delete_session id sessions = keep (λ (s : AdminSession). not (s.id == id)) sessions

-- the session that is stored instead of the one of that id
pub store_session : AdminSession → List AdminSession → List AdminSession
store_session t sessions = map (λ (s : AdminSession). if s.id == t.id then t else s) sessions

abbrev pub touch_every : ℕ
touch_every = 60 * second

-- the new value of `session` in `resolve`
pub touched : ℕ → AdminSession → AdminSession
touched now s =
    if leb (s.last_seen_at + touch_every) now then record s { last_seen_at = now } else s

-- expired, idle too long, or the account is disabled
pub is_over : Security → ℕ → AdminSession → AdminUser → Bool
is_over cfg now s a =
    leb s.expires_at now
    || leb (s.last_seen_at + cfg.session_idle_minutes * (60 * second)) now
    || not a.enabled

-- `revoke_all`
pub is_revoked : ℕ → Option ℕ → AdminSession → Bool
is_revoked admin_id none s = s.admin_id == admin_id
is_revoked admin_id (some keep_id) s = s.admin_id == admin_id && not (s.id == keep_id)

unfoldable pub revoke_all : Accounts → ℕ → Option ℕ → Accounts
unfolding is_revoked
revoke_all db admin_id keep_id = record db {
  sessions = keep (λ (s : AdminSession). not (is_revoked admin_id keep_id s)) db.sessions;
}

module _ (sha256 : List ℕ → String) (cfg : Security) where
  -- `token_hash`
  pub token_hash : String → String
  token_hash raw = sha256 (Utf8.encode raw)

  -- `create`, with the id and the texts that are drawn
  unfoldable pub create :
      Accounts → ℕ → String → String → AdminUser → String → String → ℕ → Accounts × AdminSession
  unfolding token_hash
  create db id raw csrf admin ip user_agent now =
      let s : AdminSession = record {
        id = id;
        token_hash = token_hash raw;
        admin_id = admin.id;
        csrf_token = csrf;
        created_at = now;
        last_seen_at = now;
        expires_at = now + cfg.session_max_hours * (3600 * second);
        ip = clip 45 ip;
        user_agent = clip 256 user_agent;
      } in
      (record db { sessions = db.sessions ++ s ∷ [] }, s)

  -- the joined row
  pub resolve_row :
      Accounts → ℕ → AdminSession → Option AdminUser → Accounts × Option (AdminSession × AdminUser)
  unfolding is_over delete_session store_session touched
  resolve_row db now s none = (db, none)
  resolve_row db now s (some a) =
      if is_over cfg now s a
      then (record db { sessions = delete_session s.id db.sessions }, none)
      else (
        record db { sessions = store_session (touched now s) db.sessions },
        some (touched now s, a),
      )

  pub resolve_found :
      Accounts → ℕ → Option AdminSession → Accounts × Option (AdminSession × AdminUser)
  unfolding find_admin resolve_row
  resolve_found db now none = (db, none)
  resolve_found db now (some s) = resolve_row db now s (find_admin db.admins s.admin_id)

  -- `resolve`
  unfoldable pub resolve :
      Accounts → Option String → ℕ → Accounts × Option (AdminSession × AdminUser)
  unfolding find_session token_hash resolve_found
  resolve db raw now =
      if is_empty (or_empty raw) || ltb 128 (text_length (or_empty raw))
      then (db, none)
      else resolve_found db now (find_session db.sessions (token_hash (or_empty raw)))
