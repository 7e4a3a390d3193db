-- ===== src/Maintenance.antt =====
-- naco/maintenance.py: what one pass removes. No other request writes old rows while it runs; of the old
-- rows the first ones of the table are deleted first. Times are in microseconds. The gauge of the
-- active sessions and `PRAGMA optimize` are left out.
pub mod Pruned
pub mod Kept
use naco.Base.{
  Bool, List, Option, [], false, if◌then◌else◌, is_some, keep, leb, length, ltb, none, not, or_else,
  some, suc, zero, ℕ, ◌&&◌, ◌*◌, ◌+◌, ◌||◌, ◌∷◌,
}
use naco.Models.{AdminSession, AuditLog, AuthLog, GuestRegistration, RadiusSession, TacacsLog}
use naco.Radius.Reevaluate.Worker.{Reevaluator, schedule}

abbrev pub chunk_size : ℕ
chunk_size = 5000

abbrev pub day : ℕ
day = 86400000000

pub record PassResult : Type 0 where
  pub pruned : ℕ
  pub guests_expired : ℕ

-- `retention` and the other settings that are read
pub record Retention : Type 0 where
  pub auth_log_days : ℕ
  pub tacacs_log_days : ℕ
  pub audit_log_days : ℕ
  pub session_idle_minutes : ℕ
  pub stale_session_hours : ℕ

-- the tables; the rows of the last two logs stand with their column `timestamp`
pub record Housekeeping : Type 0 where
  pub auth_logs : List AuthLog
  pub tacacs_logs : List (ℕ × TacacsLog)
  pub audit_logs : List (ℕ × AuditLog)
  pub admin_sessions : List AdminSession
  pub radius_sessions : List RadiusSession
  pub guests : List GuestRegistration
  pub reevaluator : Reevaluator

module _ {A : Type 0} (is_old : A → Bool) where
  -- one transaction: at most `n` old rows are deleted, and how many are
  pub delete_some : ℕ → List A → List A × ℕ
  delete_some zero rows = (rows, 0)
  delete_some (suc n) [] = ([], 0)
  delete_some (suc n) (x ∷ rows) =
      let deleted = delete_some n rows in
      let kept = delete_some (suc n) rows in
      if is_old x then (deleted.0, suc deleted.1) else (x ∷ kept.0, kept.1)

  -- the loop of `_prune`, on fuel
  pub prune_loop : ℕ → ℕ → ℕ → List A → Option (List A × ℕ)
  unfolding delete_some
  prune_loop zero chunk total rows = none
  prune_loop (suc fuel) chunk total rows =
      let (left, removed) = delete_some chunk rows in
      let rest = prune_loop fuel chunk (total + removed) left in
      if ltb removed chunk then some (left, total + removed) else rest

  -- `_prune`: one round more than there are rows is enough
  pub prune : List A → List A × ℕ
  unfolding prune_loop
  prune rows = or_else (prune_loop (suc (length rows)) chunk_size 0 rows) (rows, 0)

-- how many rows a test takes
abbrev pub count : {A : Type 0} → (A → Bool) → List A → ℕ
count p rows = length (keep p rows)

module _ (cfg : Retention) (now : ℕ) where
  -- `column < cutoff`, with the cutoff so many days ago
  pub is_past : ℕ → ℕ → Bool
  is_past days timestamp = ltb (timestamp + days * day) now

  pub is_dead : AdminSession → Bool
  is_dead s = ltb s.expires_at now || ltb (s.last_seen_at + cfg.session_idle_minutes * 60000000) now

  pub is_stale : RadiusSession → Bool
  is_stale s = ltb (s.updated_at + cfg.stale_session_hours * 3600000000) now

  -- the guest registrations that ran out since the last pass
  pub ran_out : Option ℕ → GuestRegistration → Bool
  ran_out none g = false
  ran_out (some since) g =
      not (is_some g.revoked_at) && ltb since g.expires_at && leb g.expires_at now

  -- `maintenance_pass`
  pub maintenance_pass : Housekeeping → Option ℕ → Housekeeping × PassResult
  unfolding prune is_past is_dead is_stale ran_out schedule
  maintenance_pass db since =
      let (auth, n) = prune (λ (x : AuthLog). is_past cfg.auth_log_days x.timestamp) db.auth_logs in
      let (tacacs, m) =
        prune (λ (x : ℕ × TacacsLog). is_past cfg.tacacs_log_days x.0) db.tacacs_logs in
      let (audit, k) = prune (λ (x : ℕ × AuditLog). is_past cfg.audit_log_days x.0) db.audit_logs in
      let expired = count (ran_out since) db.guests in
      (
        record db {
          auth_logs = auth;
          tacacs_logs = tacacs;
          audit_logs = audit;
          admin_sessions = keep (λ (s : AdminSession). not (is_dead s)) db.admin_sessions;
          radius_sessions = keep (λ (s : RadiusSession). not (is_stale s)) db.radius_sessions;
          reevaluator =
              if ltb 0 expired
              then schedule db.reevaluator "guest registrations expired"
              else db.reevaluator;
        },
        record { pruned = n + m + k; guests_expired = expired },
      )
