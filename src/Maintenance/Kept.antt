-- ===== src/Maintenance/Kept.antt =====
-- What one pass of naco/maintenance.py keeps and counts, in terms of the times of the rows.
use mathlib.Core.List.{Memᴰ}
use naco.Base.{
  Bool, Bool-cases, List, Option, [], ap, arith, false, if◌then◌else◌, inl, inr, keep, keep-mem,
  length, ltb, none, not, refl, some, subst, suc, sym, true, zero, ℕ, ◌*◌, ◌+◌, ◌<◌, ◌||◌, ◌↔◌, ◌∙◌,
  ◌∷◌, ◌≡◌, ◌≤◌,
}
use naco.Radius.Reevaluate.Worker.{Reevaluator, schedule}
use naco.Models.{AdminSession, AuditLog, AuthLog, GuestRegistration, RadiusSession, TacacsLog}
use naco.Maintenance.{
  Housekeeping, Retention, count, day, is_dead, is_past, is_stale, maintenance_pass, prune, ran_out,
}
use naco.Maintenance.Pruned.{count-young_all, prune_loop-ends, young}

if-positive :
    (n : ℕ) (r t : Reevaluator)
    → (let x = if ltb 0 n then r else t in (0 < n → x ≡ r) × (n ≡ 0 → x ≡ t))
if-positive zero r t = ((λ h. absurd (omega (arith, h))), (λ h. refl))
if-positive (suc n) r t = elim (Bool-cases (ltb 0 (suc n))) [
  | inl e ↦ ((λ h. ap (λ b. if b then r else t) e), (λ h. absurd (omega (arith, h))))
  | inr e ↦ absurd (ground (arith, e))
]

-- a row stays if it is not old, and an old row is one that the test names
stays-mem :
    {A : Type 0} (is_old : A → Bool) (rows : List A) (x : A)
    → Memᴰ x (keep (λ y. not (is_old y)) rows) ↔ (Memᴰ x rows × (is_old x ≡ false))
stays-mem is_old rows x =
    let it = keep-mem (λ y. not (is_old y)) rows x in
    ((λ m. let (a, b) = it.0 m in (a, ground (arith, b))), (λ m. it.1 (m.0, ground (arith, m.1))))

pruned-mem :
    {A : Type 0} (is_old : A → Bool) (rows : List A) (x : A)
    → Memᴰ x (prune is_old rows).0 ↔ (Memᴰ x rows × (is_old x ≡ false))
unfolding young
pruned-mem is_old rows x =
    subst (λ ys. Memᴰ x ys ↔ (Memᴰ x rows × (is_old x ≡ false)))
      (sym (ap (λ z. z.0) (prune_loop-ends is_old rows).1)) (stays-mem is_old rows x)

-- something is counted exactly if there is something to count
count-found :
    {A : Type 0} (p : A → Bool) (rows : List A)
    → (0 < count p rows) ↔ ((x : A) × Memᴰ x rows × (p x ≡ true))
count-found p rows = (
  λ h. let (x, q) = found (keep p rows) (λ x m. (keep-mem p rows x).0 m) h in (x, q.0, q.1),
  λ h. let (x, m, e) = h in counted (keep p rows) x ((keep-mem p rows x).1 (m, e)),
)
  where
    found :
        {A : Type 0} {P : A → Type 0} (ys : List A)
        → ((x : A) → Memᴰ x ys → P x)
        → 0 < length ys
        → (x : A) × P x
    found [] f h = absurd (omega (arith, h))
    found (y ∷ ys) f h = (y, f y (Memᴰ.head refl))

    counted : {A : Type 0} (ys : List A) (x : A) → Memᴰ x ys → 0 < length ys
    counted [] x m = elim m [ ]
    counted (y ∷ ys) x m = omega arith

whole :
    {A : Type 0} (p : A → Bool) (rows : List A)
    → (prune p rows).1 + length (prune p rows).0 ≡ length rows
whole p rows = ap (λ z. z.1 + length z.0) (prune_loop-ends p rows).1 ∙ count-young_all p rows

pruned_sum :
    (n m k a b c x y z : ℕ)
    → n + a ≡ x
    → m + b ≡ y
    → k + c ≡ z
    → n + m + k + (a + b + c) ≡ x + y + z
pruned_sum n m k a b c x y z p q r = omega (arith, p, q, r)

not_before : (a b : ℕ) → (ltb a b ≡ false) ↔ (b ≤ a)
not_before a b = ground arith

neither_before : (a b c d : ℕ) → ((ltb a b || ltb c d) ≡ false) ↔ ((b ≤ a) × (d ≤ c))
neither_before a b c d = ground arith

with_second : {A B C : Type 0} → (A ↔ B) → (C × A) ↔ (C × B)
with_second e = (λ h. (h.0, e.0 h.1), λ h. (h.0, e.1 h.1))

chain : {A B C : Type 0} → (A ↔ B) → (B ↔ C) → (A ↔ C)
chain e f = (λ a. f.0 (e.0 a), λ c. e.1 (f.1 c))

none_counted : (n : ℕ) → ¬ (0 < n) → n ≡ 0
none_counted zero h = refl
none_counted (suc n) h = absurd (h (omega arith))

with_both : {A B C D : Type 0} → (A ↔ (B × D)) → (C × A) ↔ (C × B × D)
with_both e = (λ h. (h.0, (e.0 h.1).0, (e.0 h.1).1), λ h. (h.0, e.1 (h.1, h.2)))

-- a guest registration that is not revoked and ran out after the last pass
pub IsExpired : ℕ → Option ℕ → GuestRegistration → Type 0
IsExpired now none g = ⊥
IsExpired now (some last) g = (g.revoked_at ≡ none) × (last < g.expires_at) × (g.expires_at ≤ now)

ran_out_iff :
    (cfg : Retention) (now : ℕ) (since : Option ℕ) (g : GuestRegistration)
    → (ran_out cfg now since g ≡ true) ↔ IsExpired now since g
unfolding ran_out IsExpired
ran_out_iff cfg now none g = ground arith
ran_out_iff cfg now (some last) g = ground arith

-- One pass keeps exactly what is in its time. A row of a log stays exactly if its timestamp is not
-- before the cutoff of that log's number of days; an administrator's session stays exactly if it has not
-- expired and was seen in the last `session_idle_minutes`; a RADIUS session stays exactly if it was
-- updated in the last `stale_session_hours`. The result counts every row deleted from the logs, and a
-- re-evaluation is scheduled exactly if a registration that is not revoked ran out after the last pass.
pub maintenance_pass-IsExact :
    (cfg : Retention) (now : ℕ) (db : Housekeeping) (since : Option ℕ)
    → let (after, result) = maintenance_pass cfg now db since in
      ((x : AuthLog)
        → Memᴰ x after.auth_logs
          ↔ (Memᴰ x db.auth_logs × (now ≤ x.timestamp + cfg.auth_log_days * 86400000000)))
      × ((x : ℕ × TacacsLog)
          → Memᴰ x after.tacacs_logs
            ↔ (Memᴰ x db.tacacs_logs × (now ≤ x.0 + cfg.tacacs_log_days * 86400000000)))
      × ((x : ℕ × AuditLog)
          → Memᴰ x after.audit_logs
            ↔ (Memᴰ x db.audit_logs × (now ≤ x.0 + cfg.audit_log_days * 86400000000)))
      × ((s : AdminSession)
          → Memᴰ s after.admin_sessions ↔ (
              Memᴰ s db.admin_sessions
              × (now ≤ s.expires_at)
              × (now ≤ s.last_seen_at + cfg.session_idle_minutes * 60000000)))
      × ((s : RadiusSession)
          → Memᴰ s after.radius_sessions ↔ (
              Memᴰ s db.radius_sessions
              × (now ≤ s.updated_at + cfg.stale_session_hours * 3600000000)))
      × (result.pruned
            + (length after.auth_logs + length after.tacacs_logs + length after.audit_logs)
          ≡ length db.auth_logs + length db.tacacs_logs + length db.audit_logs)
      × (((g : GuestRegistration) × Memᴰ g db.guests × IsExpired now since g)
          → after.reevaluator ≡ schedule db.reevaluator "guest registrations expired")
      × (¬ ((g : GuestRegistration) × Memᴰ g db.guests × IsExpired now since g)
          → after.reevaluator ≡ db.reevaluator)
unfolding maintenance_pass is_past is_dead is_stale
maintenance_pass-IsExact cfg now db since =
    let a = λ (x : AuthLog). is_past cfg now cfg.auth_log_days x.timestamp in
    let t = λ (x : ℕ × TacacsLog). is_past cfg now cfg.tacacs_log_days x.0 in
    let d = λ (x : ℕ × AuditLog). is_past cfg now cfg.audit_log_days x.0 in
    let guests =
      if-positive (count (ran_out cfg now since) db.guests)
        (schedule db.reevaluator "guest registrations expired") db.reevaluator in
    let some_out = count-found (ran_out cfg now since) db.guests in
    (
      (λ x.
          chain (pruned-mem a db.auth_logs x)
            (with_second (not_before (x.timestamp + cfg.auth_log_days * day) now))),
      (λ x.
          chain (pruned-mem t db.tacacs_logs x)
            (with_second (not_before (x.0 + cfg.tacacs_log_days * day) now))),
      (λ x.
          chain (pruned-mem d db.audit_logs x)
            (with_second (not_before (x.0 + cfg.audit_log_days * day) now))),
      (λ s. chain (stays-mem (is_dead cfg now) db.admin_sessions s) (
          with_both (
            neither_before s.expires_at now (s.last_seen_at + cfg.session_idle_minutes * 60000000)
              now))),
      (λ s.
          chain (stays-mem (is_stale cfg now) db.radius_sessions s)
            (with_second (not_before (s.updated_at + cfg.stale_session_hours * 3600000000) now))),
      pruned_sum _ _ _ _ _ _ _ _ _ (whole a db.auth_logs) (whole t db.tacacs_logs)
          (whole d db.audit_logs),
      (λ h. guests.0 (some_out.1 (h.0, h.1, (ran_out_iff cfg now since h.0).1 h.2))),
      (λ h. guests.1 (
          none_counted (count (ran_out cfg now since) db.guests)
            (λ k. let (g, m, e) = some_out.0 k in h (g, m, (ran_out_iff cfg now since g).0 e)))),
    )
