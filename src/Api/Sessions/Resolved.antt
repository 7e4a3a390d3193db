-- ===== src/Api/Sessions/Resolved.antt =====
-- Whom `resolve` of naco/api/sessions.py signs in.
use naco.Base.{
  Bool, List, Option, String, ap, arith, false, is_empty, leb, ltb, none, none_not_some, not,
  or_empty, refl, some, some-inj, subst, sym, text_length, true, unless_iff, ℕ, ◌*◌, ◌+◌, ◌<◌, ◌||◌,
  ◌↔◌, ◌≡◌, ◌≤◌,
}
use naco.Models.{AdminSession, AdminUser}
use naco.Api.Totp.{second}
use naco.Api.Sessions.{
  Accounts, Security, delete_session, find_admin, find_session, is_over, resolve, resolve_found,
  resolve_row, store_session, token_hash, touched,
}

over_iff :
    (e i now : ℕ) (b : Bool)
    → ((leb e now || leb i now || not b) ≡ false) ↔ ((now < e) × (now < i) × (b ≡ true))
over_iff e i now b = ground arith

named_iff : (e : Bool) (n : ℕ) → ((e || ltb 128 n) ≡ false) ↔ ((e ≡ false) × (n ≤ 128))
named_iff e n = ground arith

module _ (sha256 : List ℕ → String) (cfg : Security) where
  -- a stored session of an enabled administrator that is neither expired nor idle
  unfoldable pub IsLive : Accounts → ℕ → AdminSession → AdminUser → Type 0
  IsLive db now s a =
      (find_admin db.admins s.admin_id ≡ some a)
      × (now < s.expires_at)
      × (now < s.last_seen_at + cfg.session_idle_minutes * (60 * second))
      × (a.enabled ≡ true)

  resolve_row_iff :
      (db : Accounts) (now : ℕ) (s t : AdminSession) (o : Option AdminUser) (a : AdminUser)
      → ((resolve_row sha256 cfg db now s o).1 ≡ some (t, a)) ↔ (
          (o ≡ some a)
          × (now < s.expires_at)
          × (now < s.last_seen_at + cfg.session_idle_minutes * (60 * second))
          × (a.enabled ≡ true)
          × (t ≡ touched now s))
  unfolding resolve_row is_over
  resolve_row_iff db now s t none a =
      ((λ h. absurd (none_not_some h)), (λ h. absurd (none_not_some h.0)))
  resolve_row_iff db now s t (some b) a =
      let over =
        over_iff s.expires_at (s.last_seen_at + cfg.session_idle_minutes * (60 * second)) now
          b.enabled in
      let given =
        unless_iff (is_over cfg now s b) (record db { sessions = delete_session s.id db.sessions })
          (
            record db { sessions = store_session (touched now s) db.sessions },
            some (touched now s, b),
          )
          (t, a) in
      (
        (λ h.
            let (e, p) = given.0 h in
            let (x, i, n) = over.0 e in
            let q : (touched now s, b) ≡ (t, a) = some-inj p in
            let ea : b ≡ a = ap (λ z. z.1) q in
            (ap (λ z. some z) ea, x, i, subst (λ z. z.enabled ≡ true) ea n, sym (ap (λ z. z.0) q))),
        (λ h.
            let (e, x, i, n, q) = h in
            let ea : b ≡ a = some-inj e in
            given.1 (
              over.1 (x, i, subst (λ (z : AdminUser). z.enabled ≡ true) (sym ea) n),
              (λ k. some (sym q k, ea k)),
            )),
      )

  resolve_found_iff :
      (db : Accounts) (now : ℕ) (o : Option AdminSession) (t : AdminSession) (a : AdminUser)
      → ((resolve_found sha256 cfg db now o).1 ≡ some (t, a))
        ↔ ((s : AdminSession) × (o ≡ some s) × IsLive db now s a × (t ≡ touched now s))
  unfolding resolve_found IsLive
  resolve_found_iff db now none t a =
      ((λ h. absurd (none_not_some h)), (λ h. absurd (none_not_some h.1)))
  resolve_found_iff db now (some s) t a =
      let row = resolve_row_iff db now s t (find_admin db.admins s.admin_id) a in
      (
        (λ h. let (f, x, i, n, q) = row.0 h in (s, refl, (f, x, i, n), q)),
        (λ h.
            let (z, e, l, q) = h in
            let (l2, q2) =
              subst (λ (y : AdminSession). IsLive db now y a × (t ≡ touched now y))
                (sym (some-inj e)) (l, q) in
            row.1 (l2.0, l2.1, l2.2, l2.3, q2)),
      )

  -- `resolve` signs a caller in exactly if the cookie's text is not empty, has at most 128 characters,
  -- and its hash belongs to a stored session that is neither expired nor idle too long and whose
  -- administrator is enabled; the session returned is that one, last seen now if a minute has passed.
  pub resolve_iff :
      (db : Accounts) (raw : Option String) (now : ℕ) (t : AdminSession) (a : AdminUser)
      → ((resolve sha256 cfg db raw now).1 ≡ some (t, a)) ↔ (
          (is_empty (or_empty raw) ≡ false)
          × (text_length (or_empty raw) ≤ 128)
          × (s : AdminSession) × (find_session db.sessions (token_hash sha256 cfg (or_empty raw))
              ≡ some s)
          × IsLive db now s a
          × (t ≡ touched now s))
  unfolding resolve
  resolve_iff db raw now t a =
      let named = named_iff (is_empty (or_empty raw)) (text_length (or_empty raw)) in
      let found =
        resolve_found_iff db now (find_session db.sessions (token_hash sha256 cfg (or_empty raw))) t
          a in
      let given =
        unless_iff (is_empty (or_empty raw) || ltb 128 (text_length (or_empty raw))) db
          (resolve_found sha256 cfg db now
            (find_session db.sessions (token_hash sha256 cfg (or_empty raw))))
          (t, a) in
      (
        (λ h.
            let (e, r) = given.0 h in
            let (n, l) = named.0 e in let (s, f, v, q) = found.0 r in (n, l, s, f, v, q)),
        (λ h. given.1 (named.1 (h.0, h.1), found.1 (h.2, h.3, h.4, h.5))),
      )
