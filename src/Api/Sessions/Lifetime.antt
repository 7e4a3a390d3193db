-- ===== src/Api/Sessions/Lifetime.antt =====
-- How long a session of naco/api/sessions.py lives, whatever happens to the tables.
use mathlib.Core.List.{Memᴰ}
use naco.Base.{
  eq_iff, All, All-append, All-keep, All-weaken, Bool, Bool-cases, List, Option, String, [], ap,
  arith, if_both, if◌then◌else◌, inl, inr, is_empty, keep, keep-mem, leb, ltb, none, none_not_some,
  not, or_empty, refl, some, some-inj, str_eq, subst, sym, text_length, true, ℕ, ◌*◌, ◌+◌, ◌<◌,
  ◌==◌, ◌||◌, ◌↔◌, ◌∙◌, ◌∷◌, ◌≡◌,
}
use naco.Models.{AdminSession, AdminUser}
use naco.Api.Totp.{second}
use naco.Api.Sessions.Resolved.{IsLive, resolve_iff}
use naco.Api.Sessions.{
  Accounts, Security, create, delete_session, find_admin, find_session, is_over, is_revoked,
  resolve, resolve_found, resolve_row, revoke_all, store_session, token_hash, touch_every, touched,
}

-- one change of the sessions
pub data Change : Type 0 where
  created : ℕ → String → String → AdminUser → String → String → ℕ → Change
  resolved : Option String → ℕ → Change
  revoked : ℕ → Option ℕ → Change
  ended : ℕ → Change

module _ (sha256 : List ℕ → String) (cfg : Security) where
  unfoldable pub apply : Accounts → Change → Accounts
  unfolding create resolve revoke_all delete_session
  apply db (created id raw csrf admin ip user_agent now) =
      (create sha256 cfg db id raw csrf admin ip user_agent now).0
  apply db (resolved raw now) = (resolve sha256 cfg db raw now).0
  apply db (revoked admin_id keep_id) = revoke_all db admin_id keep_id
  apply db (ended id) = record db { sessions = delete_session id db.sessions }

  unfoldable pub apply_all : Accounts → List Change → Accounts
  unfolding apply
  apply_all db [] = db
  apply_all db (c ∷ changes) = apply_all (apply db c) changes

  -- the change creates a session of the token's hash at that time, or resolves the token then
  pub IsUse : Change → String → ℕ → Type 0
  unfolding token_hash
  IsUse (created id raw csrf admin ip user_agent now) hash at =
      (token_hash sha256 cfg raw ≡ hash) × (now ≡ at)
  IsUse (resolved raw now) hash at = (token_hash sha256 cfg (or_empty raw) ≡ hash) × (now ≡ at)
  IsUse (revoked admin_id keep_id) hash at = ⊥
  IsUse (ended id) hash at = ⊥

  -- one of the changes does
  pub IsUsed : List Change → String → ℕ → Type 0
  IsUsed changes hash at = (c : Change) × Memᴰ c changes × IsUse c hash at

  -- what the stored sessions keep, for any account `W` of the uses
  module _ (W : String → ℕ → Type 0) where
    IsTimed : AdminSession → Type 0
    IsTimed s =
        (s.expires_at ≡ s.created_at + cfg.session_max_hours * (3600 * second))
        × W s.token_hash s.last_seen_at

    All-kept :
        (p : AdminSession → Bool) (xs : List AdminSession)
        → All IsTimed xs
        → All IsTimed (keep p xs)
    All-kept p xs h =
        All-weaken (λ s. IsTimed s × (p s ≡ true)) IsTimed (λ s k. k.0) (keep p xs)
          (All-keep IsTimed p xs h)

    touched-IsTimed :
        (now : ℕ) (s : AdminSession) → W s.token_hash now → IsTimed s → IsTimed (touched now s)
    unfolding touched IsTimed
    touched-IsTimed now s w h =
        if_both IsTimed (leb (s.last_seen_at + touch_every) now) (record s { last_seen_at = now }) s
          (h.0, w) h

    store-IsTimed :
        (t : AdminSession) (xs : List AdminSession)
        → IsTimed t
        → All IsTimed xs
        → All IsTimed (store_session t xs)
    unfolding store_session
    store-IsTimed t [] ht h = tt
    store-IsTimed t (x ∷ xs) ht h =
        (if_both IsTimed (x.id == t.id) t x ht h.0, store-IsTimed t xs ht h.1)

    find-IsTimed :
        (xs : List AdminSession) (hash : String) (s : AdminSession)
        → All IsTimed xs
        → find_session xs hash ≡ some s
        → IsTimed s
    unfolding find_session
    find-IsTimed [] hash s a h = absurd (none_not_some h)
    find-IsTimed (x ∷ xs) hash s a h = elim (Bool-cases (str_eq x.token_hash hash)) [
      | inl e ↦
          subst IsTimed
            (some-inj (sym (ap (λ b. if b then some x else find_session xs hash) e) ∙ h)) a.0
      | inr e ↦
          find-IsTimed xs hash s a.1
            (sym (ap (λ b. if b then some x else find_session xs hash) e) ∙ h)
    ]

    find-hash :
        (xs : List AdminSession) (hash : String) (s : AdminSession)
        → find_session xs hash ≡ some s
        → s.token_hash ≡ hash
    unfolding find_session
    find-hash [] hash s h = absurd (none_not_some h)
    find-hash (x ∷ xs) hash s h = elim (Bool-cases (str_eq x.token_hash hash)) [
      | inl e ↦
          let q : x ≡ s =
            some-inj (sym (ap (λ b. if b then some x else find_session xs hash) e) ∙ h) in
          sym (ap (λ (y : AdminSession). y.token_hash) q) ∙ (eq_iff x.token_hash hash).0 e
      | inr e ↦
          find-hash xs hash s (sym (ap (λ b. if b then some x else find_session xs hash) e) ∙ h)
    ]

    resolve_row-IsTimed :
        (db : Accounts) (now : ℕ) (s : AdminSession) (o : Option AdminUser)
        → W s.token_hash now
        → IsTimed s
        → All IsTimed db.sessions
        → All IsTimed (resolve_row sha256 cfg db now s o).0.sessions
    unfolding resolve_row delete_session
    resolve_row-IsTimed db now s none w t h = h
    resolve_row-IsTimed db now s (some a) w t h =
        if_both (λ (r : Accounts × Option (AdminSession × AdminUser)). All IsTimed r.0.sessions)
          (is_over cfg now s a) (record db { sessions = delete_session s.id db.sessions }, none)
          (
            record db { sessions = store_session (touched now s) db.sessions },
            some (touched now s, a),
          )
          (All-kept (λ (x : AdminSession). not (x.id == s.id)) db.sessions h)
          (store-IsTimed (touched now s) db.sessions (touched-IsTimed now s w t) h)

    resolve_found-IsTimed :
        (db : Accounts) (now : ℕ) (o : Option AdminSession)
        → ((s : AdminSession) → o ≡ some s → W s.token_hash now × IsTimed s)
        → All IsTimed db.sessions
        → All IsTimed (resolve_found sha256 cfg db now o).0.sessions
    unfolding resolve_found
    resolve_found-IsTimed db now none t h = h
    resolve_found-IsTimed db now (some s) t h =
        resolve_row-IsTimed db now s (find_admin db.admins s.admin_id) (t s refl).0 (t s refl).1 h

    resolve-IsTimed :
        (db : Accounts) (raw : Option String) (now : ℕ)
        → W (token_hash sha256 cfg (or_empty raw)) now
        → All IsTimed db.sessions
        → All IsTimed (resolve sha256 cfg db raw now).0.sessions
    unfolding resolve
    resolve-IsTimed db raw now w h =
        let o = find_session db.sessions (token_hash sha256 cfg (or_empty raw)) in
        if_both (λ (r : Accounts × Option (AdminSession × AdminUser)). All IsTimed r.0.sessions)
          (is_empty (or_empty raw) || ltb 128 (text_length (or_empty raw))) (db, none)
          (resolve_found sha256 cfg db now o) h
          (resolve_found-IsTimed db now o
            (λ s e. (
              subst (λ k. W k now)
                  (sym (find-hash db.sessions (token_hash sha256 cfg (or_empty raw)) s e)) w,
              find-IsTimed db.sessions (token_hash sha256 cfg (or_empty raw)) s h e,
            ))
            h)

    apply-IsTimed :
        (db : Accounts) (c : Change)
        → ((hash : String) (at : ℕ) → IsUse c hash at → W hash at)
        → All IsTimed db.sessions
        → All IsTimed (apply db c).sessions
    unfolding apply IsTimed IsUse
    apply-IsTimed db (created id raw csrf admin ip user_agent now) k h =
        unfold create in
        All-append IsTimed db.sessions _ h
          ((refl, k (token_hash sha256 cfg raw) now (refl, refl)), tt)
    apply-IsTimed db (resolved raw now) k h =
        resolve-IsTimed db raw now (k (token_hash sha256 cfg (or_empty raw)) now (refl, refl)) h
    apply-IsTimed db (revoked admin_id keep_id) k h = unfold revoke_all in All-kept _ db.sessions h
    apply-IsTimed db (ended id) k h = unfold delete_session in All-kept _ db.sessions h

    apply_all-IsTimed :
        (changes : List Change) (db : Accounts)
        → ((hash : String) (at : ℕ) → IsUsed changes hash at → W hash at)
        → All IsTimed db.sessions
        → All IsTimed (apply_all db changes).sessions
    unfolding apply_all IsUsed
    apply_all-IsTimed [] db k h = h
    apply_all-IsTimed (c ∷ changes) db k h =
        apply_all-IsTimed changes (apply db c) (λ hash at x. k hash at (x.0, Memᴰ.tail x.1, x.2))
          (apply-IsTimed db c (λ hash at x. k hash at (c, Memᴰ.head refl, x)) h)

  created_then :
      (now : ℕ) (s : AdminSession)
      → s.expires_at ≡ s.created_at + cfg.session_max_hours * (3600 * second)
      → now < s.expires_at
      → now < (touched now s).created_at + cfg.session_max_hours * (3600 * second)
  unfolding touched
  created_then now s e h =
      if_both (λ (y : AdminSession). now < y.created_at + cfg.session_max_hours * (3600 * second))
        (leb (s.last_seen_at + touch_every) now) (record s { last_seen_at = now }) s
        (omega (arith, e, h)) (omega (arith, e, h))

  -- No session outlives its time: after any history of creations, uses, revocations and endings of
  -- sessions, a cookie that `resolve` accepts is that of a session created less than
  -- `session_max_hours` ago, and less than `session_idle_minutes` ago the history has a creation of a
  -- session of that token, or a call of `resolve` with it.
  pub resolve-young :
      (admins : List AdminUser) (changes : List Change) (raw : Option String) (now : ℕ)
      (t : AdminSession) (a : AdminUser)
      → (resolve sha256 cfg
          (apply_all (record { admins = admins; sessions = [] }) changes)
          raw
          now).1
        ≡ some (t, a)
      → (now < t.created_at + cfg.session_max_hours * (3600 * second))
        × (at : ℕ) × IsUsed changes (token_hash sha256 cfg (or_empty raw)) at
        × (now < at + cfg.session_idle_minutes * (60 * second))
  resolve-young admins changes raw now t a h =
      let db = apply_all (record { admins = admins; sessions = [] }) changes in
      let hash = token_hash sha256 cfg (or_empty raw) in
      let used = IsUsed changes in
      let (n, l, s, f, v, q) = (resolve_iff sha256 cfg db raw now t a).0 h in
      let timed =
        find-IsTimed used db.sessions hash s
          (apply_all-IsTimed used changes (record { admins = admins; sessions = [] }) (λ k at x. x)
            tt)
          f in
      unfold IsTimed IsLive in
      (
        subst (λ (y : AdminSession). now < y.created_at + cfg.session_max_hours * (3600 * second))
            (sym q) (created_then now s timed.0 v.1),
        s.last_seen_at,
        subst (λ k. IsUsed changes k s.last_seen_at) (find-hash used db.sessions hash s f) timed.1,
        v.2,
      )

is_revoked_iff :
    (admin_id : ℕ) (keep_id : Option ℕ) (s : AdminSession)
    → (not (is_revoked admin_id keep_id s) ≡ true) ↔ (s.admin_id ≡ admin_id → keep_id ≡ some s.id)
unfolding is_revoked
is_revoked_iff admin_id none s = ground arith
is_revoked_iff admin_id (some k) s = ground arith

-- Revoking is complete and touches nobody else: after `revoke_all` for an administrator exactly those
-- sessions are stored that were stored before and, if they are that administrator's, have the id
-- that was to be kept.
pub revoke_all-mem :
    (db : Accounts) (admin_id : ℕ) (keep_id : Option ℕ) (s : AdminSession)
    → Memᴰ s (revoke_all db admin_id keep_id).sessions
      ↔ (Memᴰ s db.sessions × (s.admin_id ≡ admin_id → keep_id ≡ some s.id))
unfolding revoke_all
revoke_all-mem db admin_id keep_id s =
    let kept = keep-mem (λ (x : AdminSession). not (is_revoked admin_id keep_id x)) db.sessions s in
    let spared = is_revoked_iff admin_id keep_id s in
    ((λ m. let (n, e) = kept.0 m in (n, spared.0 e)), (λ h. kept.1 (h.0, spared.1 h.1)))
