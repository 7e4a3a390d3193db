-- ===== src/Tacacs/Server/Passes.antt =====
-- When TACACS+ authentication answers PASS: `verify` of naco/tacacs/server.py.
use naco.Base.{
  Bool, Bool-cases, List, Option, String, Unicode, ap, arith, clip, false, if◌then◌else◌, inl, inr,
  join, ltb, none, not, or_else, refl, some, subst, sym, text_or, true, ℕ, ◌&&◌, ◌∙◌, ◌≡◌, ◌≢◌, ◌≤◌,
}
use naco.Aaa.Identity.{
  IdentityResult, Tables, UserInfo, World, authenticate_user, canonical_username,
}
use naco.RateLimit.Guard
use naco.Tacacs.Wire.Bodies.{AuthenStart}
use naco.Tacacs.Authz.{admin_rights, privilege_allowed}
use naco.Tacacs.Authz.Commands.{admin_rights-allowed, privilege_allowed-le}
use naco.Tacacs.Server.{
  Reply, State, authen_fail, check_rights, is_enable, judge, say, status_pass, verify,
}

-- an account that may log in to devices, and for enable up to the level that is asked for
pub HasLevel : AuthenStart → Option UserInfo → Type 0
HasLevel start user =
    (x : UserInfo) × (user ≡ some x)
    × (x.enabled ≡ true)
    × ((level : ℕ) × (x.device_admin_privilege ≡ some level)
        × (is_enable start ≡ true → start.priv_lvl ≤ level))

fail_not_pass : authen_fail.status ≢ status_pass
fail_not_pass h = ground arith

reply_unless :
    (b : Bool) (r : Reply)
    → (let q : Reply = if not b then authen_fail else r in q.status) ≡ status_pass
    → (b ≡ true) × (r.status ≡ status_pass)
reply_unless true r h = (refl, h)
reply_unless false r h = absurd (fail_not_pass h)

reply_if :
    (b : Bool) (r : Reply)
    → (let q : Reply = if b then authen_fail else r in q.status) ≡ status_pass
    → (b ≡ false) × (r.status ≡ status_pass)
reply_if true r h = absurd (fail_not_pass h)
reply_if false r h = (refl, h)

implied : (a b : Bool) → (a && not b) ≡ false → a ≡ true → b ≡ true
implied a b h k = ground arith

check_rights-HasLevel :
    (start : AuthenStart) (user : Option UserInfo)
    → (check_rights start user).status ≡ status_pass
    → HasLevel start user
unfolding check_rights HasLevel
check_rights-HasLevel start none h = absurd (fail_not_pass h)
check_rights-HasLevel start (some x) h =
    let level = (privilege_allowed x start.priv_lvl).allowed in
    let (e, h1) =
      reply_unless (admin_rights (some x)).allowed
        (if is_enable start && not level then authen_fail else say status_pass "" false) h in
    let (g, h2) = reply_if (is_enable start && not level) (say status_pass "" false) h1 in
    let (on, (p, q)) = admin_rights-allowed x e in
    (
      x,
      refl,
      on,
      (
        p,
        q,
        λ k.
            subst (λ o. start.priv_lvl ≤ or_else o 0) q
              (privilege_allowed-le x start.priv_lvl (implied (is_enable start) level g k)),
      ),
    )

module _ (u : Unicode) (w : World) (ip : String) (decode_text : List ℕ → String) where
  judge-pass :
      (s : State) (start : AuthenStart) (key source : String) (r : Tables × IdentityResult)
      → (judge u w ip decode_text s start key source r).1.status ≡ status_pass
      → (r.1.is_ok ≡ true) × HasLevel start r.1.user
  unfolding judge
  judge-pass s start key source (tables, result) h = elim (Bool-cases result.is_ok) [
    | inl e ↦ (e, check_rights-HasLevel start result.user (sym (ap (λ b. reply b) e) ∙ h))
    | inr e ↦ absurd (fail_not_pass (sym (ap (λ b. reply b) e) ∙ h))
  ]
    where
      reply : Bool → ℕ
      reply b =
          (let q : State × Reply =
              if b
              then (
                record s { failures = Guard.success s.failures key source; tables = tables },
                check_rights start result.user,
              )
              else (
                record s { failures = Guard.failure s.failures key source w.now; tables = tables },
                authen_fail,
              ) in
            q.1.status)

  -- TACACS+ answers PASS only to whom it may: when `verify` answers PASS, `authenticate_user`
  -- accepted the name and the password, the account is enabled and its group grants a
  -- device-administration level, and for `enable` the level asked for is not above it.
  pub verify-pass :
      (s : State) (start : AuthenStart) (name password : String)
      → (verify u w ip decode_text s start name password).1.status ≡ status_pass
      → ((authenticate_user u w s.tables name password).1.is_ok ≡ true)
        × HasLevel start (authenticate_user u w s.tables name password).1.user
  unfolding verify
  verify-pass s start name password h =
      let key = text_or (canonical_username u (some name)) (clip 64 name) in
      let source = join ip (join "|" start.rem_addr) in
      let d = Guard.delay_for s.failures key source w.now in
      let r = authenticate_user u w s.tables name password in
      judge-pass (record s { failures = d.1 }) start key source r
        (guarded (ltb 0 d.0) (record s { failures = d.1 })
          (judge u w ip decode_text (record s { failures = d.1 }) start key source r) h)
    where
      guarded :
          (b : Bool) (s : State) (r : State × Reply)
          → (let q : State × Reply = if b then (s, authen_fail) else r in q.1.status) ≡ status_pass
          → r.1.status ≡ status_pass
      guarded true s r h = absurd (fail_not_pass h)
      guarded false s r h = h
