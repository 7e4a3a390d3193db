-- ===== src/Api/Access/Callers.antt =====
-- Whom `current_principal` and `require` of naco/api/deps.py let in.
use mathlib.Core.Bool.{true≢false}
use naco.Base.{
  Bool, Bool-cases, List, Option, Result, String, Unicode, [], ap, arith, bind-ok, eq_iff, err,
  err_not_ok, false, get, if◌then◌else◌, inl, inr, is_empty, is_some, leb→le, le→leb, ltb, mem_text,
  none, none_not_some, not, ok, ok-inj, or_empty, raise-ok, raised-ok, refl, some, some-inj, str_eq,
  strip, subst, sym, text_length, true, unless_err, ℕ, ◌&&◌, ◌<◌, ◌>>=◌, ◌||◌, ◌↔◌, ◌∙◌, ◌∷◌, ◌≡◌,
  ◌≤◌, ◌⊎◌,
}
use naco.Base.Utf8
use naco.Models.{AdminRole, AdminSession, AdminUser, ApiToken, allows, rank}
use naco.Api.Sessions.{Accounts, Security, resolve}
use naco.Api.Access.{
  ApiError, ApiTables, Principal, Request, Restriction, by_token, check_csrf, check_role,
  check_same_origin, check_setup, checked_principal, client_ip, current_principal, find_token,
  forbid, is_cross_origin, is_cross_site, own_origin, partition, reached, require, safe_methods,
  session_of, session_principal, starts_with, token_prefix, token_principal, token_row,
  unauthenticated,
}

-- the request names its own origin, or none
pub IsSameOrigin : Request → Type 0
IsSameOrigin r =
    ((o : String) → get r.headers "origin" ≡ some o → o ≡ own_origin r)
    × ((site : String)
        → get r.headers "sec-fetch-site" ≡ some site
        → mem_text site ("same-origin" ∷ "none" ∷ []) ≡ true)

-- the CSRF token of the session and the request's own origin
pub IsGuarded : Request → AdminSession → Type 0
IsGuarded r s =
    (is_empty (or_empty (get r.headers "x-csrf-token")) ≡ false)
    × (or_empty (get r.headers "x-csrf-token") ≡ s.csrf_token)
    × IsSameOrigin r

origin_lem :
    (r : Request) (o : Option String)
    → is_cross_origin r o ≡ false
    → (x : String) → o ≡ some x
    → x ≡ own_origin r
unfolding is_cross_origin
origin_lem r none h x e = absurd (none_not_some e)
origin_lem r (some y) h x e =
    subst (λ z. z ≡ own_origin r) (some-inj e) (ground (arith, eq_iff y (own_origin r)))

site_lem :
    (o : Option String)
    → is_cross_site o ≡ false
    → (x : String) → o ≡ some x
    → mem_text x ("same-origin" ∷ "none" ∷ []) ≡ true
unfolding is_cross_site
site_lem none h x e = absurd (none_not_some e)
site_lem (some y) h x e =
    subst (λ z. mem_text z ("same-origin" ∷ "none" ∷ []) ≡ true) (some-inj e)
      (positive (mem_text y ("same-origin" ∷ "none" ∷ [])) h)
  where
    positive : (b : Bool) → not b ≡ false → b ≡ true
    positive true h = refl
    positive false h = absurd (true≢false h)

check_same_origin-IsSameOrigin : (r : Request) → check_same_origin r ≡ ok tt → IsSameOrigin r
unfolding check_same_origin IsSameOrigin
check_same_origin-IsSameOrigin r h =
    let (a, k) =
      raise-ok (is_cross_origin r (get r.headers "origin"))
        (forbid "cross-origin request refused" "csrf") _ h in
    let b =
      raised-ok (is_cross_site (get r.headers "sec-fetch-site"))
        (forbid "cross-site request refused" "csrf") k in
    (origin_lem r (get r.headers "origin") a, site_lem (get r.headers "sec-fetch-site") b)

same_text : (e : Bool) (s t : String) → (e || not (str_eq s t)) ≡ false → (e ≡ false) × (s ≡ t)
same_text e s t h = ground (arith, eq_iff s t)

usable_lem :
    (o x : Option ℕ) (now : ℕ)
    → (is_some o || reached x now) ≡ false
    → (o ≡ none) × ((e : ℕ) → x ≡ some e → now < e)
usable_lem (some t) x now h = absurd (true≢false h)
usable_lem none none now h = (refl, λ e q. absurd (none_not_some q))
usable_lem none (some t) now h =
    (refl, λ e q. subst (λ z. now < z) (some-inj q) (ground (arith, h)))

if-then {ℓ κ} :
    {A : Type ℓ} (b : Bool) (x y : A) (P : A → Type κ) → P (if b then x else y) → b ≡ true → P x
if-then true x y P h e = h
if-then false x y P h e = absurd (true≢false (sym e))

if-else {ℓ κ} :
    {A : Type ℓ} (b : Bool) (x y : A) (P : A → Type κ) → P (if b then x else y) → b ≡ false → P y
if-else true x y P h e = absurd (true≢false e)
if-else false x y P h e = h

module _ (u : Unicode) (sha256 : List ℕ → String) (cfg : Security) where
  check_csrf-IsGuarded :
      (r : Request) (s : AdminSession)
      → check_csrf u sha256 cfg r s ≡ ok tt
      → mem_text r.method safe_methods ≡ false
      → IsGuarded r s
  unfolding check_csrf IsGuarded
  check_csrf-IsGuarded r s h e =
      let given = or_empty (get r.headers "x-csrf-token") in
      let (a, k) =
        raise-ok (is_empty given || not (str_eq given s.csrf_token))
          (forbid "missing or invalid CSRF token" "csrf") (check_same_origin r)
          (if-else (mem_text r.method safe_methods) _ _ (λ z. z ≡ ok tt) h e) in
      let (n, q) = same_text (is_empty given) given s.csrf_token a in
      (n, q, check_same_origin-IsSameOrigin r k)

  -- a caller with a session
  pub IsSessionCaller : ApiTables → Request → ℕ → Principal → Type 0
  IsSessionCaller db r now p =
      (s : AdminSession) × (a : AdminUser) × ((resolve sha256 cfg db.accounts r.cookie now).1
        ≡ some (s, a))
      × (p ≡ session_of u sha256 cfg r s a)
      × (mem_text r.method safe_methods ≡ false → IsGuarded r s)

  -- a caller with a token, which stands in the header
  pub IsTokenCaller : ApiTables → Request → ℕ → Principal → Type 0
  IsTokenCaller db r now p =
      let raw = strip u (partition (or_empty (get r.headers "authorization"))).1 in
      (t : ApiToken) × (find_token db.tokens (sha256 (Utf8.encode raw)) ≡ some t)
      × (t.revoked_at ≡ none)
      × ((e : ℕ) → t.expires_at ≡ some e → now < e)
      × (p.kind ≡ by_token)
      × (p.role ≡ t.role)
      × (p.token_id ≡ some t.id)

  checked-ok :
      (db used : ApiTables) (x : Principal) (c : Result ApiError (Unit {0})) (p : Principal)
      → (checked_principal u sha256 cfg db used x c).1 ≡ ok p
      → (c ≡ ok tt) × (x ≡ p)
  unfolding checked_principal
  checked-ok db used x (err e) p h = absurd (err_not_ok h)
  checked-ok db used x (ok t) p h = (refl, ok-inj h)

  session_principal-ok :
      (db : ApiTables) (r : Request) (x : Accounts × Option (AdminSession × AdminUser))
      (p : Principal)
      → (session_principal u sha256 cfg db r x).1 ≡ ok p
      → (s : AdminSession) × (a : AdminUser) × (x.1 ≡ some (s, a))
        × (p ≡ session_of u sha256 cfg r s a)
        × (mem_text r.method safe_methods ≡ false → IsGuarded r s)
  unfolding session_principal
  session_principal-ok db r (accounts, none) p h = absurd (err_not_ok h)
  session_principal-ok db r (accounts, some (s, a)) p h =
      let (e, q) =
        checked-ok db (record db { accounts = accounts }) (session_of u sha256 cfg r s a)
          (check_csrf u sha256 cfg r s) p h in
      (s, a, refl, sym q, check_csrf-IsGuarded r s e)

  token_row-ok :
      (db : ApiTables) (ip : String) (now : ℕ) (o : Option ApiToken) (p : Principal)
      → (token_row u sha256 cfg db ip now o).1 ≡ ok p
      → (t : ApiToken) × (o ≡ some t)
        × (t.revoked_at ≡ none)
        × ((e : ℕ) → t.expires_at ≡ some e → now < e)
        × (p.kind ≡ by_token)
        × (p.role ≡ t.role)
        × (p.token_id ≡ some t.id)
  unfolding token_row
  token_row-ok db ip now none p h = absurd (err_not_ok h)
  token_row-ok db ip now (some t) p h =
      let (e, k) =
        unless_err (is_some t.revoked_at || reached t.expires_at now) db
          (unauthenticated "invalid API token") _ p h in
      let (a, b) = usable_lem t.revoked_at t.expires_at now e in
      let q = sym (ok-inj k) in
      (t, refl, a, b, ap (λ z. z.kind) q, ap (λ z. z.role) q, ap (λ z. z.token_id) q)

  -- Every caller that is let in is known: `current_principal` returns a principal only for a live
  -- session of an enabled administrator, whose name and role it takes, and, unless the method is GET,
  -- HEAD or OPTIONS, only with that session's CSRF token and from the server's own origin; or for
  -- a stored API token, neither revoked nor expired, whose role it takes.
  pub current_principal-IsKnown :
      (db : ApiTables) (r : Request) (now : ℕ) (p : Principal)
      → (current_principal u sha256 cfg db r now).1 ≡ ok p
      → IsSessionCaller db r now p ⊎ IsTokenCaller db r now p
  unfolding current_principal token_principal IsTokenCaller IsSessionCaller
  current_principal-IsKnown db r now p h =
      let header = or_empty (get r.headers "authorization") in
      let raw = strip u (partition header).1 in
      let found =
        token_row u sha256 cfg db (client_ip r) now
          (find_token db.tokens (sha256 (Utf8.encode raw))) in
      let resolved = resolve sha256 cfg db.accounts r.cookie now in
      elim (Bool-cases
        (str_eq (u.lower (partition header).0) "bearer" && not (is_empty (partition header).1))) [
          | inl e ↦
              let k =
                if-then
                  (str_eq (u.lower (partition header).0) "bearer"
                    && not (is_empty (partition header).1))
                  _ _ (λ (z : ApiTables × Result ApiError Principal). z.1 ≡ ok p) h e in
              let (_, row) =
                unless_err (not (starts_with token_prefix raw) || ltb 128 (text_length raw)) db
                  (unauthenticated "invalid API token") found p k in
              inr (
                token_row-ok db (client_ip r) now (find_token db.tokens (sha256 (Utf8.encode raw)))
                  p row)
          | inr e ↦ inl (
              session_principal-ok db r resolved p (
                if-else
                  (str_eq (u.lower (partition header).0) "bearer"
                    && not (is_empty (partition header).1))
                  _ _ (λ (z : ApiTables × Result ApiError Principal). z.1 ≡ ok p) h e))
        ]

check_setup_iff :
    (o : Option Restriction) (b : Bool) → (check_setup o b ≡ ok tt) ↔ ((o ≡ none) ⊎ (b ≡ true))
unfolding check_setup
check_setup_iff none b = ((λ h. inl refl), (λ h. refl))
check_setup_iff (some x) true = ((λ h. inr refl), (λ h. refl))
check_setup_iff (some x) false = (
  (λ h. absurd (err_not_ok h)),
  (λ h. elim h [ inl e ↦ absurd (none_not_some (sym e)) | inr e ↦ absurd (true≢false (sym e)) ]),
)

check_role_iff :
    (role : AdminRole) (p q : Principal)
    → (check_role role p ≡ ok q) ↔ ((p ≡ q) × (rank role ≤ rank p.role))
unfolding check_role
check_role_iff role p q = elim (Bool-cases (allows p.role role)) [
  | inl e ↦ rw e (
    (λ h. (ok-inj h, leb→le (rank role) (rank p.role) (unfold allows in e))),
    (λ h. ap (λ z. ok z) h.0),
  )
  | inr e ↦ rw e (
    (λ h. absurd (err_not_ok h)),
    (λ h. absurd (true≢false (sym (le→leb (rank role) (rank p.role) h.1) ∙ unfold allows in e))),
  )
]

-- The gate of every route: `require` passes a principal on, unchanged, exactly if the rank of its role
-- is at least that of the required one and its account setup is finished, or the route is one of setup.
pub require_iff :
    (role : AdminRole) (setup_allowed : Bool) (p q : Principal)
    → (require role setup_allowed p ≡ ok q)
      ↔ ((p ≡ q) × (rank role ≤ rank p.role) × ((p.restricted ≡ none) ⊎ (setup_allowed ≡ true)))
unfolding require
require_iff role setup_allowed p q =
    let setup = check_setup_iff p.restricted setup_allowed in
    let allowed = check_role_iff role p q in
    (
      (λ h.
          let (x, e, k) =
            bind-ok (check_setup p.restricted setup_allowed) (λ _. check_role role p) q h in
          let (a, b) = allowed.0 k in (a, b, setup.0 e)),
      (λ h. ap (λ c. c >>= λ _. check_role role p) (setup.1 h.2) ∙ allowed.1 (h.0, h.1)),
    )
