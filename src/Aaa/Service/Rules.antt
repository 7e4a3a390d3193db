-- ===== src/Aaa/Service/Rules.antt =====
-- The hard rules that every accept of naco/aaa/service.py has passed.
use mathlib.Core.Bool.{true≢false}
use naco.Base.{
  Bool, List, Option, String, Unicode, ap, false, if◌then◌else◌, inl, inr, none, not, refl, some,
  sym, true, ℕ, ◌&&◌, ◌∙◌, ◌≡◌, ◌≢◌,
}
use naco.Policy.Context.{AuthContext, AuthMethod, Decision, accepted, deny}
use naco.Models.{NasClient}
use naco.Policy.Conditions.{Zone}
use naco.Policy.Engine.{Policy, evaluate}
use naco.Netutils.{normalize_mac}
use naco.Aaa.Subject.{Subject, context, is_blocked, is_mab}
use naco.Aaa.Subject.HardRules.{HasAccount, subject_context-rules}
use naco.Aaa.Service.Verified.{Key, recently_verified}
use naco.Aaa.Service.{
  verified_key, Database, RequestInfo, decide_known, decide_method, decide_nas, decide_request,
  decide_subject, is_bad_mab, is_guest, is_password_method, see_mac, user_for,
}

deny-refuses : (reason : String) → accepted (deny reason) ≢ true
unfolding deny
deny-refuses reason h = absurd (true≢false (sym h))

refused_if :
    (b : Bool) (db : Database) (reason : String) (r : Database × Decision)
    → accepted (let q : Database × Decision = if b then (db, deny reason) else r in q.1) ≡ true
    → (b ≡ false) × (accepted r.1 ≡ true)
refused_if true db reason r h = absurd (deny-refuses reason h)
refused_if false db reason r h = (refl, h)

refused_unless :
    (b : Bool) (db : Database) (reason : String) (r : Database × Decision)
    → accepted (let q : Database × Decision = if not b then (db, deny reason) else r in q.1) ≡ true
    → (b ≡ true) × (accepted r.1 ≡ true)
refused_unless true db reason r h = (refl, h)
refused_unless false db reason r h = absurd (deny-refuses reason h)

module _ (u : Unicode) (vendor_for : String → String) (tz : Zone) where
  -- a policy grants access in some context of this method and address
  pub IsPermitted : List Policy → AuthMethod → Option String → Type 0
  IsPermitted policies method address =
      (ctx : AuthContext) × (ctx.auth_method ≡ method)
      × (ctx.mac ≡ address)
      × (accepted (evaluate u policies ctx tz) ≡ true)

  decide_subject-rules :
      (policies : List Policy) (needs v : Bool) (ctx : AuthContext)
      → accepted (decide_subject u vendor_for tz policies needs v (context ctx)) ≡ true
      → (needs ≡ true → v ≡ true) × (accepted (evaluate u policies ctx tz) ≡ true)
  unfolding decide_subject
  decide_subject-rules policies true true ctx h = (λ k. refl, h)
  decide_subject-rules policies true false ctx h =
      absurd (deny-refuses "password was not verified by NACo" h)
  decide_subject-rules policies false v ctx h = (λ k. absurd (true≢false (sym k)), h)

  -- what an accept of this method from this NAS has passed
  pub HasPassed :
      Database → RequestInfo → Option String → String → Bool → ℕ → AuthMethod → NasClient → Type 0
  HasPassed db req user_name name is_verified now method nas =
      (nas.enabled ≡ true)
      × (is_mab method ≡ true → is_bad_mab req.mac (normalize_mac u user_name) ≡ false)
      × HasAccount method name (user_for db.tables method name)
      × (is_blocked (see_mac vendor_for db.devices req.mac req.nas_ip name now).1 ≡ false)
      × (is_password_method method ≡ true → is_verified ≡ true)
      × IsPermitted db.policies method req.mac

  decide_known-HasPassed :
      (db : Database) (req : RequestInfo) (method : AuthMethod) (nas : NasClient) (name : String)
      (is_verified : Bool) (now : ℕ)
      → accepted (decide_known u vendor_for tz db req method nas name is_verified now).1 ≡ true
      → HasAccount method name (user_for db.tables method name)
        × (is_blocked (see_mac vendor_for db.devices req.mac req.nas_ip name now).1 ≡ false)
        × (is_password_method method ≡ true → is_verified ≡ true)
        × IsPermitted db.policies method req.mac
  unfolding decide_known IsPermitted
  decide_known-HasPassed db req method nas name is_verified now h =
      let device = (see_mac vendor_for db.devices req.mac req.nas_ip name now).1 in
      let user = user_for db.tables method name in
      let g = is_guest db.guests req.mac now in
      let outcome : Subject → Decision =
        λ s. decide_subject u vendor_for tz db.policies (is_password_method method) is_verified s in
      elim (subject_context-rules method name user req.mac device g nas.name req.nas_ip req.ssid
        now) [
          | inr (reason, e) ↦
              absurd (deny-refuses reason (sym (ap (λ (s : Subject). accepted (outcome s)) e) ∙ h))
          | inl (ctx, e, m, a, account, b) ↦
              let (v, p) =
                decide_subject-rules db.policies (is_password_method method) is_verified ctx
                  (sym (ap (λ (s : Subject). accepted (outcome s)) e) ∙ h) in
              (account, b, v, (ctx, m, a, p))
        ]

  decide_nas-HasPassed :
      (db : Database) (req : RequestInfo) (nas : NasClient) (user_name : Option String)
      (name : String) (is_verified : Bool) (now : ℕ) (method : AuthMethod)
      → accepted (decide_nas u vendor_for tz db req nas user_name name is_verified now method).1
        ≡ true
      → HasPassed db req user_name name is_verified now method nas
  unfolding decide_nas HasPassed
  decide_nas-HasPassed db req nas user_name name is_verified now method h =
      let known = decide_known u vendor_for tz db req method nas name is_verified now in
      let bad = is_bad_mab req.mac (normalize_mac u user_name) in
      let (e, h1) =
        refused_unless nas.enabled db "unknown or disabled NAS"
          (if is_mab method && bad then (db, deny "not a valid MAB request") else known) h in
      let (m, h2) = refused_if (is_mab method && bad) db "not a valid MAB request" known h1 in
      let (account, b, v, p) = decide_known-HasPassed db req method nas name is_verified now h2 in
      (e, λ k. sym (ap (λ t. t && bad) k) ∙ m, account, b, v, p)

  decide_method-HasPassed :
      (db : Database) (req : RequestInfo) (nas : Option NasClient) (user_name : Option String)
      (name : String) (is_verified : Bool) (now : ℕ) (method : Option AuthMethod)
      → accepted (decide_method u vendor_for tz db req nas user_name name is_verified now method).1
        ≡ true
      → (m : AuthMethod) × (x : NasClient) × (method ≡ some m)
        × (nas ≡ some x)
        × HasPassed db req user_name name is_verified now m x
  unfolding decide_method
  decide_method-HasPassed db req nas user_name name is_verified now none h =
      absurd (deny-refuses "unknown authentication method" h)
  decide_method-HasPassed db req none user_name name is_verified now (some m) h =
      absurd (deny-refuses "unknown or disabled NAS" h)
  decide_method-HasPassed db req (some x) user_name name is_verified now (some m) h =
      (m, x, refl, refl, decide_nas-HasPassed db req x user_name name is_verified now m h)

  -- Every accept has passed the hard rules: when `_decide` accepts, the request names a known
  -- method and comes from a registered, enabled NAS; a MAB request carries its own address as its
  -- name; for every other method there is a name with an enabled account; the device is not
  -- blocked; a password method's password was verified by NACo lately for that name, NAS and station; and
  -- the policies grant access in a context of that method and address.
  pub decide_request-HasPassed :
      (db : Database) (req : RequestInfo) (nas : Option NasClient) (user_name : Option String)
      (name : String) (verified : List (Key × ℕ)) (clock now : ℕ)
      → accepted (decide_request u vendor_for tz db req nas user_name name verified clock now).1
        ≡ true
      → (method : AuthMethod) × (x : NasClient) × (req.method ≡ some method)
        × (nas ≡ some x)
        × HasPassed db req user_name name
            (recently_verified verified clock (verified_key name req))
            now
            method
            x
  unfolding decide_request
  decide_request-HasPassed db req nas user_name name verified clock now h =
      decide_method-HasPassed db req nas user_name name
        (recently_verified verified clock (verified_key name req)) now req.method h
