-- ===== src/Aaa/Subject/HardRules.antt =====
-- What `subject_context` of naco/aaa/subject.py has checked when it gives a context.
use mathlib.Core.Bool.{true≢false}
use naco.Base.{
  Bool, Bool-cases, Option, String, ap, false, if◌then◌else◌, inl, inr, is_empty, none, refl, some,
  sym, true, ℕ, ◌∙◌, ◌≡◌, ◌⊎◌,
}
use naco.Policy.Context.{AuthContext, AuthMethod, deny}
use naco.Models.{Device}
use naco.Aaa.Identity.{UserInfo}
use naco.Aaa.Subject.{
  check_account, check_user, context, context_of, ended, is_blocked, is_mab, settle,
  subject_context,
}

-- what a method with a name asks of the account
pub HasAccount : AuthMethod → String → Option UserInfo → Type 0
HasAccount method name user =
    is_mab method ≡ false
    → (is_empty name ≡ false) × ((info : UserInfo) × (user ≡ some info) × (info.enabled ≡ true))

check_account-found :
    (user : Option UserInfo)
    → ((check_account user ≡ none)
        × ((info : UserInfo) × (user ≡ some info) × (info.enabled ≡ true)))
      ⊎ ((reason : String) × (check_account user ≡ some (deny reason)))
unfolding check_account
check_account-found none = inr ("unknown user", refl)
check_account-found (some x) = elim (Bool-cases x.enabled) [
  | inl k ↦ inl (ap (λ b. if b then none else some (deny "user disabled")) k, (x, refl, k))
  | inr k ↦ inr ("user disabled", ap (λ b. if b then none else some (deny "user disabled")) k)
]

check_user-HasAccount :
    (method : AuthMethod) (name : String) (user : Option UserInfo)
    → ((check_user method name user ≡ none) × HasAccount method name user)
      ⊎ ((reason : String) × (check_user method name user ≡ some (deny reason)))
unfolding check_user HasAccount
check_user-HasAccount method name user = elim (Bool-cases (is_mab method)) [
  | inl m ↦ inl (rw m refl, λ k. absurd (true≢false (sym m ∙ k)))
  | inr m ↦ elim (Bool-cases (is_empty name)) [
    | inl e ↦ inr ("no authenticated identity", rw (m, e) refl)
    | inr e ↦ elim (check_account-found user) [
      | inl (c, i) ↦ inl (rw (m, e) c, λ k. (e, i))
      | inr (reason, c) ↦ inr (reason, rw (m, e) c)
    ]
  ]
]

-- `subject_context` ends in a denial, or gives a context with the method and the address of the
-- request after every hard rule has passed: but for MAB there is a name and an enabled account of
-- that name, and the device, when it is known, is not blocked.
pub subject_context-rules :
    (method : AuthMethod) (name : String) (user : Option UserInfo) (mac : Option String)
    (device : Option Device) (is_guest : Bool) (nas_name nas_ip : String) (ssid : Option String)
    (now : ℕ)
    → ((ctx : AuthContext) × (subject_context method name user mac device is_guest nas_name nas_ip
            ssid now
          ≡ context ctx)
        × (ctx.auth_method ≡ method)
        × (ctx.mac ≡ mac)
        × HasAccount method name user
        × (is_blocked device ≡ false))
      ⊎ ((reason : String) × (subject_context method name user mac device is_guest nas_name nas_ip
              ssid now
            ≡ ended (deny reason)))
unfolding subject_context settle context_of
subject_context-rules method name user mac device is_guest nas_name nas_ip ssid now =
    let ctx = context_of method name user mac device is_guest nas_name nas_ip ssid now in
    elim (check_user-HasAccount method name user) [
      | inr (reason, c) ↦ inr (reason, ap (λ o. settle o (is_blocked device) ctx) c)
      | inl (c, a) ↦ elim (Bool-cases (is_blocked device)) [
        | inl b ↦ inr (
          "device blocked",
          ap (λ o. settle o (is_blocked device) ctx) c ∙ ap (λ b. settle none b ctx) b,
        )
        | inr b ↦ inl (
          ctx,
          ap (λ o. settle o (is_blocked device) ctx) c ∙ ap (λ b. settle none b ctx) b,
          refl,
          refl,
          a,
          b,
        )
      ]
    ]
