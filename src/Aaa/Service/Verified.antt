-- ===== src/Aaa/Service/Verified.antt =====
-- The cache of verified passwords of naco/aaa/service.py (`_verified`), oldest entry first. Times
-- are in seconds.
use mathlib.Core.List.{Memᴰ}
use mathlib.Core.Bool.{true≢false}
use naco.Base.{
  All, All-append, All-weaken, Bool, Bool-cases, List, Option, Option-cases, String, [], ap, ap₂,
  arith, eq_iff, false, if◌then◌else◌, inl, inr, leb, leb→le, length, ltb, none, or_else, refl,
  some, str_eq, subst, sym, true, ℕ, ◌&&◌, ◌++◌, ◌+◌, ◌∙◌, ◌∷◌, ◌≡◌, ◌≤◌,
}

-- user name, address of the NAS, station
abbrev pub Key : Type 0
Key = String × String × String

abbrev pub max_verified : ℕ
max_verified = 50000

abbrev pub verified_seconds : ℕ
verified_seconds = 120

pub same_key : Key → Key → Bool
same_key (a, b, c) (d, e, f) = str_eq a d && str_eq b e && str_eq c f

pub drop_key : List (Key × ℕ) → Key → List (Key × ℕ)
unfolding same_key
drop_key [] k = []
drop_key ((j, t) ∷ c) k = let rest = drop_key c k in if same_key j k then rest else (j, t) ∷ rest

-- `while len(_verified) > _MAX_VERIFIED: _verified.popitem(last=False)`
pub trim : List (Key × ℕ) → List (Key × ℕ)
trim [] = []
trim (e ∷ c) = let rest = trim c in if ltb max_verified (length (e ∷ c)) then rest else e ∷ c

-- `_remember_verified`
pub remember_verified : List (Key × ℕ) → ℕ → Key → List (Key × ℕ)
unfolding drop_key trim
remember_verified c now k = trim (drop_key c k ++ (k, now) ∷ [])

pub verified_at : List (Key × ℕ) → Key → Option ℕ
unfolding same_key
verified_at [] k = none
verified_at ((j, t) ∷ c) k = let rest = verified_at c k in if same_key j k then some t else rest

-- `_recently_verified`
unfoldable pub recently_verified : List (Key × ℕ) → ℕ → Key → Bool
unfolding verified_at
recently_verified c now k = elim (verified_at c k) [
  | none ↦ false
  | some t ↦ leb now (t + verified_seconds)
]

-- the cache after a history of verified logins, the last one first
unfoldable pub cache_of : List (Key × ℕ) → List (Key × ℕ)
unfolding remember_verified
cache_of [] = []
cache_of ((k, t) ∷ logins) = remember_verified (cache_of logins) t k

All-drop_key {κ} :
    (P : Key × ℕ → Type κ) (c : List (Key × ℕ)) (k : Key) → All P c → All P (drop_key c k)
unfolding drop_key
All-drop_key P [] k a = tt
All-drop_key P ((j, t) ∷ c) k a = elim (Bool-cases (same_key j k)) [
  | inl e ↦ rw e (All-drop_key P c k a.1)
  | inr e ↦ rw e (a.0, All-drop_key P c k a.1)
]

All-trim {κ} : (P : Key × ℕ → Type κ) (c : List (Key × ℕ)) → All P c → All P (trim c)
unfolding trim
All-trim P [] a = tt
All-trim P (e ∷ c) a = elim (Bool-cases (ltb max_verified (length (e ∷ c)))) [
  | inl h ↦ subst (λ b. All P (if b then trim c else e ∷ c)) (sym h) (All-trim P c a.1)
  | inr h ↦ subst (λ b. All P (if b then trim c else e ∷ c)) (sym h) a
]

length-trim : (c : List (Key × ℕ)) → length (trim c) ≤ max_verified
unfolding trim
length-trim [] = omega arith
length-trim (e ∷ c) = elim (Bool-cases (ltb max_verified (length (e ∷ c)))) [
  | inl h ↦ subst (λ b. length (if b then trim c else e ∷ c) ≤ max_verified) (sym h) (length-trim c)
  | inr h ↦ subst (λ b. length (if b then trim c else e ∷ c) ≤ max_verified) (sym h) (ground arith)
]

-- The cache of verified passwords is bounded: whatever it held, after `_remember_verified` it
-- holds at most 50,000 entries.
pub length-remember_verified :
    (c : List (Key × ℕ)) (now : ℕ) (k : Key) → length (remember_verified c now k) ≤ max_verified
unfolding remember_verified
length-remember_verified c now k = length-trim (drop_key c k ++ (k, now) ∷ [])

same_key-eq : (j k : Key) → same_key j k ≡ true → j ≡ k
unfolding same_key
same_key-eq (a, b, c) (d, e, f) h = ground (arith, eq_iff a d, eq_iff b e, eq_iff c f)

cache_of-mem : (logins : List (Key × ℕ)) → All (λ e. Memᴰ e logins) (cache_of logins)
unfolding cache_of remember_verified
cache_of-mem [] = tt
cache_of-mem ((k, t) ∷ logins) =
    All-trim (λ e. Memᴰ e ((k, t) ∷ logins)) (drop_key (cache_of logins) k ++ (k, t) ∷ [])
      (All-append (λ e. Memᴰ e ((k, t) ∷ logins)) (drop_key (cache_of logins) k) ((k, t) ∷ [])
        (All-drop_key (λ e. Memᴰ e ((k, t) ∷ logins)) (cache_of logins) k
          (All-weaken (λ e. Memᴰ e logins) (λ e. Memᴰ e ((k, t) ∷ logins)) (λ r m. Memᴰ.tail m)
            (cache_of logins) (cache_of-mem logins)))
        (Memᴰ.head refl, tt))

verified_at-found {κ} :
    (P : Key × ℕ → Type κ) (c : List (Key × ℕ)) (k : Key) (t : ℕ)
    → All P c
    → verified_at c k ≡ some t
    → P (k, t)
unfolding verified_at
verified_at-found P [] k t a h = ground arith
verified_at-found P ((j, s) ∷ c) k t a h = elim (Bool-cases (same_key j k)) [
  | inl e ↦
      subst P
        (ap₂ (λ (x : Key) (y : ℕ). (x, y)) (same_key-eq j k e)
          (ap (λ o. or_else o s) {x = some s} {y = some t}
            (sym (ap (λ b. if b then some s else verified_at c k) e) ∙ h)))
        a.0
  | inr e ↦
      verified_at-found P c k t a.1 (sym (ap (λ b. if b then some s else verified_at c k) e) ∙ h)
]

-- A password counts as recently verified only when it was: after any history of verified logins,
-- `_recently_verified` says yes for a user, NAS and station only if that history has a login of
-- exactly these three at a time that lies at most 120 seconds back.
pub recently_verified-cache_of :
    (logins : List (Key × ℕ)) (now : ℕ) (k : Key)
    → recently_verified (cache_of logins) now k ≡ true
    → (t : ℕ) × Memᴰ (k, t) logins × (now ≤ t + verified_seconds)
unfolding recently_verified
recently_verified-cache_of logins now k h = elim (Option-cases (verified_at (cache_of logins) k)) [
  | inl e ↦ absurd (true≢false (sym h ∙ ap within e))
  | inr (t, e) ↦ (
    t,
    verified_at-found (λ x. Memᴰ x logins) (cache_of logins) k t (cache_of-mem logins) e,
    leb→le now (t + verified_seconds) (sym (ap within e) ∙ h),
  )
]
  where
    within : Option ℕ → Bool
    within o = elim o [ none ↦ false | some t ↦ leb now (t + verified_seconds) ]
