-- ===== src/Api/Audit.antt =====
-- `diff` of naco/api/audit.py: what the audit trail says of a change. Values are compared by a parameter.
pub mod Masked
use naco.Base.{
  Bool, Dict, List, Option, String, [], codes, false, get, if◌then◌else◌, ltb, mem_text, none, some,
  str_eq, true, ℕ, ◌&&◌, ◌==◌, ◌||◌, ◌∷◌,
}

-- `[MASK, MASK]`, or the old and the new value
pub data Difference (V : Type 0) : Type 0 where
  hidden : Difference V
  values : Option V → Option V → Difference V

-- the order of `sorted`: code by code
pub codes_before : List ℕ → List ℕ → Bool
codes_before [] ys = true
codes_before (x ∷ xs) [] = false
codes_before (x ∷ xs) (y ∷ ys) = ltb x y || (x == y && codes_before xs ys)

-- a name in a sorted list of names, once
pub insert_name : String → List String → List String
unfolding codes_before
insert_name x [] = x ∷ []
insert_name x (y ∷ ys) =
    let rest = insert_name x ys in
    if str_eq x y then y ∷ ys else if codes_before (codes x) (codes y) then x ∷ y ∷ ys else y ∷ rest

module _ {V : Type 0} (same : V → V → Bool) where
  pub names : Dict (Option V) → List String → List String
  unfolding insert_name
  names [] rest = rest
  names ((k, v) ∷ d) rest = insert_name k (names d rest)

  -- `.get(key)`: a missing key reads as `None` does
  unfoldable pub field : Dict (Option V) → String → Option V
  field d key = elim (get d key) [ some v ↦ v | none ↦ none ]

  -- `old == new`
  pub same_value : Option V → Option V → Bool
  same_value none none = true
  same_value none (some v) = false
  same_value (some v) none = false
  same_value (some v) (some w) = same v w

  -- the loop over the names
  pub differences :
      Dict (Option V) → Dict (Option V) → List String → List String → Dict (Difference V)
  unfolding same_value field
  differences before after secret [] = []
  differences before after secret (k ∷ keys) =
      let rest = differences before after secret keys in
      if same_value (field before k) (field after k)
      then rest
      else (k, if mem_text k secret then hidden else values (field before k) (field after k)) ∷ rest

  -- `diff`; `sorted(set(before) | set(after))` are the names
  unfoldable pub diff : Dict (Option V) → Dict (Option V) → List String → Dict (Difference V)
  unfolding names differences
  diff before after secret = differences before after secret (names before (names after []))
