-- ===== src/Api/Audit/Masked.antt =====
-- `diff` of naco/api/audit.py tells every change, and no secret.
use naco.Base.{
  Bool, Bool-cases, Dict, List, Option, String, [], ap, arith, eq_iff, false, get, if◌then◌else◌,
  inl, inr, mem_text, none, not, refl, some, str_eq, subst, sym, true, ◌&&◌, ◌∙◌, ◌∷◌, ◌≡◌,
}
use naco.Api.Audit.{diff, differences, field, hidden, insert_name, names, same_value, values}

mem-insert_name :
    (k x : String) (ys : List String)
    → mem_text k (insert_name x ys) ≡ (if str_eq k x then true else mem_text k ys)
unfolding insert_name
mem-insert_name k x [] = refl
mem-insert_name k x (y ∷ ys) =
    ground (arith, eq_iff k x, eq_iff k y, eq_iff x y, mem-insert_name k x ys)

not_listed : (b m : Bool) → (if b then true else m) ≡ false → (b ≡ false) × (m ≡ false)
not_listed b m h = ground (arith, h)

other_way : (k j : String) → str_eq k j ≡ false → str_eq j k ≡ false
other_way k j h = ground (arith, h, eq_iff k j, eq_iff j k)

swapped :
    {A : Type 0} (s : Bool) (x : A)
    → (let o : Option A = if true && not s then some x else none in o)
      ≡ (if s then none else some x)
swapped true x = refl
swapped false x = refl

-- the entry of the name itself, and that of another name
at_key :
    {A : Type 0} (s : Bool) (k : String) (x : A) (rest : Dict A) (m : Bool)
    → get rest k ≡ (if m && not s then some x else none)
    → get (if s then rest else (k, x) ∷ rest) k
      ≡ (if (if str_eq k k then true else m) && not s then some x else none)
at_key true k x rest m h = ground (arith, h, eq_iff k k)
at_key false k x rest m h = ground (arith, h, eq_iff k k)

past_key :
    {A : Type 0} (s : Bool) (j k : String) (x : A) (rest : Dict A) (m t : Bool) (o : Option A)
    → str_eq j k ≡ false
    → get rest k ≡ (if m && not t then o else none)
    → get (if s then rest else (j, x) ∷ rest) k
      ≡ (if (if str_eq k j then true else m) && not t then o else none)
past_key true j k x rest m t o e h = ground (arith, h, e, eq_iff k j, eq_iff j k)
past_key false j k x rest m t o e h = ground (arith, h, e, eq_iff k j, eq_iff j k)

module _ {V : Type 0} (same : V → V → Bool) where
  -- a name that is not listed is in neither dict
  names-missing :
      (d : Dict (Option V)) (rest : List String) (k : String)
      → mem_text k (names same d rest) ≡ false
      → (field same d k ≡ none) × (mem_text k rest ≡ false)
  unfolding names field
  names-missing [] rest k h = (refl, h)
  names-missing ((j, v) ∷ d) rest k h =
      let (e, m) =
        not_listed (str_eq k j) (mem_text k (names same d rest))
          (sym (mem-insert_name k j (names same d rest)) ∙ h) in
      let ih = names-missing d rest k m in
      (
        ap (λ b. elim (if b then some v else get d k) [ some w ↦ w | none ↦ none ])
              (other_way k j e)
            ∙ ih.0,
        ih.1,
      )

  get-differences :
      (before after : Dict (Option V)) (secret keys : List String) (k : String)
      → get (differences same before after secret keys) k ≡ (
          if mem_text k keys && not (same_value same (field same before k) (field same after k))
          then some (
              if mem_text k secret
              then hidden
              else values (field same before k) (field same after k))
          else none)
  unfolding differences
  get-differences before after secret [] k = refl
  get-differences before after secret (j ∷ keys) k =
      let rest = differences same before after secret keys in
      let x = λ (i : String).
        if mem_text i secret then hidden else values (field same before i) (field same after i) in
      let s = λ (i : String). same_value same (field same before i) (field same after i) in
      let ih = get-differences before after secret keys k in
      elim (Bool-cases (str_eq j k)) [
        | inl e ↦
            subst
              (λ i. get (if s i then rest else (i, x i) ∷ rest) k ≡ (
                if (if str_eq k i then true else mem_text k keys) && not (s k)
                then some (x k)
                else none))
              (sym ((eq_iff j k).0 e)) (at_key (s k) k (x k) rest (mem_text k keys) ih)
        | inr e ↦ past_key (s j) j k (x j) rest (mem_text k keys) (s k) (some (x k)) e ih
      ]

  -- The audit trail tells every change, and no secret: for any field, `diff` has an entry exactly if the
  -- values before and after differ (a missing one is one that is `None`), and the entry holds both
  -- values, or for a secret field neither.
  pub get-diff :
      (before after : Dict (Option V)) (secret : List String) (k : String)
      → get (diff same before after secret) k ≡ (
          if same_value same (field same before k) (field same after k)
          then none
          else some (
              if mem_text k secret
              then hidden
              else values (field same before k) (field same after k)))
  unfolding diff
  get-diff before after secret k =
      let listed = names same before (names same after []) in
      let found = get-differences before after secret listed k in
      let x =
        if mem_text k secret then hidden else values (field same before k) (field same after k) in
      elim (Bool-cases (mem_text k listed)) [
        | inl e ↦
            found
            ∙ (ap
                  (λ b.
                    if b && not (same_value same (field same before k) (field same after k))
                    then some x
                    else none)
                  e
                ∙ swapped (same_value same (field same before k) (field same after k)) x)
        | inr e ↦
            let (b, m) = names-missing before (names same after []) k e in
            let (a, _) = names-missing after [] k m in
            found
            ∙ (ap
                  (λ t.
                    if t && not (same_value same (field same before k) (field same after k))
                    then some x
                    else none)
                  e
                ∙ ap (λ t. if t then none else some x) {x = true}
                    {y = same_value same (field same before k) (field same after k)}
                    (sym (
                      ap (λ o. same_value same o (field same after k)) b
                      ∙ ap (λ o. same_value same none o) a)))
      ]
