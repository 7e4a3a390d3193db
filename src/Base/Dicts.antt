-- ===== src/Base/Dicts.antt =====
-- Python's `dict` and `OrderedDict` with text keys: an association list, oldest entry first.
use Prim.Native.Nat.{◌+◌, ◌≤◌}
use Prim.Native.String.{String}
use mathlib.Core.Path.{◌≡◌, refl}
use mathlib.Core.Logic.{◌≢◌}
use mathlib.Core.Option.{Option, none, some}
use mathlib.Core.List.{List, [], ◌∷◌, ◌++◌}
use native.Mathlib.Omega.{arith}
use text.Mathlib.Text.{◌==◌ as str_eq}
use text.Mathlib.TextEquality.{eq_iff}
use naco.Base.Tests.{if◌then◌else◌}
use naco.Base.Lists.{length}

abbrev pub Dict {ℓ} : Type ℓ → Type ℓ
Dict V = List (String × V)

module _ {ℓ} {V : Type ℓ} where
  -- `d.get(k)`
  abbrev pub get : Dict V → String → Option V
  get [] k = none
  get ((j, v) ∷ d) k = if str_eq j k then some v else get d k

  -- `d.pop(k, None)`
  abbrev pub pop : Dict V → String → Dict V
  pop [] k = []
  pop ((j, v) ∷ d) k = let rest = pop d k in if str_eq j k then rest else (j, v) ∷ rest

  -- `d[k] = v`: an existing key keeps its place, a new one goes to the end
  abbrev pub put : Dict V → String → V → Dict V
  put [] k v = (k, v) ∷ []
  put ((j, w) ∷ d) k v = if str_eq j k then (j, v) ∷ d else (j, w) ∷ put d k v

  -- `d[k] = v; d.move_to_end(k)`
  abbrev pub put_last : Dict V → String → V → Dict V
  put_last d k v = pop d k ++ (k, v) ∷ []

  -- `d.popitem(last=False)`
  abbrev pub pop_first : Dict V → Dict V
  pop_first [] = []
  pop_first (e ∷ d) = d

  -- a dict holds a key once
  abbrev pub HasKeysOnce : Dict V → Type ℓ
  HasKeysOnce [] = Unit
  HasKeysOnce ((k, v) ∷ d) = (get d k ≡ none) × HasKeysOnce d

  pub get-put :
      (d : Dict V) (k j : String) (v : V)
      → get (put d k v) j ≡ (if str_eq k j then some v else get d j)
  get-put [] k j v = refl
  get-put ((i, w) ∷ d) k j v = ground (arith, eq_iff i k, eq_iff i j, eq_iff k j, get-put d k j v)

  pub get-pop :
      (d : Dict V) (k j : String) → get (pop d k) j ≡ (if str_eq k j then none else get d j)
  get-pop [] k j = ground arith
  get-pop ((i, w) ∷ d) k j = ground (arith, eq_iff i k, eq_iff i j, eq_iff k j, get-pop d k j)

  pub get-append_one :
      (d : Dict V) (k j : String) (v : V)
      → get d k ≡ none
      → get (d ++ (k, v) ∷ []) j ≡ (if str_eq k j then some v else get d j)
  get-append_one [] k j v h = refl
  get-append_one ((i, w) ∷ d) k j v h =
      ground (arith, eq_iff i k, eq_iff i j, eq_iff k j, get-append_one d k j v)

  pub get-put_last :
      (d : Dict V) (k j : String) (v : V)
      → get (put_last d k v) j ≡ (if str_eq k j then some v else get d j)
  get-put_last d k j v =
      ground (arith, get-append_one (pop d k) k j v, get-pop d k k, get-pop d k j, eq_iff k k)

  pub length-pop : (d : Dict V) (k : String) → length (pop d k) ≤ length d
  length-pop [] k = omega arith
  length-pop ((j, v) ∷ d) k = ground (arith, length-pop d k)

  pub length-pop_found :
      (d : Dict V) (k : String) → get d k ≢ none → length (pop d k) + 1 ≤ length d
  length-pop_found [] k h = absurd (h refl)
  length-pop_found ((j, v) ∷ d) k h = ground (arith, length-pop d k, length-pop_found d k)

  pub pop-HasKeysOnce : (d : Dict V) (k : String) → HasKeysOnce d → HasKeysOnce (pop d k)
  pop-HasKeysOnce [] k h = tt
  pop-HasKeysOnce ((j, v) ∷ d) k h = ground (arith, pop-HasKeysOnce d k h.1, get-pop d k j)

  append_one-HasKeysOnce :
      (d : Dict V) (k : String) (v : V)
      → HasKeysOnce d
      → get d k ≡ none
      → HasKeysOnce (d ++ (k, v) ∷ [])
  append_one-HasKeysOnce [] k v h e = (refl, tt)
  append_one-HasKeysOnce ((j, w) ∷ d) k v h e =
      ground
        (arith, append_one-HasKeysOnce d k v h.1, get-append_one d k j v, eq_iff j k, eq_iff k j)

  pub put_last-HasKeysOnce :
      (d : Dict V) (k : String) (v : V) → HasKeysOnce d → HasKeysOnce (put_last d k v)
  put_last-HasKeysOnce d k v h =
      append_one-HasKeysOnce (pop d k) k v (pop-HasKeysOnce d k h)
        (ground (arith, get-pop d k k, eq_iff k k))

  pub pop_first-HasKeysOnce : (d : Dict V) → HasKeysOnce d → HasKeysOnce (pop_first d)
  pop_first-HasKeysOnce [] h = tt
  pop_first-HasKeysOnce (e ∷ d) h = h.1
