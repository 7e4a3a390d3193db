-- ===== src/Radius/Reevaluate/Worker.antt =====
-- `Reevaluator` of naco/radius/reevaluate.py: bursts of changes become one run.
use mathlib.Core.Bool.{true≢false}
use naco.Base.{
  Bool, List, Option, String, [], ap, append-nil, append_assoc, arith, false, if◌then◌else◌, none,
  refl, some, sym, true, ◌++◌, ◌↔◌, ◌∙◌, ◌∷◌, ◌≡◌, ◌≢◌,
}

pub record Reevaluator : Type 0 where
  pub is_awake : Bool
  pub reasons : List String

abbrev pub asleep : Reevaluator
asleep = record { is_awake = false; reasons = [] }

unfoldable pub schedule : Reevaluator → String → Reevaluator
schedule r reason = record { is_awake = true; reasons = r.reasons ++ reason ∷ [] }

-- one turn of `run_forever`, which waits for the event: what it hands to `reevaluate`
pub turn : Reevaluator → Reevaluator × Option (List String)
turn r =
    if r.is_awake then (record { is_awake = false; reasons = [] }, some r.reasons) else (r, none)

-- a change, or the end of the worker's wait
pub data Tick : Type 0 where
  change : String → Tick
  worker : Tick

pub step : Reevaluator → Tick → Reevaluator × Option (List String)
unfolding schedule turn
step r (change reason) = (schedule r reason, none)
step r worker = turn r

abbrev pub add_run : Option (List String) → List (List String) → List (List String)
add_run none runs = runs
add_run (some reasons) runs = reasons ∷ runs

-- the worker after the ticks, and the runs of `reevaluate`
pub run : Reevaluator → List Tick → Reevaluator × List (List String)
unfolding step
run r [] = (r, [])
run r (t ∷ ticks) =
    let (s, given) = step r t in let (end, runs) = run s ticks in (end, add_run given runs)

pub changes : List Tick → List String
changes [] = []
changes (change reason ∷ ticks) = reason ∷ changes ticks
changes (worker ∷ ticks) = changes ticks

pub concat : List (List String) → List String
concat [] = []
concat (xs ∷ xss) = xs ++ concat xss

-- the worker is awake exactly when reasons wait
pub IsSound : Reevaluator → Type 0
IsSound r = (r.is_awake ≡ false) ↔ (r.reasons ≡ [])

append_one-nonempty : (xs : List String) (x : String) → (xs ++ x ∷ []) ≢ []
append_one-nonempty [] x h = ground arith
append_one-nonempty (y ∷ ys) x h = ground arith

turn-cases :
    (r : Reevaluator)
    → IsSound r
    → ((turn r).0.reasons ≡ [])
      × IsSound (turn r).0
      × ((xss : List (List String)) → concat (add_run (turn r).1 xss) ≡ r.reasons ++ concat xss)
unfolding turn IsSound concat
turn-cases r s = by_state r.is_awake r.reasons s
  where
    by_state :
        (awake : Bool) (xs : List String)
        → IsSound (record { is_awake = awake; reasons = xs })
        → ((turn (record { is_awake = awake; reasons = xs })).0.reasons ≡ [])
          × IsSound (turn (record { is_awake = awake; reasons = xs })).0
          × ((xss : List (List String))
              → concat (add_run (turn (record { is_awake = awake; reasons = xs })).1 xss)
                ≡ xs ++ concat xss)
    by_state true xs s = (refl, ((λ h. refl), (λ h. refl)), λ xss. refl)
    by_state false xs s = (s.0 refl, s, λ xss. rw (s.0 refl) refl)

run_lem :
    (ticks : List Tick) (r : Reevaluator)
    → IsSound r
    → IsSound (run r ticks).0
      × (concat (run r ticks).1 ++ (run r ticks).0.reasons ≡ r.reasons ++ changes ticks)
unfolding run step concat changes schedule IsSound
run_lem [] r s = (s, sym (append-nil r.reasons))
run_lem (change reason ∷ ticks) r s =
    let ih =
      run_lem ticks (schedule r reason)
        ((λ h. absurd (true≢false h)), (λ h. absurd (append_one-nonempty r.reasons reason h))) in
    (ih.0, ih.1 ∙ append_assoc r.reasons (reason ∷ []) (changes ticks))
run_lem (worker ∷ ticks) r s =
    let (e, v, c) = turn-cases r s in
    let ih = run_lem ticks (turn r).0 v in
    let end = (run (turn r).0 ticks).0.reasons in
    (
      ih.0,
      ap (λ xs. xs ++ end) (c (run (turn r).0 ticks).1)
          ∙ (append_assoc r.reasons (concat (run (turn r).0 ticks).1) end
              ∙ ap (λ xs. r.reasons ++ xs) (ih.1 ∙ ap (λ xs. xs ++ changes ticks) e)),
    )

-- No change is lost and none is handled twice: whatever changes are scheduled and whenever the worker
-- gets its turns, the reasons of the runs, in order, followed by those that still wait, are exactly
-- the scheduled ones in order; and after one more turn of the worker none waits.
pub run-concat :
    (ticks : List Tick)
    → (concat (run asleep ticks).1 ++ (run asleep ticks).0.reasons ≡ changes ticks)
      × ((turn (run asleep ticks).0).0.reasons ≡ [])
unfolding IsSound
run-concat ticks =
    let (s, e) = run_lem ticks asleep ((λ h. refl), (λ h. refl)) in
    (e, (turn-cases (run asleep ticks).0 s).0)
