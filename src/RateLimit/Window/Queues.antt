-- ===== src/RateLimit/Window/Queues.antt =====
-- What one hit of `SlidingWindow` does to the queues of all keys.
use naco.Base.{
  length-pop_found, some, ◌≢◌, ◌⊎◌, Bool, List, Option-cases, String, [], arith, eq_iff, get,
  get-append_one, get-pop, if◌then◌else◌, inl, inr, keep, leb, length, length-append, length-pop,
  ltb, none, refl, str_eq, true, ℕ, ◌&&◌, ◌++◌, ◌+◌, ◌<◌, ◌∷◌, ◌≡◌, ◌≤◌,
}
use naco.RateLimit.Window.{SlidingWindow, expire, hit, live, make_room, queue, store}

-- a hit at `x` counts against a hit at `t`
abbrev pub counts_at : ℕ → ℕ → ℕ → Bool
counts_at window t x = ltb t (x + window)

-- a hit at `x` lies in the window of time that ends at `t`
abbrev pub in_window : ℕ → ℕ → ℕ → Bool
in_window window t x = leb x t && ltb t (x + window)

pub keep-append : (p : ℕ → Bool) (xs ys : List ℕ) → keep p (xs ++ ys) ≡ keep p xs ++ keep p ys
keep-append p [] ys = refl
keep-append p (x ∷ xs) ys = ground (arith, keep-append p xs ys)

-- Expiry drops only what no longer counts, now or later.
pub keep-expire :
    (window now t : ℕ) (q : List ℕ)
    → now ≤ t
    → keep (counts_at window t) (expire window now q) ≡ keep (counts_at window t) q
unfolding expire
keep-expire window now t [] h = refl
keep-expire window now t (x ∷ q) h = ground (arith, keep-expire window now t q h)

pub length-keep_mono :
    (p q : ℕ → Bool) (xs : List ℕ)
    → ((x : ℕ) → p x ≡ true → q x ≡ true)
    → length (keep p xs) ≤ length (keep q xs)
length-keep_mono p q [] h = omega arith
length-keep_mono p q (x ∷ xs) h = ground (arith, length-keep_mono p q xs h, h x)

pub length-in_window :
    (window t now : ℕ) (xs : List ℕ)
    → now ≤ t
    → length (keep (in_window window t) xs) ≤ length (keep (counts_at window now) xs)
length-in_window window t now xs h =
    length-keep_mono (in_window window t) (counts_at window now) xs (λ x e. ground arith)

-- a key that is not in the table finds room
abbrev pub HasRoom : SlidingWindow → String → Type 0
HasRoom w key = get w.hits key ≡ none → length w.hits < w.max_keys

pub get-make_room :
    (w : SlidingWindow) (key other : String)
    → HasRoom w key
    → get (make_room w key) other ≡ (if str_eq key other then none else get w.hits other)
unfolding make_room
get-make_room w key other room = elim (Option-cases (get w.hits key)) [
  | inl e ↦ ground (arith, eq_iff key other, room e)
  | inr (q, e) ↦ ground (arith, get-pop w.hits key other)
]

get-store :
    (w : SlidingWindow) (key other : String) (q : List ℕ)
    → HasRoom w key
    → get (store w key q).hits other ≡ (if str_eq key other then some q else get w.hits other)
unfolding store
get-store w key other q room = ground (
  arith,
  get-append_one (make_room w key) key other q,
  get-make_room w key key room,
  get-make_room w key other room,
  eq_iff key key,
)

-- A hit with room stores its own key and forgets no key.
pub get-hit :
    (w : SlidingWindow) (key other : String) (now : ℕ)
    → HasRoom w key
    → (str_eq key other ≡ true) ⊎ (get w.hits other ≢ none)
    → get (hit w key now).0.hits other ≢ none
unfolding hit
get-hit w key other now room h = ground (
  arith,
  h,
  get-store w key other (live w key now) room,
  get-store w key other (live w key now ++ now ∷ []) room,
)

pub queue-store :
    (w : SlidingWindow) (key other : String) (q : List ℕ)
    → HasRoom w key
    → queue (store w key q) other ≡ (if str_eq key other then q else queue w other)
unfolding queue store
queue-store w key other q room = ground (
  arith,
  get-append_one (make_room w key) key other q,
  get-make_room w key key room,
  get-make_room w key other room,
  eq_iff key key,
)

-- While the table has room, a hit of one key leaves the other keys' queues alone, and its own
-- queue becomes the live hits, with this one when it is admitted.
pub queue-hit :
    (w : SlidingWindow) (key other : String) (now : ℕ)
    → HasRoom w key
    → queue (hit w key now).0 other ≡ (
        if str_eq key other
        then (if ltb (length (live w key now)) w.limit
            then live w key now ++ now ∷ []
            else live w key now)
        else queue w other)
unfolding hit
queue-hit w key other now room = ground (
  arith,
  queue-store w key other (live w key now) room,
  queue-store w key other (live w key now ++ now ∷ []) room,
)

pub length-make_room :
    (w : SlidingWindow) (key : String)
    → HasRoom w key
    → length (make_room w key) ≤ length w.hits
      × (get w.hits key ≢ none → length (make_room w key) + 1 ≤ length w.hits)
unfolding make_room
length-make_room w key room =
    ground (arith, length-pop w.hits key, length-pop_found w.hits key, room)

pub length-hit :
    (w : SlidingWindow) (key : String) (now : ℕ)
    → HasRoom w key
    → (length (hit w key now).0.hits ≤ length w.hits + 1)
      × (get w.hits key ≢ none → length (hit w key now).0.hits ≤ length w.hits)
unfolding hit store
length-hit w key now room = ground (
  arith,
  length-make_room w key room,
  length-append (make_room w key) ((key, live w key now) ∷ []),
  length-append (make_room w key) ((key, live w key now ++ now ∷ []) ∷ []),
)
