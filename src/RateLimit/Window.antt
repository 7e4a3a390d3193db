-- ===== src/RateLimit/Window.antt =====
-- `SlidingWindow` of naco/core/ratelimit.py.
pub mod Queues
pub mod Rate
use naco.Base.{
  Bool, Dict, List, String, [], false, get, if◌then◌else◌, leb, length, none, pop, pop_first, some,
  true, ℕ, ◌++◌, ◌+◌, ◌∷◌,
}

pub record SlidingWindow : Type 0 where
  pub limit : ℕ
  pub window : ℕ
  pub max_keys : ℕ
  pub hits : Dict (List ℕ)

abbrev pub init : ℕ → ℕ → ℕ → SlidingWindow
init limit window max_keys = record {
  limit = limit;
  window = window;
  max_keys = max_keys;
  hits = [];
}

-- `while q and q[0] <= now - self.window: q.popleft()`
pub expire : ℕ → ℕ → List ℕ → List ℕ
expire window now [] = []
expire window now (t ∷ q) =
    let rest = expire window now q in if leb (t + window) now then rest else t ∷ q

-- The other entries once `key` has its place at the end, and the queue of `key`.
pub make_room : SlidingWindow → String → Dict (List ℕ)
make_room w key = elim (get w.hits key) [
  | none ↦ if leb w.max_keys (length w.hits) then pop_first w.hits else w.hits
  | some q ↦ pop w.hits key
]

pub queue : SlidingWindow → String → List ℕ
queue w key = elim (get w.hits key) [ none ↦ [] | some q ↦ q ]

-- What is left of the queue of `key` when a hit arrives.
pub live : SlidingWindow → String → ℕ → List ℕ
unfolding expire queue
live w key now = expire w.window now (queue w key)

pub store : SlidingWindow → String → List ℕ → SlidingWindow
unfolding make_room
store w key q = record w { hits = make_room w key ++ (key, q) ∷ [] }

unfoldable pub hit : SlidingWindow → String → ℕ → SlidingWindow × Bool
unfolding store live
hit w key now =
    if leb w.limit (length (live w key now))
    then (store w key (live w key now), false)
    else (store w key (live w key now ++ now ∷ []), true)

pub reset : SlidingWindow → String → SlidingWindow
reset w key = record w { hits = pop w.hits key }
