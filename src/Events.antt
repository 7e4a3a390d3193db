-- ===== src/Events.antt =====
-- `EventBus` of naco/core/events.py: a subscriber that falls behind loses its oldest events. The order of
-- the subscribers does not matter to any of them.
pub mod Newest
use naco.Base.{Bool, List, [], drop, if◌then◌else◌, leb, length, ltb, map, ℕ, ◌&&◌, ◌++◌, ◌∷◌}

module _ {A : Type 0} where
  -- `q.full()`: a queue without a maximum is never full
  pub is_full : ℕ → List A → Bool
  is_full size q = ltb 0 size && leb size (length q)

  -- one subscriber in `publish`
  pub deliver : ℕ → A → List A → List A
  unfolding is_full
  deliver size event q = (if is_full size q then drop 1 q else q) ++ event ∷ []

  -- `publish`
  pub publish : ℕ → List (List A) → A → List (List A)
  unfolding deliver
  publish size queues event = map (deliver size event) queues

  pub publish_all : ℕ → List (List A) → List A → List (List A)
  unfolding publish
  publish_all size queues [] = queues
  publish_all size queues (e ∷ events) = publish_all size (publish size queues e) events
