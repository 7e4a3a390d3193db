-- ===== src/RateLimit/Delay.antt =====
-- `ProgressiveDelay` of naco/core/ratelimit.py. `base` is a float, so `base * 2 ** n` raises an
-- OverflowError from 2 ** 1024 on.
pub mod Backoff
use naco.Base.{
  Bool, Dict, String, get, if◌then◌else◌, is_some, leb, length, ltb, min, none, not, pop, pop_first,
  put_last, some, ℕ, ◌&&◌, ◌*◌, ◌+◌, ◌-◌, ◌^◌,
}

-- the tuple `(failures, next_allowed, last)`
pub record Failures : Type 0 where
  pub failures : ℕ
  pub next_allowed : ℕ
  pub last : ℕ

pub record ProgressiveDelay : Type 0 where
  pub base : ℕ
  pub cap_wait : ℕ
  pub free : ℕ
  pub forget : ℕ
  pub max_keys : ℕ
  pub state : Dict Failures

abbrev fresh : ℕ → Failures
fresh now = record { failures = 0; next_allowed = 0; last = now }

-- `_get`: a key without failures for `forget` is dropped
unfoldable pub recall : ProgressiveDelay → String → ℕ → Failures × ProgressiveDelay
recall d key now = elim (get d.state key) [
  | none ↦ (fresh now, d)
  | some s ↦
      if ltb d.forget (now - s.last)
      then (fresh now, record d { state = pop d.state key })
      else (s, d)
]

-- `max(0.0, next_allowed - now)` is the truncated difference
unfoldable pub delay_for : ProgressiveDelay → String → ℕ → ℕ × ProgressiveDelay
unfolding recall
delay_for d key now = let (s, d') = recall d key now in (s.next_allowed - now, d')

-- whether `base * 2 ** (failures - free - 1)` is computed and its power is too large for a float
pub overflows : ProgressiveDelay → ℕ → Bool
overflows d failures = leb (d.free + 1025) failures

-- the wait after so many failures, where nothing overflows
pub wait : ProgressiveDelay → ℕ → ℕ
wait d failures =
    if leb failures d.free then 0 else min d.cap_wait (d.base * 2 ^ (failures - d.free - 1))

-- the other entries once there is room for `key`
pub make_room : ProgressiveDelay → String → Dict Failures
make_room d key =
    if not (is_some (get d.state key)) && leb d.max_keys (length d.state)
    then pop_first d.state
    else d.state

-- `failure` raises
unfoldable pub failure_raises : ProgressiveDelay → String → ℕ → Bool
unfolding recall overflows
failure_raises d key now = overflows d ((recall d key now).0.failures + 1)

-- when it raises, only what `_get` did is kept
pub failure : ProgressiveDelay → String → ℕ → ProgressiveDelay
unfolding make_room overflows
failure d key now =
    let (s, d') = recall d key now in
    let n = s.failures + 1 in
    if overflows d n then d' else record d' {
      state =
          put_last (make_room d' key) key
            (record { failures = n; next_allowed = now + wait d n; last = now });
    }

pub success : ProgressiveDelay → String → ProgressiveDelay
success d key = record d { state = pop d.state key }
