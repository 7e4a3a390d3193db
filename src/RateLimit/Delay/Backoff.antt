-- ===== src/RateLimit/Delay/Backoff.antt =====
-- `ProgressiveDelay`: how the wait grows, what clears it, and that keys do not touch one another.
use native.Mathlib.Nat.{pow-suc}
use naco.Base.{
  true, List, Option, String, [], ap, arith, eq_refl, false, get, get-pop, ◌↔◌, ◌∙◌, get-put_last,
  if◌then◌else◌, length, length-pop, ltb, min, none, some, str_eq, suc, ℕ, ◌*◌, ◌+◌, ◌-◌, ◌<◌, ◌^◌,
  ◌∙◌, ◌∷◌, ◌≡◌, ◌≤◌,
}
use naco.RateLimit.Delay.{
  Failures, ProgressiveDelay, delay_for, failure, failure_raises, fresh, overflows, make_room,
  recall, success, wait,
}

-- what `recall` returns, by the record of the key
abbrev seen : ℕ → ℕ → Option Failures → Failures
seen forget now none = fresh now
seen forget now (some s) = if ltb forget (now - s.last) then fresh now else s

recall_lem :
    (d : ProgressiveDelay) (key : String) (now : ℕ)
    → (recall d key now).0 ≡ seen d.forget now (get d.state key)
unfolding recall
recall_lem d key now = ground arith

-- The failures that count against a key at a time.
unfoldable pub counted : ProgressiveDelay → String → ℕ → ℕ
counted d key now = (recall d key now).0.failures

counted_lem :
    (d : ProgressiveDelay) (key : String) (now : ℕ)
    → counted d key now ≡ (seen d.forget now (get d.state key)).failures
unfolding counted
counted_lem d key now = ap (λ (s : Failures). s.failures) (recall_lem d key now)

recall_shape :
    (d : ProgressiveDelay) (key : String) (now : ℕ)
    → let d' = (recall d key now).1 in
      (d'.base ≡ d.base)
      × (d'.cap_wait ≡ d.cap_wait)
      × (d'.free ≡ d.free)
      × (d'.forget ≡ d.forget)
      × (d'.max_keys ≡ d.max_keys)
unfolding recall
recall_shape d key now = ground arith

get-recall_other :
    (d : ProgressiveDelay) (key other : String) (now : ℕ)
    → str_eq key other ≡ false
    → get (recall d key now).1.state other ≡ get d.state other
unfolding recall
get-recall_other d key other now ne = ground (arith, get-pop d.state key other)

length-recall :
    (d : ProgressiveDelay) (key : String) (now : ℕ)
    → length (recall d key now).1.state ≤ length d.state
unfolding recall
length-recall d key now = ground (arith, length-pop d.state key)

abbrev recorded : ProgressiveDelay → String → ℕ → Failures
recorded d key now = record {
  failures = counted d key now + 1;
  next_allowed = now + wait d (counted d key now + 1);
  last = now;
}

get-failure_self :
    (d : ProgressiveDelay) (key : String) (now : ℕ)
    → failure_raises d key now ≡ false
    → get (failure d key now).state key ≡ some (recorded d key now)
unfolding failure counted failure_raises
get-failure_self d key now k =
    rw (
      k,
      get-put_last (make_room (recall d key now).1 key) key key (recorded d key now),
      eq_refl key,
    )

-- While the table has room a failure of one key leaves every other key's record as it was.
get-failure_other :
    (d : ProgressiveDelay) (key other : String) (now : ℕ)
    → str_eq key other ≡ false
    → length d.state < d.max_keys
    → get (failure d key now).state other ≡ get d.state other
unfolding failure counted make_room
get-failure_other d key other now ne room = ground (
  arith,
  get-put_last (make_room (recall d key now).1 key) key other (recorded d key now),
  ne,
  get-recall_other d key other now ne,
  length-recall d key now,
  (recall_shape d key now).4,
)

-- The wait after a failure that does not raise starts at its own time: it is what the rule gives for one failure more than
-- counted before.
pub delay_for-failure :
    (d : ProgressiveDelay) (key : String) (now : ℕ)
    → failure_raises d key now ≡ false
    → (delay_for (failure d key now) key now).0 ≡ wait d (counted d key now + 1)
unfolding delay_for
delay_for-failure d key now k =
    rw (recall_lem (failure d key now) key now, get-failure_self d key now k) (ground arith)

failure-forget :
    (d : ProgressiveDelay) (key : String) (now : ℕ) → (failure d key now).forget ≡ d.forget
unfolding failure
failure-forget d key now = ground (arith, (recall_shape d key now).3)

-- While the table has room, a failure of one key changes no other key's wait.
pub delay_for-failure_other :
    (d : ProgressiveDelay) (key other : String) (now later : ℕ)
    → str_eq key other ≡ false
    → length d.state < d.max_keys
    → (delay_for (failure d key now) other later).0 ≡ (delay_for d other later).0
unfolding delay_for
delay_for-failure_other d key other now later ne room = rw (
  recall_lem (failure d key now) other later,
  recall_lem d other later,
  get-failure_other d key other now ne room,
  failure-forget d key now,
)

-- The first `free` failures cost nothing, and no wait passes the cap.
pub wait_bounds :
    (d : ProgressiveDelay) (n : ℕ) → (n ≤ d.free → wait d n ≡ 0) × (wait d n ≤ d.cap_wait)
unfolding wait
wait_bounds d n = (λ h. ground arith, ground arith)

pub counted-failure :
    (d : ProgressiveDelay) (key : String) (now later : ℕ)
    → failure_raises d key now ≡ false
    → later ≤ now + d.forget
    → counted (failure d key now) key later ≡ counted d key now + 1
counted-failure d key now later r k =
    rw
      (
        counted_lem (failure d key now) key later,
        get-failure_self d key now r,
        failure-forget d key now,
      )
      (ground arith)

-- Failures of one key at the times of the list.
pub fail_all : ProgressiveDelay → String → List ℕ → ProgressiveDelay
fail_all d key [] = d
fail_all d key (t ∷ ts) = fail_all (failure d key t) key ts

-- each time is at most `forget` after the one before
abbrev pub AreClose : ℕ → ℕ → List ℕ → Type 0
AreClose forget t [] = Unit
AreClose forget t (u ∷ ts) = (u ≤ t + forget) × AreClose forget u ts

abbrev pub final : ℕ → List ℕ → ℕ
final t [] = t
final t (u ∷ ts) = final u ts

failure-wait :
    (d : ProgressiveDelay) (key : String) (now n : ℕ) → wait (failure d key now) n ≡ wait d n
unfolding wait failure
failure-wait d key now n = let (b, c, f, _, _) = recall_shape d key now in ground (arith, b, c, f)

failure-free : (d : ProgressiveDelay) (key : String) (now : ℕ) → (failure d key now).free ≡ d.free
unfolding failure
failure-free d key now = ground (arith, (recall_shape d key now).2)

raises_not :
    (d : ProgressiveDelay) (key : String) (now : ℕ)
    → counted d key now + 1 ≤ d.free + 1024
    → failure_raises d key now ≡ false
unfolding counted failure_raises overflows
raises_not d key now h = ground (arith, h)

waited :
    (d : ProgressiveDelay) (key : String) (t : ℕ) (ts : List ℕ)
    → AreClose d.forget t ts
    → counted d key t + 1 + length ts ≤ d.free + 1024
    → (delay_for (fail_all d key (t ∷ ts)) key (final t ts)).0
      ≡ wait d (counted d key t + 1 + length ts)
unfolding fail_all
waited d key t [] h few =
    rw (delay_for-failure d key t (raises_not d key t (omega (arith, few))))
      (ap (wait d) (omega arith))
waited d key t (u ∷ ts) h few =
    let quiet = raises_not d key t (omega (arith, few)) in
    let one_more = counted-failure d key t u quiet h.0 in
    waited (failure d key t) key u ts (rw (failure-forget d key t) h.1)
      (omega (arith, few, one_more, failure-free d key t))
    ∙ failure-wait d key t (counted (failure d key t) key u + 1 + length ts)
    ∙ ap (wait d) (omega (arith, one_more))

free_wait : (d : ProgressiveDelay) (n : ℕ) → n ≤ d.free → wait d n ≡ 0
unfolding wait
free_wait d n h = ground (arith, h)

doubled_wait :
    (d : ProgressiveDelay) (n : ℕ)
    → d.free < n
    → wait d n ≡ min d.cap_wait (d.base * 2 ^ (n - d.free - 1))
unfolding wait
doubled_wait d n h = ground (arith, h)

-- After k + 1 failures of a key, none more than `forget` after the one before, let n be their number with
-- those counted before: if n is at most `free` the key does not wait, else it waits for
-- `base * 2 ^ (n - free - 1)` and at most `cap` from the last of them on. This is for up to `free` + 1024
-- failures; one more raises an OverflowError.
pub delay_for-fail_all :
    (d : ProgressiveDelay) (key : String) (t : ℕ) (ts : List ℕ)
    → AreClose d.forget t ts
    → counted d key t + 1 + length ts ≤ d.free + 1024
    → let n = counted d key t + 1 + length ts in
      let delay = (delay_for (fail_all d key (t ∷ ts)) key (final t ts)).0 in
      (n ≤ d.free → delay ≡ 0)
      × (d.free < n → delay ≡ min d.cap_wait (d.base * 2 ^ (n - d.free - 1)))
unfolding wait
delay_for-fail_all d key t ts h few =
    let n = counted d key t + 1 + length ts in
    let e = waited d key t ts h few in ((λ l. e ∙ free_wait d n l), (λ l. e ∙ doubled_wait d n l))

-- A failure raises exactly if `free` + 1024 failures are counted before it.
pub failure_raises_iff :
    (d : ProgressiveDelay) (key : String) (now : ℕ)
    → (failure_raises d key now ≡ true) ↔ (d.free + 1024 ≤ counted d key now)
unfolding counted failure_raises overflows
failure_raises_iff d key now = ground arith

-- A success clears the key: it waits no longer, and its next failure counts as its first.
pub success_clears :
    (d : ProgressiveDelay) (key : String) (now : ℕ)
    → ((delay_for (success d key) key now).0 ≡ 0) × (counted (success d key) key now ≡ 0)
unfolding delay_for success
success_clears d key now = (
  rw (recall_lem (success d key) key now, get-pop d.state key key, eq_refl key) (omega arith),
  rw (counted_lem (success d key) key now, get-pop d.state key key, eq_refl key),
)

-- From the first failure that costs, each failure doubles the wait until the cap.
pub wait_doubles :
    (d : ProgressiveDelay) (n : ℕ)
    → d.free < n
    → wait d (n + 1) ≡ min d.cap_wait (2 * (d.base * 2 ^ (n - d.free - 1)))
unfolding wait
wait_doubles d n h = ground (arith, doubled)
  where
    doubled : d.base * 2 ^ (n + 1 - d.free - 1) ≡ 2 * (d.base * 2 ^ (n - d.free - 1))
    doubled =
        let e : n + 1 - d.free - 1 ≡ suc (n - d.free - 1) = omega arith in
        rw (e, pow-suc 2 (n - d.free - 1)) (grind arith)
