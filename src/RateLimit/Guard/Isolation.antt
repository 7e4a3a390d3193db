-- ===== src/RateLimit/Guard/Isolation.antt =====
-- `GuessGuard`: a source slows down itself; many sources slow down the identity.
use text.Mathlib.TextLemmas.{append_cancel_left}
use naco.Base.{
  Bool-cases, Dict, String, [], ap₂, arith, eq_iff, eq_refl, false, get, get-put_last,
  if◌then◌else◌, inl, inr, join, leb, length, length-pop_found, le→leb, max, none, pop, put, refl,
  str_eq, true, ℕ, ◌*◌, ◌+◌, ◌<◌, ◌∷◌, ◌≡◌, ◌≢◌, ◌≤◌,
}
use naco.RateLimit.Delay
use naco.RateLimit.Guard.{
  GuessGuard, after_failure, delay_for, drop_oldest, failing_sources, failure, fresh_sources,
  known_sources, make_room, oldest, pair_key, record_failure,
}
use naco.RateLimit.Delay.{wait}
use naco.RateLimit.Delay.Backoff.{counted, delay_for-failure, delay_for-failure_other}

-- Two sources of one identity have two keys.
pair_key_ne :
    (name a b : String) → str_eq a b ≡ false → str_eq (pair_key name a) (pair_key name b) ≡ false
unfolding pair_key
pair_key_ne name a b ne = elim (Bool-cases (str_eq (pair_key name a) (pair_key name b))) [
  | inl e ↦ cc (
    ne,
    (eq_iff a b).1 (
        append_cancel_left "\0" a b (
          append_cancel_left name (join "\0" a) (join "\0" b)
            ((eq_iff (pair_key name a) (pair_key name b)).0 e))),
  )
  | inr e ↦ e
]

module _ (window : ℕ) where
  length-fresh_sources : (now : ℕ) (d : Dict ℕ) → length (fresh_sources window now d) ≤ length d
  unfolding fresh_sources
  length-fresh_sources now [] = omega arith
  length-fresh_sources now ((s, at) ∷ d) = ground (arith, length-fresh_sources now d)

  -- what is too old stays too old
  fresh_sources_mono :
      (now later : ℕ) (d : Dict ℕ)
      → now ≤ later
      → length (fresh_sources window later d) ≤ length (fresh_sources window now d)
  unfolding fresh_sources
  fresh_sources_mono now later [] h = omega arith
  fresh_sources_mono now later ((s, at) ∷ d) h = ground (arith, fresh_sources_mono now later d h)

  fresh_sources_idem :
      (now : ℕ) (d : Dict ℕ)
      → fresh_sources window now (fresh_sources window now d) ≡ fresh_sources window now d
  unfolding fresh_sources
  fresh_sources_idem now [] = refl
  fresh_sources_idem now ((s, at) ∷ d) = ground (arith, fresh_sources_idem now d)

  abbrev IsFresh : ℕ → Dict ℕ → Type 0
  IsFresh now d = fresh_sources window now d ≡ d

  put-IsFresh : (now : ℕ) (d : Dict ℕ) (s : String) → IsFresh now d → IsFresh now (put d s now)
  unfolding fresh_sources
  put-IsFresh now [] s h = ground arith
  put-IsFresh now ((j, at) ∷ d) s h =
      ground (arith, put-IsFresh now d s, length-fresh_sources now d)

  pop-IsFresh : (now : ℕ) (d : Dict ℕ) (s : String) → IsFresh now d → IsFresh now (pop d s)
  unfolding fresh_sources
  pop-IsFresh now [] s h = refl
  pop-IsFresh now ((j, at) ∷ d) s h =
      ground (arith, pop-IsFresh now d s, length-fresh_sources now d)

length-put :
    (d : Dict ℕ) (s : String) (v : ℕ)
    → (length d ≤ length (put d s v)) × (length (put d s v) ≤ length d + 1)
length-put [] s v = omega arith
length-put ((j, at) ∷ d) s v = ground (arith, length-put d s v)

get-oldest : (k : String) (at : ℕ) (d : Dict ℕ) → get {V = ℕ} ((k, at) ∷ d) (oldest k at d) ≢ none
unfolding oldest
get-oldest k at [] = rw (eq_refl k) (λ e. cc e)
get-oldest k at ((j, v) ∷ d) = ground (arith, get-oldest j v d, get-oldest k at d)

length-drop_oldest : (d : Dict ℕ) → length d ≢ 0 → length (drop_oldest d) + 1 ≤ length d
unfolding drop_oldest
length-drop_oldest [] h = absurd (h refl)
length-drop_oldest ((s, at) ∷ d) h =
    length-pop_found ((s, at) ∷ d) (oldest s at d) (get-oldest s at d)

module _ (g : GuessGuard) (name source : String) (now : ℕ) where
  -- A failure keeps the recorded sources of an identity at four times `spread` or fewer.
  pub length-after_failure :
      length (known_sources g name) ≤ g.spread * 4
      → length (after_failure g name source now) ≤ g.spread * 4
  unfolding after_failure failing_sources
  length-after_failure h = ground (
    arith,
    length-fresh_sources g.window now (known_sources g name),
    length-put (fresh_sources g.window now (known_sources g name)) source now,
    length-drop_oldest (put (fresh_sources g.window now (known_sources g name)) source now),
  )

  drop_oldest-IsFresh : (d : Dict ℕ) → IsFresh g.window now d → IsFresh g.window now (drop_oldest d)
  unfolding drop_oldest
  drop_oldest-IsFresh [] h = h
  drop_oldest-IsFresh ((s, at) ∷ d) h = pop-IsFresh g.window now ((s, at) ∷ d) (oldest s at d) h

  after_failure-IsFresh : IsFresh g.window now (after_failure g name source now)
  unfolding after_failure failing_sources
  after_failure-IsFresh =
      let d = put (fresh_sources g.window now (known_sources g name)) source now in
      let fresh =
        put-IsFresh g.window now (fresh_sources g.window now (known_sources g name)) source
          (fresh_sources_idem g.window now (known_sources g name)) in
      ground (arith, fresh, drop_oldest-IsFresh d fresh)

  known_sources-failure :
      Delay.failure_raises g.pair (pair_key name source) now ≡ false
      → known_sources (failure g name source now) name ≡ after_failure g name source now
  unfolding known_sources failure record_failure after_failure failing_sources make_room
  known_sources-failure quiet = ground (
    arith,
    quiet,
    get-put_last (make_room g name) name name (after_failure g name source now),
    eq_refl name,
  )

  shape-failure :
      ((failure g name source now).window ≡ g.window)
      × ((failure g name source now).spread ≡ g.spread)
      × ((failure g name source now).pair ≡ Delay.failure g.pair (pair_key name source) now)
  unfolding failure record_failure
  shape-failure = ground arith

  -- a failure that raises stores no source
  failing_sources-raised :
      (later : ℕ)
      → Delay.failure_raises g.pair (pair_key name source) now ≡ true
      → failing_sources (failure g name source now) name later ≡ failing_sources g name later
  unfolding failure failing_sources known_sources
  failing_sources-raised later e = rw e refl

delay_for_lem :
    (g : GuessGuard) (name source : String) (now : ℕ)
    → (delay_for g name source now).0 ≡ (
        if leb g.spread (length (failing_sources g name now))
        then max
            (Delay.delay_for g.pair (pair_key name source) now).0
            (Delay.delay_for g.identity name now).0
        else (Delay.delay_for g.pair (pair_key name source) now).0)
unfolding delay_for
delay_for_lem g name source now = ground arith

failing_sources-failure :
    (g : GuessGuard) (name source : String) (now later : ℕ)
    → Delay.failure_raises g.pair (pair_key name source) now ≡ false
    → failing_sources (failure g name source now) name later
      ≡ fresh_sources g.window later (after_failure g name source now)
unfolding failing_sources
failing_sources-failure g name source now later quiet =
    ap₂ (λ (w : ℕ) (d : Dict ℕ). fresh_sources w later d) (shape-failure g name source now).0
      (known_sources-failure g name source now quiet)

-- While fewer than `spread` sources fail for an identity, this one counted, a failure from one
-- source changes the wait of no other source of that identity, then or later (with room in the
-- table of pairs).
pub delay_for-failure_other_source :
    (g : GuessGuard) (name source other : String) (now later : ℕ)
    → now ≤ later
    → str_eq source other ≡ false
    → length g.pair.state < g.pair.max_keys
    → length (put (failing_sources g name now) source now) < g.spread
    → (delay_for (failure g name source now) name other later).0 ≡ (delay_for g name other later).0
delay_for-failure_other_source g name source other now later h ne room few =
    rw
      (
        delay_for_lem (failure g name source now) name other later,
        delay_for_lem g name other later,
        few_after,
        few_before,
        (shape-failure g name source now).2,
      )
      (delay_for-failure_other g.pair (pair_key name source) (pair_key name other) now later
        (pair_key_ne name source other ne) room)
  where
    small : length (after_failure g name source now) < g.spread
    small = unfold after_failure in ground arith

    few_before : leb g.spread (length (failing_sources g name later)) ≡ false
    few_before =
        unfold failing_sources in
        ground (
          arith,
          length-put (fresh_sources g.window now (known_sources g name)) source now,
          fresh_sources_mono g.window now later (known_sources g name) h,
          few,
        )

    few_after :
        leb
          (failure g name source now).spread
          (length (failing_sources (failure g name source now) name later))
        ≡ false
    few_after = elim (Bool-cases (Delay.failure_raises g.pair (pair_key name source) now)) [
      | inl e ↦
          rw (failing_sources-raised g name source now later e, (shape-failure g name source now).1)
            few_before
      | inr e ↦
          rw
            (failing_sources-failure g name source now later e, (shape-failure g name source now).1)
            (ground
              (arith, small, length-fresh_sources g.window later (after_failure g name source now)))
    ]

recorded_identity :
    (g : GuessGuard) (name source : String) (now : ℕ)
    → Delay.failure_raises g.pair (pair_key name source) now ≡ false
    → g.spread ≤ length (after_failure g name source now)
    → (failure g name source now).identity ≡ Delay.failure g.identity name now
unfolding failure record_failure after_failure failing_sources known_sources
recorded_identity g name source now quiet many = ground (arith, quiet, many)

-- Once `spread` sources fail for an identity, a failure that does not raise makes every source of it wait at least
-- what the identity's own count of such failures demands.
pub delay_for-failure_spread :
    (g : GuessGuard) (name source other : String) (now : ℕ)
    → Delay.failure_raises g.pair (pair_key name source) now ≡ false
    → Delay.failure_raises g.identity name now ≡ false
    → g.spread ≤ length (after_failure g name source now)
    → wait g.identity (counted g.identity name now + 1)
      ≤ (delay_for (failure g name source now) name other now).0
delay_for-failure_spread g name source other now quiet calm many =
    rw
      (
        delay_for_lem (failure g name source now) name other now,
        many_after,
        identity_after,
        delay_for-failure g.identity name now calm,
      )
      (omega arith)
  where
    many_after :
        leb
          (failure g name source now).spread
          (length (failing_sources (failure g name source now) name now))
        ≡ true
    many_after =
        rw
          (
            failing_sources-failure g name source now now quiet,
            (shape-failure g name source now).1,
            after_failure-IsFresh g name source now,
          )
          (le→leb _ _ many)

    identity_after : (failure g name source now).identity ≡ Delay.failure g.identity name now
    identity_after = recorded_identity g name source now quiet many
