-- ===== src/RateLimit/Window/Rate.antt =====
-- `SlidingWindow.hit`: the limit holds in every window of time.
use naco.Base.{
  get, none, mem_text, true, ◌≢◌, ◌⊎◌, Bool, Bool-cases, List, String, [], append-nil, append_assoc,
  arith, eq_iff, eq_refl, false, if◌then◌else◌, inl, inr, keep, leb, leb→le, length, length-append,
  length-keep, ltb, ltb→lt, str_eq, subst, sym, ℕ, ◌&&◌, ◌++◌, ◌+◌, ◌<◌, ◌∷◌, ◌≡◌, ◌≤◌,
}
use naco.RateLimit.Window.{SlidingWindow, hit, init, live, queue, store}
use naco.RateLimit.Window.Queues.{
  counts_at, in_window, keep-append, keep-expire, length-hit, length-in_window, queue-hit, HasRoom,
  get-hit,
}

-- A sequence of hits, and the times at which those of `key` were admitted.
pub run : SlidingWindow → List (String × ℕ) → SlidingWindow
run w [] = w
run w ((k, now) ∷ rest) = run (hit w k now).0 rest

pub admitted : String → SlidingWindow → List (String × ℕ) → List ℕ
admitted key w [] = []
admitted key w ((k, now) ∷ rest) =
    let later = admitted key (hit w k now).0 rest in
    if (hit w k now).1 && str_eq k key then now ∷ later else later

-- The clock does not run backwards.
abbrev pub IsOrdered : ℕ → List (String × ℕ) → Type 0
IsOrdered clock [] = Unit
IsOrdered clock ((k, now) ∷ rest) = (clock ≤ now) × IsOrdered now rest

-- what was admitted so far, against the state
record Tracks (key : String) (w : SlidingWindow) (clock : ℕ) (past : List ℕ) : Type 0 where
  kept :
      (t : ℕ)
      → clock ≤ t
      → length (keep (counts_at w.window t) past)
        ≤ length (keep (counts_at w.window t) (queue w key))
  fits : (t : ℕ) → length (keep (in_window w.window t) past) ≤ w.limit

module _ (key : String) (w : SlidingWindow) (now : ℕ) (past : List ℕ) where
  live_counts :
      (clock : ℕ)
      → clock ≤ now
      → Tracks key w clock past
      → (t : ℕ) → now ≤ t
      → length (keep (counts_at w.window t) past)
        ≤ length (keep (counts_at w.window t) (live w key now))
  unfolding live
  live_counts clock h known t n =
      rw (keep-expire w.window now t (queue w key) n) (known.kept t (omega arith))

  -- one more admitted hit still fits, in every window of time
  admit_fits :
      (clock : ℕ)
      → clock ≤ now
      → Tracks key w clock past
      → length (live w key now) < w.limit
      → (t : ℕ) → length (keep (in_window w.window t) (past ++ now ∷ [])) ≤ w.limit
  admit_fits clock h known room t = elim (Bool-cases (leb now t)) [
    | inl late ↦ rw (keep-append (in_window w.window t) past (now ∷ [])) (
        ground (
          arith,
          length-append (keep (in_window w.window t) past) (keep (in_window w.window t) (now ∷ [])),
          length-keep (in_window w.window t) (now ∷ []),
          length-in_window w.window t now past (leb→le now t late),
          live_counts clock h known now (omega arith),
          length-keep (counts_at w.window now) (live w key now),
        ))
    | inr early ↦
        rw (keep-append (in_window w.window t) past (now ∷ []), early)
          (rw (append-nil (keep (in_window w.window t) past)) (known.fits t))
  ]

  admit_kept :
      (clock : ℕ)
      → clock ≤ now
      → Tracks key w clock past
      → (t : ℕ) → now ≤ t
      → length (keep (counts_at w.window t) (past ++ now ∷ []))
        ≤ length (keep (counts_at w.window t) (live w key now ++ now ∷ []))
  admit_kept clock h known t n =
      rw
        (
          keep-append (counts_at w.window t) past (now ∷ []),
          keep-append (counts_at w.window t) (live w key now) (now ∷ []),
        )
        (omega (
          arith,
          length-append (keep (counts_at w.window t) past) (keep (counts_at w.window t) (now ∷ [])),
          length-append (keep (counts_at w.window t) (live w key now))
              (keep (counts_at w.window t) (now ∷ [])),
          live_counts clock h known t n,
        ))

-- what one hit adds to the times admitted for `key`
abbrev grown : String → SlidingWindow → String → ℕ → List ℕ → List ℕ
grown key w k now past = if (hit w k now).1 && str_eq k key then past ++ now ∷ [] else past

shape-hit :
    (w : SlidingWindow) (k : String) (now : ℕ)
    → ((hit w k now).0.window ≡ w.window)
      × ((hit w k now).0.limit ≡ w.limit)
      × ((hit w k now).0.max_keys ≡ w.max_keys)
unfolding hit store
shape-hit w k now = ground arith

-- A hit is admitted exactly if fewer than `limit` live hits of its key are recorded.
pub hit_admits :
    (w : SlidingWindow) (k : String) (now : ℕ)
    → (hit w k now).1 ≡ ltb (length (live w k now)) w.limit
unfolding hit
hit_admits w k now = ground arith

hit-Tracks_self :
    (key : String) (w : SlidingWindow) (clock now : ℕ) (past : List ℕ)
    → HasRoom w key
    → clock ≤ now
    → Tracks key w clock past
    → Tracks key (hit w key now).0 now (if (hit w key now).1 then past ++ now ∷ [] else past)
hit-Tracks_self key w clock now past room h known =
    let (sw, sl, _) = shape-hit w key now in
    elim (Bool-cases (ltb (length (live w key now)) w.limit)) [
      | inl admits ↦ record {
        kept = λ t n.
            rw (hit_admits w key now, admits, queue-hit w key key now room, eq_refl key, admits, sw)
              (admit_kept key w now past clock h known t n);
        fits = λ t.
            rw (hit_admits w key now, admits, sw, sl)
              (admit_fits key w now past clock h known (ltb→lt _ _ admits) t);
      }
      | inr full ↦ record {
        kept = λ t n.
            rw (hit_admits w key now, full, queue-hit w key key now room, eq_refl key, full, sw)
              (live_counts key w now past clock h known t n);
        fits = λ t. rw (hit_admits w key now, full, sw, sl) (known.fits t);
      }
    ]

hit-Tracks_other :
    (key k : String) (w : SlidingWindow) (clock now : ℕ) (past : List ℕ)
    → str_eq k key ≡ false
    → HasRoom w k
    → clock ≤ now
    → Tracks key w clock past
    → Tracks key (hit w k now).0 now past
hit-Tracks_other key k w clock now past ne room h known =
    let (sw, sl, _) = shape-hit w k now in
    record {
      kept = λ t n. rw (queue-hit w k key now room, ne, sw) (known.kept t (omega arith));
      fits = λ t. rw (sw, sl) (known.fits t);
    }

-- At most `limit` of these times lie in any stretch of length `window`.
abbrev pub AtMost : ℕ → ℕ → List ℕ → Type 0
AtMost limit window times = (t : ℕ) → length (keep (in_window window t) times) ≤ limit

AtMost-hit :
    (w : SlidingWindow) (k : String) (now : ℕ) (times : List ℕ)
    → AtMost (hit w k now).0.limit (hit w k now).0.window times
    → AtMost w.limit w.window times
AtMost-hit w k now times h =
    let (sw, sl, _) = shape-hit w k now in
    subst (λ (l : ℕ). AtMost l w.window times) sl
      (subst (λ (d : ℕ). AtMost (hit w k now).0.limit d times) sw h)

hit-Tracks :
    (key k : String) (w : SlidingWindow) (clock now : ℕ) (past : List ℕ)
    → HasRoom w k
    → clock ≤ now
    → Tracks key w clock past
    → Tracks key (hit w k now).0 now (grown key w k now past)
hit-Tracks key k w clock now past room h tracks = elim (Bool-cases (str_eq k key)) [
  | inl same ↦
      subst (λ (j : String). Tracks key (hit w j now).0 now (grown key w j now past))
        (sym ((eq_iff k key).0 same))
        (subst
          (λ (b : Bool). Tracks key (hit w key now).0 now (if b then past ++ now ∷ [] else past))
          (sym same_flag)
          (hit-Tracks_self key w clock now past (subst (HasRoom w) ((eq_iff k key).0 same) room) h
            tracks))
  | inr other ↦
      subst (λ (b : Bool). Tracks key (hit w k now).0 now (if b then past ++ now ∷ [] else past))
        (sym (other_flag other)) (hit-Tracks_other key k w clock now past other room h tracks)
]
  where
    same_flag : ((hit w key now).1 && str_eq key key) ≡ (hit w key now).1
    same_flag = rw (eq_refl key) (ground arith)

    other_flag : str_eq k key ≡ false → ((hit w k now).1 && str_eq k key) ≡ false
    other_flag other = rw other (ground arith)

regroup :
    (key k : String) (w : SlidingWindow) (now : ℕ) (past : List ℕ) (rest : List (String × ℕ))
    → past ++ admitted key w ((k, now) ∷ rest)
      ≡ grown key w k now past ++ admitted key (hit w k now).0 rest
unfolding admitted
regroup key k w now past rest = elim (Bool-cases ((hit w k now).1 && str_eq k key)) [
  | inl e ↦ rw e (sym (append_assoc past (now ∷ []) (admitted key (hit w k now).0 rest)))
  | inr e ↦ rw e
]

-- How many keys the hits have that are not in the list.
unfoldable pub new_keys : List String → List (String × ℕ) → ℕ
new_keys known [] = 0
new_keys known ((k, now) ∷ rest) =
    let more = new_keys (k ∷ known) rest in if mem_text k known then more else more + 1

-- the keys of the list are in the table
abbrev AreStored : SlidingWindow → List String → Type 0
AreStored w known = (j : String) → mem_text j known ≡ true → get w.hits j ≢ none

listed :
    (j k : String) (m : Bool)
    → (if str_eq j k then true else m) ≡ true
    → (str_eq k j ≡ true) ⊎ (m ≡ true)
listed j k m h = ground (arith, h, eq_iff j k, eq_iff k j)

hit-AreStored :
    (w : SlidingWindow) (k : String) (now : ℕ) (known : List String)
    → HasRoom w k
    → AreStored w known
    → AreStored (hit w k now).0 (k ∷ known)
hit-AreStored w k now known room a j h = elim (listed j k (mem_text j known) h) [
  | inl e ↦ get-hit w k j now room (inl e)
  | inr m ↦ get-hit w k j now room (inr (a j m))
]

-- what a hit leaves of the room for the hits to come
next_room :
    (w : SlidingWindow) (known : List String) (k : String) (now : ℕ) (rest : List (String × ℕ))
    → AreStored w known
    → length w.hits + new_keys known ((k, now) ∷ rest) ≤ w.max_keys
    → HasRoom w k
      × AreStored (hit w k now).0 (k ∷ known)
      × (length (hit w k now).0.hits + new_keys (k ∷ known) rest ≤ (hit w k now).0.max_keys)
unfolding new_keys
next_room w known k now rest a room =
    let (_, _, sm) = shape-hit w k now in
    elim (Bool-cases (mem_text k known)) [
      | inl e ↦
          let stored = a k e in
          let free : HasRoom w k = λ n. absurd (stored n) in
          (
            free,
            hit-AreStored w k now known free a,
            ground (arith, room, e, sm, (length-hit w k now free).1 stored),
          )
      | inr e ↦
          let free : HasRoom w k = λ n. ground (arith, room, e) in
          (
            free,
            hit-AreStored w k now known free a,
            ground (arith, room, e, sm, (length-hit w k now free).0),
          )
    ]

tracked_rate :
    (key : String) (w : SlidingWindow) (clock : ℕ) (past : List ℕ) (known : List String)
    (events : List (String × ℕ))
    → Tracks key w clock past
    → AreStored w known
    → IsOrdered clock events
    → length w.hits + new_keys known events ≤ w.max_keys
    → AtMost w.limit w.window (past ++ admitted key w events)
unfolding admitted
tracked_rate key w clock past known [] tracks a o room = rw (append-nil past) tracks.fits
tracked_rate key w clock past known ((k, now) ∷ rest) tracks a o room =
    let (free, stored, left) = next_room w known k now rest a room in
    subst (AtMost w.limit w.window) (sym (regroup key k w now past rest)) (
      AtMost-hit w k now (grown key w k now past ++ admitted key (hit w k now).0 rest) (
        tracked_rate key (hit w k now).0 now (grown key w k now past) (k ∷ known) rest
          (hit-Tracks key k w clock now past free o.0 tracks) stored o.1 left))

-- From an empty limiter, whatever keys are hit, in the order of time, as long as they are no more
-- different keys than the table has room for: in every stretch of time of length `window` at most
-- `limit` hits of a key are admitted.
pub hit_rate :
    (key : String) (limit window max_keys : ℕ) (events : List (String × ℕ))
    → IsOrdered 0 events
    → new_keys [] events ≤ max_keys
    → AtMost limit window (admitted key (init limit window max_keys) events)
hit_rate key limit window max_keys events o room =
    tracked_rate key (init limit window max_keys) 0 [] [] events start (λ j h. ground (arith, h)) o
      (omega (arith, room))
  where
    start : Tracks key (init limit window max_keys) 0 []
    start = record { kept = λ t h. omega arith; fits = λ t. omega arith }
