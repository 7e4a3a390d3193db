-- ===== src/RateLimit/Guard.antt =====
-- `GuessGuard` of naco/core/ratelimit.py.
pub mod Isolation
use naco.Base.{
  Dict, String, [], get, if◌then◌else◌, is_some, join, leb, length, ltb, max, none, not, pop,
  pop_first, put, put_last, some, ℕ, ◌&&◌, ◌*◌, ◌-◌, ◌∷◌,
}
use naco.RateLimit.Delay
use naco.RateLimit.Delay.{ProgressiveDelay, wait}

pub record GuessGuard : Type 0 where
  pub pair : ProgressiveDelay
  pub identity : ProgressiveDelay
  pub sources : Dict (Dict ℕ)
  pub spread : ℕ
  pub window : ℕ
  pub max_keys : ℕ

-- `f"{identity}\x00{source}"`
pub pair_key : String → String → String
pair_key name source = join name (join "\0" source)

-- the entries not older than `window`
pub fresh_sources : ℕ → ℕ → Dict ℕ → Dict ℕ
fresh_sources window now [] = []
fresh_sources window now ((s, at) ∷ d) =
    let rest = fresh_sources window now d in if ltb window (now - at) then rest else (s, at) ∷ rest

pub known_sources : GuessGuard → String → Dict ℕ
known_sources g name = elim (get g.sources name) [ none ↦ [] | some d ↦ d ]

-- `_failing_sources`: the dict that is stored is pruned in place
unfoldable pub failing_sources : GuessGuard → String → ℕ → Dict ℕ
unfolding known_sources fresh_sources
failing_sources g name now = fresh_sources g.window now (known_sources g name)

pub prune : GuessGuard → String → ℕ → GuessGuard
unfolding failing_sources
prune g name now = elim (get g.sources name) [
  | none ↦ g
  | some d ↦ record g { sources = put g.sources name (failing_sources g name now) }
]

unfoldable pub delay_for : GuessGuard → String → String → ℕ → ℕ × GuessGuard
unfolding prune failing_sources Delay.delay_for
delay_for g name source now =
    let (wait, p) = Delay.delay_for g.pair (pair_key name source) now in
    let g' = prune (record g { pair = p }) name now in
    if leb g.spread (length (failing_sources g name now))
    then (let (w, i) = Delay.delay_for g.identity name now in
        (max wait w, record g' { identity = i }))
    else (wait, g')

-- the key of the first entry with the smallest value, `min(d, key=d.__getitem__)`
pub oldest : String → ℕ → Dict ℕ → String
oldest s at [] = s
oldest s at ((k, v) ∷ d) = oldest (if ltb v at then k else s) (if ltb v at then v else at) d

pub drop_oldest : Dict ℕ → Dict ℕ
unfolding oldest
drop_oldest [] = []
drop_oldest ((s, at) ∷ d) = pop ((s, at) ∷ d) (oldest s at d)

-- the sources of `name` after a failure from `source`
unfoldable pub after_failure : GuessGuard → String → String → ℕ → Dict ℕ
unfolding drop_oldest failing_sources
after_failure g name source now =
    let d = put (failing_sources g name now) source now in
    if ltb (g.spread * 4) (length d) then drop_oldest d else d

pub make_room : GuessGuard → String → Dict (Dict ℕ)
make_room g name =
    if not (is_some (get g.sources name)) && leb g.max_keys (length g.sources)
    then pop_first g.sources
    else g.sources

-- the rest of `failure`, when the failure of the pair did not raise
pub record_failure : GuessGuard → String → String → ℕ → GuessGuard
unfolding after_failure make_room
record_failure g name source now =
    let d = after_failure g name source now in
    let g' = record g { sources = put_last (make_room g name) name d } in
    if leb g.spread (length d)
    then record g' { identity = Delay.failure g.identity name now }
    else g'

-- what is stored after `failure`, where the failure of the pair or of the identity may have raised
pub failure : GuessGuard → String → String → ℕ → GuessGuard
unfolding record_failure
failure g name source now =
    let g' = record g { pair = Delay.failure g.pair (pair_key name source) now } in
    if Delay.failure_raises g.pair (pair_key name source) now
    then g'
    else record_failure g' name source now

pub success : GuessGuard → String → String → GuessGuard
success g name source = record g { pair = Delay.success g.pair (pair_key name source) }

pub init : ℕ → ℕ → ℕ → ℕ → ℕ → GuessGuard
init free_attempts wait_cap spread window max_keys = record {
  pair = track free_attempts;
  identity = track 0;
  sources = [];
  spread = spread;
  window = window;
  max_keys = max_keys;
}
  where
    track : ℕ → ProgressiveDelay
    track free = record {
      base = 1;
      cap_wait = wait_cap;
      free = free;
      forget = window;
      max_keys = max_keys;
      state = [];
    }

-- `clear`
pub clear : GuessGuard → GuessGuard
clear g = record g {
  pair = record (g.pair) { state = [] };
  identity = record (g.identity) { state = [] };
  sources = [];
}
