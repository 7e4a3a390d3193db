-- ===== src/Tests/Limits.antt =====
-- Rate limits, delays, the cache of verified passwords and the session table at concrete inputs.
use mathlib.Core.List.{Memᴰ}
use naco.Base.{
  min, ◌*◌, ◌^◌, ◌-◌, refl, ◌<◌, List, String, [], arith, length, none, put, refl, some, true, ℕ,
  ◌+◌, ◌<◌, ◌∷◌, ◌≡◌, ◌≤◌,
}
use naco.Tacacs.Connections.{
  IsWithin, TacacsServer, close_connection, connection-IsWithin, connections, open_connection,
}
use naco.RateLimit.Window.{init}
use naco.RateLimit.Window.Rate.{AtMost, admitted, hit_rate, new_keys}
use naco.RateLimit.Delay
use naco.RateLimit.Delay.{recall, ProgressiveDelay, wait}
use naco.RateLimit.Delay.Backoff.{counted, delay_for-fail_all, fail_all}
use naco.RateLimit.Guard
use naco.RateLimit.Guard.{GuessGuard}
use naco.RateLimit.Guard.Isolation.{delay_for-failure_other_source}
use naco.Aaa.Service.Verified.{
  Key, cache_of, recently_verified, recently_verified-cache_of, verified_seconds,
}
use naco.Aaa.Service.Accounting.{Report, Status, accounting, find_session}
use naco.Aaa.Service.Accounting.Table.{find-accounting, row_after}

abbrev three_hits : List (String × ℕ)
three_hits = ("a", 1) ∷ ("b", 2) ∷ ("a", 3) ∷ []

hits-new : new_keys [] three_hits ≤ 8
unfolding new_keys
hits-new = omega arith

hit_rate_example : AtMost 1 60 (admitted "a" (init 1 60 8) three_hits)
hit_rate_example =
    hit_rate "a" 1 60 8 three_hits (omega arith, (omega arith, (omega arith, tt))) hits-new

abbrev slow : ProgressiveDelay
slow = record { base = 1; cap_wait = 300; free = 1; forget = 900; max_keys = 10; state = [] }

slow-counted : counted slow "ann" 5 ≡ 0
unfolding counted recall
slow-counted = refl

delay_for-fail_all_example :
    let n = counted slow "ann" 5 + 1 + 2 in
    let delay = (Delay.delay_for (fail_all slow "ann" (5 ∷ 6 ∷ 7 ∷ [])) "ann" 7).0 in
    (n ≤ 1 → delay ≡ 0) × (1 < n → delay ≡ min 300 (1 * 2 ^ (n - 1 - 1)))
delay_for-fail_all_example =
    delay_for-fail_all slow "ann" 5 (6 ∷ 7 ∷ []) (omega arith, (omega arith, tt))
      (omega (arith, slow-counted))

abbrev guard : GuessGuard
guard = record {
  pair = slow;
  identity = slow;
  sources = [];
  spread = 3;
  window = 900;
  max_keys = 10;
}

few-test : length (put (Guard.failing_sources guard "ann" 5) "s1" 5) < 3
unfolding Guard.failing_sources
few-test = omega arith

delay_for-failure_other_source_example :
    (Guard.delay_for (Guard.failure guard "ann" "s1" 5) "ann" "s2" 6).0
    ≡ (Guard.delay_for guard "ann" "s2" 6).0
delay_for-failure_other_source_example =
    delay_for-failure_other_source guard "ann" "s1" "s2" 5 6 (omega arith) refl (omega arith)
      few-test

abbrev strict : GuessGuard
strict = record {
  pair = slow;
  identity = slow;
  sources = [];
  spread = 1;
  window = 900;
  max_keys = 10;
}

many-test : 1 ≤ length (Guard.after_failure strict "ann" "s1" 5)
unfolding Guard.after_failure
many-test = omega arith

abbrev key : Key
key = ("ann", "10.0.0.1", "aa:bb")

recently-test : recently_verified (cache_of ((key, 10) ∷ [])) 20 key ≡ true
unfolding recently_verified cache_of
recently-test = refl

recently_verified-cache_of_example :
    (t : ℕ) × Memᴰ {A = Key × ℕ} (key, t) ((key, 10) ∷ []) × (20 ≤ t + verified_seconds)
recently_verified-cache_of_example =
    recently_verified-cache_of ((key, 10) ∷ []) 20 key recently-test

abbrev report : Report
report = record {
  nas_ip = "10.0.0.1";
  session_id = "42";
  user_name = "ann";
  calling_station = "";
  nas_ip_address = "";
  nas_identifier = "";
  audit_session_id = "";
  mac = none;
  framed = "";
  ssid = none;
  session_time = some 5;
  input_low = some 7;
  input_giga = some 1;
  output_low = none;
  output_giga = none;
}

find-accounting_example :
    find_session
      (accounting (λ s. s) (λ m n. none) (some Status.start) report 100 [])
      "10.0.0.1"
      "42"
    ≡ row_after
        (λ s. s)
        (λ m n. none)
        report
        100
        (some Status.start)
        (find_session [])
        "10.0.0.1"
        "42"
find-accounting_example =
    find-accounting (λ s. s) (λ m n. none) report 100 (some Status.start) [] "10.0.0.1" "42"

abbrev idle : TacacsServer
idle = record { max_connections = 8; max_per_client = 2; total = 0; per_client = [] }

idle-IsWithin : IsWithin idle
unfolding IsWithin connections
idle-IsWithin = (omega arith, λ ip. omega arith)

connection-IsWithin_example :
    ((t : TacacsServer) → open_connection idle "10.0.0.1" ≡ some t → IsWithin t)
    × IsWithin (close_connection idle "10.0.0.1")
connection-IsWithin_example = connection-IsWithin idle "10.0.0.1" idle-IsWithin
