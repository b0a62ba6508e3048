-- ===== src/RateLimit/Tests.antt =====
-- Runs of source/middleware/RateLimiter.h, and the theorems at concrete sequences of calls.
use idtx_core.Base.{
  ℕ, ◌≡◌, ◌≤◌, ◌<◌, ◌↔◌, ◌+◌, refl, ap, length, List, [], ◌∷◌, Str, Str-discrete, ℕ_discrete, codes,
  arith, u64,
}
use idtx_core.RateLimit.Clock.{seconds}
use idtx_core.RateLimit.Window.{
  Limiter, new_bucket, new_limiter, allow, decide, charge, maybe_sweep,
}
use idtx_core.RateLimit.Window.Isolation.{decisions_for, times_of, alone, decisions_for-new_limiter}
use idtx_core.RateLimit.Window.Quota.{count_allowed, allowed_in_window, allowed_in_interval}
use idtx_core.RateLimit.Throttle.{
  Policy, Throttler, new_entry, new_throttler, record_failure, record_success, locked_for, fail,
}
use idtx_core.RateLimit.Throttle
use idtx_core.RateLimit.Throttle.Isolation
use idtx_core.RateLimit.Throttle.Isolation.{
  Call, query, failure, success, tripped, answers_for, calls_of, answers_for-new_throttler,
}
use idtx_core.RateLimit.Throttle.Lockout.{after, locked_for-record_failure, lockout_persists}

abbrev alice : Str
alice = codes "a"

abbrev bob : Str
bob = codes "bob"

-- Two requests a minute are allowed; the third of the window is refused.
abbrev requests : List (Str × ℕ)
requests =
    (alice, seconds 100) ∷ (bob, seconds 110) ∷ (alice, seconds 120) ∷ (alice, seconds 159) ∷ []

decisions_for-new_limiter_example :
    decisions_for alice (new_limiter 2 60 (seconds 90)) requests
    ≡ alone 2 60 new_bucket (times_of alice requests)
decisions_for-new_limiter_example =
    decisions_for-new_limiter alice 2 60 (seconds 90) requests (omega arith)

allowed_in_window_example :
    count_allowed (decisions_for alice (new_limiter 2 60 (seconds 90)) requests) ≡ 2
unfolding times_of Str-discrete ℕ_discrete
allowed_in_window_example =
    allowed_in_window alice 2 60 (seconds 90) (seconds 100) (seconds 120 ∷ seconds 159 ∷ [])
      requests (omega arith) refl (omega arith) (omega arith) (omega arith)

-- Requests on both sides of the end of a window: three of four get through within two seconds.
abbrev around_the_end : List (Str × ℕ)
around_the_end =
    (alice, seconds 159) ∷ (alice, seconds 159) ∷ (alice, seconds 160) ∷ (alice, seconds 161) ∷ []

abbrev opened : Limiter
opened = (allow (new_limiter 2 60 (seconds 90)) alice (seconds 100)).0

three_of_four : count_allowed (decisions_for alice opened around_the_end) ≡ 3
unfolding count_allowed decisions_for allow charge decide maybe_sweep Str-discrete ℕ_discrete u64
three_of_four = refl

allowed_in_interval_example : count_allowed (decisions_for alice opened around_the_end) ≤ 4
unfolding times_of allow charge maybe_sweep Str-discrete ℕ_discrete u64
allowed_in_interval_example =
    allowed_in_interval alice opened (seconds 100) (seconds 159) around_the_end (omega arith)
      (omega arith) (omega arith)

-- Three failures within five minutes lock a key for five minutes.
abbrev three_strikes : Policy
three_strikes = record { max_failures = 3; failure_window = 300; lockout = 300 }

abbrev logins : List (Str × Call)
logins =
    (alice, failure (seconds 400))
    ∷ (bob, failure (seconds 401))
    ∷ (alice, failure (seconds 402))
    ∷ (bob, success (seconds 403))
    ∷ (alice, failure (seconds 404))
    ∷ []

answers_for-new_throttler_example :
    answers_for alice (new_throttler three_strikes (seconds 390)) logins
    ≡ Isolation.alone three_strikes new_entry (calls_of alice logins)
answers_for-new_throttler_example =
    answers_for-new_throttler alice three_strikes (seconds 390) logins (omega arith)

-- A policy that locks at the first failure.
abbrev one_strike : Throttler
one_strike =
    new_throttler (record { max_failures = 1; failure_window = 300; lockout = 300 }) (seconds 390)

locked_for-record_failure_example :
    (0 < locked_for (record_failure one_strike alice (seconds 400)).0 alice (seconds 500))
    ↔ (seconds 500 + seconds 1 ≤ seconds 400 + seconds 300)
unfolding record_failure Throttle.maybe_sweep fail u64
locked_for-record_failure_example =
    locked_for-record_failure one_strike alice (seconds 400) (seconds 500) refl

lockout_persists_example :
    0
    < locked_for
        (after
          (record_failure one_strike alice (seconds 400)).0
          ((bob, success (seconds 410)) ∷ (alice, failure (seconds 420)) ∷ []))
        alice
        (seconds 699)
unfolding record_failure Throttle.maybe_sweep fail u64
lockout_persists_example =
    lockout_persists one_strike alice (seconds 400) (seconds 699)
      ((bob, success (seconds 410)) ∷ (alice, failure (seconds 420)) ∷ []) refl (omega arith)
      ((λ (e : bob ≡ alice). absurd (omega (arith, ap length e))), omega arith, (omega arith, tt))
      (omega arith)
