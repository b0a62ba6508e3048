-- ===== src/RateLimit/Throttle/Lockout.antt =====
-- When a `LoginThrottler` (source/middleware/RateLimiter.h) locks a key, and for how long.
use idtx_core.Base.{
  ℕ, ◌+◌, ◌^◌, ◌≤◌, ◌<◌, ◌≡◌, ◌≢◌, ◌↔◌, ap, ◌∙◌, List, [], ◌∷◌, ◌++◌, map, Str, arith, true, false,
  length, replicate, All,
}
use idtx_core.RateLimit.Clock.{seconds}
use idtx_core.RateLimit.Throttle.{
  Entry, Policy, Throttler, new_entry, new_throttler, locked_seconds, locked_for, maybe_sweep, fail,
  record_failure, record_success,
}
use idtx_core.RateLimit.Throttle.Isolation.{
  Call, query, failure, success, tripped, call, answers_for, calls_of, alone, step_alone,
  IsMonotone, entry_of, answers_for-new_throttler,
}

-- A failure that trips the lockout at time `t` makes the key show as locked exactly until one
-- second before the lockout ends.
pub locked_for-record_failure :
    (l : Throttler) (k : Str) (t now : ℕ)
    → (record_failure l k t).1 ≡ true
    → (0 < locked_for (record_failure l k t).0 k now)
      ↔ (now + seconds 1 ≤ t + seconds l.policy.lockout)
unfolding record_failure locked_for locked_seconds fail maybe_sweep
locked_for-record_failure l k t now h = (λ p. ground arith, λ p. ground arith)

-- The throttler after a sequence of calls.
unfoldable pub after : Throttler → List (Str × Call) → Throttler
after l [] = l
after l ((key, c) ∷ calls) = after (call l key c).0 calls

-- No call is a success of the key, and all happen before time `u`.
abbrev pub NoSuccess : Str → ℕ → List (Str × Call) → Type 0
NoSuccess k u [] = Unit {0}
NoSuccess k u ((key, success now) ∷ calls) = (key ≢ k) × (now < u) × NoSuccess k u calls
NoSuccess k u ((key, query now) ∷ calls) = (now < u) × NoSuccess k u calls
NoSuccess k u ((key, failure now) ∷ calls) = (now < u) × NoSuccess k u calls

abbrev IsLocked : Throttler → Str → ℕ → ℕ → Type 0
IsLocked l k t u = (u ≤ (entry_of l k).locked_until) × (u ≤ t + seconds l.policy.lockout)

record_failure-IsLocked :
    (l : Throttler) (k key : Str) (t now u : ℕ)
    → t ≤ now
    → now < u
    → IsLocked l k t u
    → IsLocked (record_failure l key now).0 k now u
unfolding record_failure maybe_sweep fail
record_failure-IsLocked l k key t now u h lt v = ground arith

record_success-IsLocked :
    (l : Throttler) (k key : Str) (t now u : ℕ)
    → key ≢ k
    → t ≤ now
    → IsLocked l k t u
    → IsLocked (record_success l key) k now u
unfolding record_success
record_success-IsLocked l k key t now u ne h v = ground arith

after-IsLocked :
    (l : Throttler) (k : Str) (t u : ℕ) (calls : List (Str × Call))
    → IsMonotone t calls
    → NoSuccess k u calls
    → IsLocked l k t u
    → u ≤ (entry_of (after l calls) k).locked_until
unfolding after call
after-IsLocked l k t u [] m n v = v.0
after-IsLocked l k t u ((key, query now) ∷ calls) m n v =
    after-IsLocked l k now u calls m.1 n.1 (v.0, omega (arith, v.1, m.0))
after-IsLocked l k t u ((key, failure now) ∷ calls) m n v =
    after-IsLocked (record_failure l key now).0 k now u calls m.1 n.1
      (record_failure-IsLocked l k key t now u m.0 n.0 v)
after-IsLocked l k t u ((key, success now) ∷ calls) m n v =
    after-IsLocked (record_success l key) k now u calls m.1 n.2
      (record_success-IsLocked l k key t now u n.0 m.0 v)

record_failure_tripped :
    (l : Throttler) (k : Str) (t : ℕ)
    → (record_failure l k t).1 ≡ true
    → IsLocked (record_failure l k t).0 k t (t + seconds l.policy.lockout)
unfolding record_failure maybe_sweep fail
record_failure_tripped l k t h = ground arith

locked_for_pos :
    (l : Throttler) (k : Str) (now u : ℕ)
    → u ≤ (entry_of l k).locked_until
    → now + seconds 1 ≤ u
    → 0 < locked_for l k now
unfolding locked_for locked_seconds
locked_for_pos l k now u h lt = ground arith

-- From a failure that trips the lockout until one second before the lockout ends, the key stays
-- locked: no failure, no query, no sweep and no success of another key ends the lockout earlier.
-- The readings of the clock do not go back.
pub lockout_persists :
    (l : Throttler) (k : Str) (t now : ℕ) (calls : List (Str × Call))
    → (record_failure l k t).1 ≡ true
    → IsMonotone t calls
    → NoSuccess k (t + seconds l.policy.lockout) calls
    → now + seconds 1 ≤ t + seconds l.policy.lockout
    → 0 < locked_for (after (record_failure l k t).0 calls) k now
lockout_persists l k t now calls h m n lt =
    let l' = (record_failure l k t).0 in
    locked_for_pos (after l' calls) k now (t + seconds l.policy.lockout)
      (after-IsLocked l' k t (t + seconds l.policy.lockout) calls m n
        (record_failure_tripped l k t h))
      lt

fail-below :
    (p : Policy) (e : Entry) (now : ℕ)
    → 0 < e.failures
    → e.failures + 1 < p.max_failures
    → p.max_failures < 2 ^ 64
    → now < e.first_failure + seconds p.failure_window
    → fail p e now ≡ (record e { failures = e.failures + 1 }, false)
unfolding fail
fail-below p e now pos below small lt = ground arith

fail-full :
    (p : Policy) (e : Entry) (now : ℕ)
    → 0 < e.failures
    → e.failures + 1 ≡ p.max_failures
    → p.max_failures < 2 ^ 64
    → now < e.first_failure + seconds p.failure_window
    → (fail p e now).1 ≡ true
unfolding fail
fail-full p e now pos full small lt = ground arith

fail-new_entry :
    (p : Policy) (now : ℕ)
    → 1 < p.max_failures
    → fail p new_entry now ≡ (record { first_failure = now; failures = 1; locked_until = 0 }, false)
unfolding fail
fail-new_entry p now h = ground arith

fail-new_entry_full : (p : Policy) (now : ℕ) → 1 ≡ p.max_failures → (fail p new_entry now).1 ≡ true
unfolding fail
fail-new_entry_full p now h = ground arith

-- A running streak trips with the failure that fills it, and with none before.
alone-streak :
    (p : Policy) (e : Entry) (now : ℕ) (times : List ℕ)
    → 0 < e.failures
    → e.failures + length times + 1 ≡ p.max_failures
    → p.max_failures < 2 ^ 64
    → now < e.first_failure + seconds p.failure_window
    → All (λ t. t < e.first_failure + seconds p.failure_window) times
    → alone p e (map failure (now ∷ times))
      ≡ replicate (length times) (tripped false) ++ tripped true ∷ []
unfolding alone step_alone
alone-streak p e now [] pos full small lt all = rw (fail-full p e now pos (omega arith) small lt)
alone-streak p e now (x ∷ times) pos full small lt all =
    rw (fail-below p e now pos (omega arith) small lt) (
      ap (λ rest. tripped false ∷ rest)
        (alone-streak p (record e { failures = e.failures + 1 }) x times (omega arith) (omega arith)
          small all.0 all.1))

alone-new_entry :
    (p : Policy) (first : ℕ) (times : List ℕ)
    → length times + 1 ≡ p.max_failures
    → p.max_failures < 2 ^ 64
    → All (λ t. t < first + seconds p.failure_window) times
    → alone p new_entry (map failure (first ∷ times))
      ≡ replicate (length times) (tripped false) ++ tripped true ∷ []
unfolding alone step_alone
alone-new_entry p first [] full small all = rw (fail-new_entry_full p first (omega arith))
alone-new_entry p first (x ∷ times) full small all = rw (fail-new_entry p first (omega arith)) (
    ap (λ rest. tripped false ∷ rest)
      (alone-streak p (record { first_failure = first; failures = 1; locked_until = 0 }) x times
        (omega arith) (omega arith) small all.0 all.1))

-- On a new throttler the first `max_failures` failures of a key, if no success or query of the key
-- comes between them and they all fall within the failure window of the first, trip the lockout
-- with the last of them and not before, whatever happens on other keys. The readings of the clock
-- do not go back, and the threshold is positive and below 2 ^ 64.
trips_at_max_failures :
    (k : Str) (p : Policy) (created first : ℕ) (times : List ℕ) (calls : List (Str × Call))
    → IsMonotone created calls
    → calls_of k calls ≡ map failure (first ∷ times)
    → length times + 1 ≡ p.max_failures
    → p.max_failures < 2 ^ 64
    → All (λ t. t < first + seconds p.failure_window) times
    → answers_for k (new_throttler p created) calls
      ≡ replicate (length times) (tripped false) ++ tripped true ∷ []
trips_at_max_failures k p created first times calls m e full small all =
    answers_for-new_throttler k p created calls m
    ∙ ap (alone p new_entry) e
    ∙ alone-new_entry p first times full small all
