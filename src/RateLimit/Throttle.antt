-- ===== src/RateLimit/Throttle.antt =====
-- `LoginThrottler` of source/middleware/RateLimiter.h. The lock makes every call one step; the
-- clock's reading is an argument. Signed differences of time points are compared as sums.
pub mod Isolation
pub mod Lockout
use idtx_core.Base.{
  ℕ, ◌+◌, ◌-◌, ◌/◌, Bool, true, false, not, ◌&&◌, ◌||◌, Option, none, some, Str, Str-discrete,
  get_or, update, leb, ltb, ◌==◌, if◌then◌else◌, u64,
}
use idtx_core.RateLimit.Clock.{seconds}

pub record Entry : Type 0 where
  pub first_failure : ℕ
  pub failures : ℕ
  pub locked_until : ℕ

-- All three durations are in seconds.
pub record Policy : Type 0 where
  pub max_failures : ℕ
  pub failure_window : ℕ
  pub lockout : ℕ

pub record Throttler : Type 0 where
  pub policy : Policy
  pub last_sweep : ℕ
  pub entries : Str → Option Entry

abbrev pub new_entry : Entry
new_entry = record { first_failure = 0; failures = 0; locked_until = 0 }

-- The constructor: `now` is its reading of the clock.
abbrev pub new_throttler : Policy → ℕ → Throttler
new_throttler p now = record { policy = p; last_sweep = now; entries = λ _. none }

-- The whole seconds for which an entry stays locked.
unfoldable pub locked_seconds : Entry → ℕ → ℕ
locked_seconds e now = if ltb now e.locked_until then (e.locked_until - now) / seconds 1 else 0

unfoldable pub locked_for : Throttler → Str → ℕ → ℕ
locked_for l key now = elim (l.entries key) [ none ↦ 0 | some e ↦ locked_seconds e now ]

unfoldable pub maybe_sweep : Throttler → ℕ → Throttler
maybe_sweep l now =
    if ltb now (l.last_sweep + seconds l.policy.failure_window) then l else record l {
      last_sweep = now;
      entries = λ key. elim (l.entries key) [
        | none ↦ none
        | some e ↦
            let locked = ltb now e.locked_until in
            let active =
              ltb 0 e.failures && ltb now (e.first_failure + seconds l.policy.failure_window) in
            if not locked && not active then none else some e
      ];
    }

-- The entry's part of `RecordFailure`: the new entry, and whether it became locked.
unfoldable pub fail : Policy → Entry → ℕ → Entry × Bool
unfolding u64
fail p e now =
    let streak : Entry =
      if e.failures == 0 || leb (e.first_failure + seconds p.failure_window) now
      then record e { first_failure = now; failures = 0 }
      else e in
    let counted : Entry = record streak { failures = u64 (streak.failures + 1) } in
    if leb p.max_failures counted.failures
    then (record counted { locked_until = now + seconds p.lockout; failures = 0 }, true)
    else (counted, false)

unfoldable pub record_failure : Throttler → Str → ℕ → Throttler × Bool
unfolding maybe_sweep
record_failure l key now =
    let swept = maybe_sweep l now in
    let r = fail l.policy (get_or (swept.entries key) new_entry) now in
    (record swept { entries = update Str-discrete swept.entries key (some r.0) }, r.1)

-- `erase`: the key has no entry any more.
unfoldable pub record_success : Throttler → Str → Throttler
record_success l key = record l { entries = update Str-discrete l.entries key none }
