-- ===== src/RateLimit/Clock.antt =====
-- The time points of source/middleware/RateLimiter.h: nanoseconds of the steady clock, at or after
-- its epoch, which is the time point that a new bucket or entry holds.
use idtx_core.Base.{ℕ, ◌*◌}

-- A `std::chrono::seconds` in nanoseconds.
abbrev pub seconds : ℕ → ℕ
seconds n = n * 1_000_000_000
