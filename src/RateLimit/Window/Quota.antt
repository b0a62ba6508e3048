-- ===== src/RateLimit/Window/Quota.antt =====
-- How many requests of a key a `SlidingWindowLimiter` (source/middleware/RateLimiter.h) lets
-- through.
use idtx_core.Base.{
  ℕ, suc, ◌+◌, ◌-◌, ◌*◌, ◌^◌, ◌≤◌, ◌<◌, ◌≡◌, refl, min, List, [], ◌∷◌, Str, get_or, arith, length,
  All, if◌then◌else◌, inl, ap, All-weaken,
}
use idtx_core.RateLimit.Clock.{seconds}
use idtx_core.RateLimit.Window.{Bucket, Limiter, Decision, new_bucket, new_limiter, charge, decide}
use idtx_core.RateLimit.Window.Isolation.{
  decisions_for, times_of, alone, IsMonotone, bucket_of, decisions_for-alone,
  decisions_for-new_limiter,
}

unfoldable pub count_allowed : List Decision → ℕ
count_allowed [] = 0
count_allowed (d ∷ ds) = if d.allowed then suc (count_allowed ds) else count_allowed ds

-- While its window lasts, a counter lets through what is left of the quota.
count_allowed-alone :
    (max_requests window : ℕ) (b : Bucket) (times : List ℕ)
    → All (λ now. now < b.window_start + seconds window) times
    → b.count + length times < 2 ^ 64
    → count_allowed (alone max_requests window b times)
      ≡ min (length times) (max_requests - b.count)
unfolding count_allowed alone charge decide
count_allowed-alone q window b [] h small = omega arith
count_allowed-alone q window b (now ∷ times) h small =
    ground (
      arith,
      count_allowed-alone q window (record b { count = b.count + 1 }) times h.1 (omega arith),
    )

-- At most one window begins in an interval that is no longer than a window.
count_allowed-alone_interval :
    (max_requests window start : ℕ) (b : Bucket) (times : List ℕ)
    → All (λ now. (start ≤ now) × (now < start + seconds window)) times
    → b.count + length times < 2 ^ 64
    → count_allowed (alone max_requests window b times) ≤ max_requests - b.count + max_requests
unfolding count_allowed alone charge decide
count_allowed-alone_interval q window start b [] h small = omega arith
count_allowed-alone_interval q window start b (now ∷ times) h small = ground (
  arith,
  count_allowed-alone_interval q window start (record b { count = b.count + 1 }) times h.1
      (omega arith),
  count_allowed-alone q window (record { window_start = now; count = 1 }) times
      (All-weaken times (λ (t : ℕ) (r : (start ≤ t) × (t < start + seconds window)). within t r)
        h.1)
      (omega arith),
)
  where
    within : (t : ℕ) → (start ≤ t) × (t < start + seconds window) → t < now + seconds window
    within t r = omega arith

-- After the call that opens a window of a new limiter, and with calls for other keys and sweeps in
-- between, the calls for a key within that window are let through up to the quota and no further.
-- The clock is at least one window past its epoch, its readings do not go back, and the number of
-- calls stays below 2 ^ 64.
pub allowed_in_window :
    (k : Str) (max_requests window created opened : ℕ) (times : List ℕ) (calls : List (Str × ℕ))
    → IsMonotone created calls
    → times_of k calls ≡ opened ∷ times
    → seconds window ≤ opened
    → All (λ now. now < opened + seconds window) times
    → length times + 1 < 2 ^ 64
    → count_allowed (decisions_for k (new_limiter max_requests window created) calls)
      ≡ min (length times + 1) max_requests
unfolding count_allowed alone charge decide
allowed_in_window k q window created opened times calls m e late h small = ground (
  arith,
  decisions_for-new_limiter k q window created calls m,
  count_allowed-alone q window (record { window_start = opened; count = 1 }) times h (omega arith),
)

-- Whatever state a limiter is in, the calls for a key within an interval no longer than a window
-- are let through at most twice as often as the quota says. The readings of the clock do not go
-- back, and the counter stays below 2 ^ 64.
pub allowed_in_interval :
    (k : Str) (l : Limiter) (t start : ℕ) (calls : List (Str × ℕ))
    → IsMonotone t calls
    → All (λ now. (start ≤ now) × (now < start + seconds l.window)) (times_of k calls)
    → (get_or (l.buckets k) new_bucket).count + length (times_of k calls) < 2 ^ 64
    → count_allowed (decisions_for k l calls) ≤ 2 * l.max_requests
allowed_in_interval k l t start calls m h small = omega (
  arith,
  ap count_allowed (decisions_for-alone k l (bucket_of l k) t calls m (inl refl)),
  count_allowed-alone_interval l.max_requests l.window start (bucket_of l k) (times_of k calls) h
      small,
)
