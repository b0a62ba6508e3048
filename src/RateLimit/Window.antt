-- ===== src/RateLimit/Window.antt =====
-- `SlidingWindowLimiter` of source/middleware/RateLimiter.h. The lock makes every call one step;
-- the clock's reading is an argument. A difference of time points is signed in the source, so
-- `now - start >= window` is `start + window ≤ now`.
pub mod Isolation
pub mod Quota
use idtx_core.Base.{
  ℕ, ◌+◌, ◌-◌, ◌*◌, ◌/◌, Bool, Option, none, some, Str, Str-discrete, get_or, update, leb, ltb,
  if◌then◌else◌, u64,
}
use idtx_core.RateLimit.Clock.{seconds}

pub record Bucket : Type 0 where
  pub window_start : ℕ
  pub count : ℕ

pub record Limiter : Type 0 where
  pub max_requests : ℕ
  pub window : ℕ  -- seconds
  pub last_sweep : ℕ
  pub buckets : Str → Option Bucket

pub record Decision : Type 0 where
  pub allowed : Bool
  pub observed : ℕ
  pub limit : ℕ
  pub retry_after : ℕ  -- seconds

abbrev pub new_bucket : Bucket
new_bucket = record { window_start = 0; count = 0 }

-- The constructor: `now` is its reading of the clock.
abbrev pub new_limiter : ℕ → ℕ → ℕ → Limiter
new_limiter max_requests window now = record {
  max_requests = max_requests;
  window = window;
  last_sweep = now;
  buckets = λ _. none;
}

unfoldable pub maybe_sweep : Limiter → ℕ → Limiter
maybe_sweep l now = if ltb now (l.last_sweep + seconds l.window) then l else record l {
  last_sweep = now;
  buckets = λ key. elim (l.buckets key) [
    | none ↦ none
    | some b ↦ if leb (b.window_start + 2 * seconds l.window) now then none else some b
  ];
}

-- The bucket's part of `Allow`: roll the window over, and count the request.
unfoldable pub charge : ℕ → Bucket → ℕ → Bucket
unfolding u64
charge window b now =
    let open_window : Bucket =
      if leb (b.window_start + seconds window) now
      then record { window_start = now; count = 0 }
      else b in
    record open_window { count = u64 (open_window.count + 1) }

-- `m_window_ - elapsed`, where `elapsed` is cut to whole seconds towards zero. A result below zero
-- shows as 0, and the caller treats the two alike.
unfoldable pub retry_seconds : ℕ → ℕ → ℕ → ℕ
retry_seconds window start now =
    if leb start now then window - (now - start) / seconds 1 else window + (start - now) / seconds 1

unfoldable pub decide : ℕ → ℕ → Bucket → ℕ → Decision
unfolding retry_seconds
decide max_requests window b now =
    let allowed : Bool = leb b.count max_requests in
    let retry : ℕ = if allowed then 0 else retry_seconds window b.window_start now in
    record {
      allowed = allowed;
      observed = b.count;
      limit = max_requests;
      retry_after = if ltb 0 retry then retry else 1;
    }

unfoldable pub allow : Limiter → Str → ℕ → Limiter × Decision
unfolding maybe_sweep
allow l key now =
    let swept = maybe_sweep l now in
    let b = charge l.window (get_or (swept.buckets key) new_bucket) now in
    (
      record swept { buckets = update Str-discrete swept.buckets key (some b) },
      decide l.max_requests l.window b now,
    )
