-- ===== src/RateLimit/Window/Isolation.antt =====
-- Each key of a `SlidingWindowLimiter` (source/middleware/RateLimiter.h) is counted alone.
use idtx_core.Base.{
  ℕ, ◌+◌, ◌≤◌, ◌≡◌, refl, ◌⊎◌, inl, List, [], ◌∷◌, Str, Str-discrete, ite, get_or, arith,
}
use idtx_core.RateLimit.Clock.{seconds}
use idtx_core.RateLimit.Window.{
  Bucket, Limiter, Decision, new_bucket, new_limiter, maybe_sweep, charge, decide, allow,
}

-- The answers that a sequence of calls gives to one of its keys.
unfoldable pub decisions_for : Str → Limiter → List (Str × ℕ) → List Decision
decisions_for k l [] = []
decisions_for k l ((key, now) ∷ calls) =
    let (l', d) = allow l key now in
    let rest = decisions_for k l' calls in ite (Str-discrete key k) (d ∷ rest) rest

-- The times of the calls for one key.
unfoldable pub times_of : Str → List (Str × ℕ) → List ℕ
times_of k [] = []
times_of k ((key, now) ∷ calls) =
    ite (Str-discrete key k) (now ∷ times_of k calls) (times_of k calls)

-- A single counter that has no other keys beside it and is never swept.
unfoldable pub alone : ℕ → ℕ → Bucket → List ℕ → List Decision
alone max_requests window b [] = []
alone max_requests window b (now ∷ times) =
    let b' = charge window b now in
    decide max_requests window b' now ∷ alone max_requests window b' times

-- The readings of the clock do not go back.
abbrev pub IsMonotone : ℕ → List (Str × ℕ) → Type 0
IsMonotone t [] = Unit {0}
IsMonotone t ((key, now) ∷ calls) = (t ≤ now) × IsMonotone now calls

-- Two buckets that no call from time `t` on tells apart.
abbrev pub Alike : ℕ → ℕ → Bucket → Bucket → Type 0
Alike window t b c =
    (b ≡ c) ⊎ ((b.window_start + seconds window ≤ t) × (c.window_start + seconds window ≤ t))

abbrev pub bucket_of : Limiter → Str → Bucket
bucket_of l k = get_or (l.buckets k) new_bucket

charge-Alike :
    (window t now : ℕ) (b c : Bucket)
    → Alike window t b c
    → t ≤ now
    → charge window b now ≡ charge window c now
unfolding charge
charge-Alike window t now b c a h = ground arith

maybe_sweep-Alike :
    (l : Limiter) (k : Str) (t now : ℕ) (c : Bucket)
    → Alike l.window t (bucket_of l k) c
    → t ≤ now
    → Alike l.window now (bucket_of (maybe_sweep l now) k) c
unfolding maybe_sweep
maybe_sweep-Alike l k t now c a h = ground arith

maybe_sweep_config :
    (l : Limiter) (now : ℕ)
    → ((maybe_sweep l now).window ≡ l.window) × ((maybe_sweep l now).max_requests ≡ l.max_requests)
unfolding maybe_sweep
maybe_sweep_config l now = ground arith

allow_config :
    (l : Limiter) (key : Str) (now : ℕ)
    → ((allow l key now).0.window ≡ l.window) × ((allow l key now).0.max_requests ≡ l.max_requests)
unfolding allow
allow_config l key now = ground arith

-- A call for the key answers as the single counter does, and leaves the counter's bucket.
allow-same :
    (l : Limiter) (k key : Str) (t now : ℕ) (c : Bucket)
    → key ≡ k
    → Alike l.window t (bucket_of l k) c
    → t ≤ now
    → ((allow l key now).1 ≡ decide l.max_requests l.window (charge l.window c now) now)
      × (bucket_of (allow l key now).0 k ≡ charge l.window c now)
unfolding allow
allow-same l k key t now c e a h = ground (
  arith,
  maybe_sweep-Alike l k t now c a h,
  charge-Alike l.window now now (bucket_of (maybe_sweep l now) k) c,
)

-- A call for another key leaves the bucket, as far as later calls can tell.
allow-other :
    (l : Limiter) (k key : Str) (t now : ℕ) (c : Bucket)
    → ¬ (key ≡ k)
    → Alike l.window t (bucket_of l k) c
    → t ≤ now
    → Alike l.window now (bucket_of (allow l key now).0 k) c
unfolding allow
allow-other l k key t now c ne a h = ground (arith, maybe_sweep-Alike l k t now c a h)

module _ (k : Str) where
  pub decisions_for-alone :
      (l : Limiter) (c : Bucket) (t : ℕ) (calls : List (Str × ℕ))
      → IsMonotone t calls
      → Alike l.window t (bucket_of l k) c
      → decisions_for k l calls ≡ alone l.max_requests l.window c (times_of k calls)
  unfolding decisions_for alone times_of
  decisions_for-alone l c t [] m a = refl
  decisions_for-alone l c t ((key, now) ∷ calls) m a =
      let l' = (allow l key now).0 in
      let c' = charge l.window c now in
      elim (Str-discrete key k) [
        | yes e ↦ ground (
          arith,
          allow_config l key now,
          allow-same l k key t now c e a m.0,
          decisions_for-alone l' c' now calls m.1,
        )
        | no ne ↦ ground (
          arith,
          allow_config l key now,
          allow-other l k key t now c ne a m.0,
          decisions_for-alone l' c now calls m.1,
        )
      ]

-- Whatever other keys are counted and swept in between, a limiter answers the calls for one key
-- as a single counter that sees these calls alone and that no sweep ever touches, as long as the
-- readings of the clock do not go back.
pub decisions_for-new_limiter :
    (k : Str) (max_requests window created : ℕ) (calls : List (Str × ℕ))
    → IsMonotone created calls
    → decisions_for k (new_limiter max_requests window created) calls
      ≡ alone max_requests window new_bucket (times_of k calls)
decisions_for-new_limiter k max_requests window created calls m =
    decisions_for-alone k (new_limiter max_requests window created) new_bucket created calls m
      (inl refl)
