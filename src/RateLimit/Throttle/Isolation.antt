-- ===== src/RateLimit/Throttle/Isolation.antt =====
-- Each key of a `LoginThrottler` (source/middleware/RateLimiter.h) is throttled alone.
use idtx_core.Base.{
  ℕ, ◌+◌, ◌≤◌, ◌≡◌, refl, ◌⊎◌, inl, List, [], ◌∷◌, Str, Str-discrete, ite, get_or, arith, Bool,
}
use native.Mathlib.Nat.{le_refl}
use idtx_core.RateLimit.Clock.{seconds}
use idtx_core.RateLimit.Throttle.{
  Entry, Policy, Throttler, new_entry, new_throttler, locked_seconds, locked_for, maybe_sweep, fail,
  record_failure, record_success,
}

-- The calls on one key, each with its reading of the clock.
pub data Call : Type 0 where
  query failure success : (now : ℕ) → Call

pub data Answer : Type 0 where
  locked : (for : ℕ) → Answer
  tripped : Bool → Answer
  cleared : Answer

abbrev pub time : Call → ℕ
time (query now) = now
time (failure now) = now
time (success now) = now

unfoldable pub call : Throttler → Str → Call → Throttler × Answer
call l key (query now) = (l, locked (locked_for l key now))
call l key (failure now) = let (l', b) = record_failure l key now in (l', tripped b)
call l key (success now) = (record_success l key, cleared)

-- The answers that a sequence of calls gives to one of its keys.
unfoldable pub answers_for : Str → Throttler → List (Str × Call) → List Answer
answers_for k l [] = []
answers_for k l ((key, c) ∷ calls) =
    let (l', a) = call l key c in
    let rest = answers_for k l' calls in ite (Str-discrete key k) (a ∷ rest) rest

unfoldable pub calls_of : Str → List (Str × Call) → List Call
calls_of k [] = []
calls_of k ((key, c) ∷ calls) = ite (Str-discrete key k) (c ∷ calls_of k calls) (calls_of k calls)

-- A single entry that has no other keys beside it and is never swept.
unfoldable pub step_alone : Policy → Entry → Call → Entry × Answer
step_alone p e (query now) = (e, locked (locked_seconds e now))
step_alone p e (failure now) = let (e', b) = fail p e now in (e', tripped b)
step_alone p e (success now) = (new_entry, cleared)

unfoldable pub alone : Policy → Entry → List Call → List Answer
alone p e [] = []
alone p e (c ∷ calls) = let (e', a) = step_alone p e c in a ∷ alone p e' calls

-- The readings of the clock do not go back.
abbrev pub IsMonotone : ℕ → List (Str × Call) → Type 0
IsMonotone t [] = Unit {0}
IsMonotone t ((key, c) ∷ calls) = (t ≤ time c) × IsMonotone (time c) calls

-- The streak of failures is over at time `t`.
abbrev pub IsOver : Policy → ℕ → Entry → Type 0
IsOver p t e = (e.failures ≡ 0) ⊎ (e.first_failure + seconds p.failure_window ≤ t)

-- Two entries that no call from time `t` on tells apart.
pub record Alike (p : Policy) (t : ℕ) (e f : Entry) : Type 0 where
  pub lock : (e.locked_until ≡ f.locked_until) ⊎ ((e.locked_until ≤ t) × (f.locked_until ≤ t))
  pub streak :
      ((e.failures ≡ f.failures) × (e.first_failure ≡ f.first_failure))
      ⊎ (IsOver p t e × IsOver p t f)

abbrev pub entry_of : Throttler → Str → Entry
entry_of l k = get_or (l.entries k) new_entry

module _ (p : Policy) {t now : ℕ} {e f : Entry} (a : Alike p t e f) (h : t ≤ now) where
  pub Alike-later : Alike p now e f
  Alike-later = ground arith

  locked_seconds-Alike : locked_seconds e now ≡ locked_seconds f now
  unfolding locked_seconds
  locked_seconds-Alike = ground arith

  fail-Alike : Alike p now (fail p e now).0 (fail p f now).0 × ((fail p e now).1 ≡ (fail p f now).1)
  unfolding fail
  fail-Alike = ground arith

maybe_sweep-Alike :
    (l : Throttler) (k : Str) (t now : ℕ) (f : Entry)
    → Alike l.policy t (entry_of l k) f
    → t ≤ now
    → Alike l.policy now (entry_of (maybe_sweep l now) k) f
unfolding maybe_sweep
maybe_sweep-Alike l k t now f a h = ground arith

call_policy : (l : Throttler) (key : Str) (c : Call) → (call l key c).0.policy ≡ l.policy
unfolding call record_failure record_success maybe_sweep
call_policy l key (query now) = refl
call_policy l key (failure now) = ground arith
call_policy l key (success now) = refl

query_lem :
    (l : Throttler) (key k : Str) (now : ℕ)
    → key ≡ k
    → locked_for l key now ≡ locked_seconds (entry_of l k) now
unfolding locked_for locked_seconds
query_lem l key k now e = ground arith

failure-same :
    (l : Throttler) (k key : Str) (t now : ℕ) (f : Entry)
    → key ≡ k
    → Alike l.policy t (entry_of l k) f
    → t ≤ now
    → Alike l.policy now (entry_of (record_failure l key now).0 k) (fail l.policy f now).0
      × (tripped (record_failure l key now).1 ≡ tripped (fail l.policy f now).1)
unfolding record_failure
failure-same l k key t now f e a h =
    ground (arith, fail-Alike l.policy (maybe_sweep-Alike l k t now f a h) (le_refl now))

success-same :
    (l : Throttler) (k key : Str) (now : ℕ)
    → key ≡ k
    → Alike l.policy now (entry_of (record_success l key) k) new_entry
unfolding record_success
success-same l k key now e = ground arith

-- A call for the key answers as the single entry does, and leaves entries that are alike.
call-same :
    (l : Throttler) (k key : Str) (t : ℕ) (c : Call) (f : Entry)
    → key ≡ k
    → Alike l.policy t (entry_of l k) f
    → t ≤ time c
    → Alike l.policy (time c) (entry_of (call l key c).0 k) (step_alone l.policy f c).0
      × ((call l key c).1 ≡ (step_alone l.policy f c).1)
unfolding call step_alone
call-same l k key t (query now) f e a h = (
  Alike-later l.policy a h,
  ground (arith, query_lem l key k now e, locked_seconds-Alike l.policy a h),
)
call-same l k key t (failure now) f e a h = failure-same l k key t now f e a h
call-same l k key t (success now) f e a h = (success-same l k key now e, refl)

-- A call for another key leaves the entry, as far as later calls can tell.
call-other :
    (l : Throttler) (k key : Str) (t : ℕ) (c : Call) (f : Entry)
    → ¬ (key ≡ k)
    → Alike l.policy t (entry_of l k) f
    → t ≤ time c
    → Alike l.policy (time c) (entry_of (call l key c).0 k) f
unfolding call record_failure record_success
call-other l k key t (query now) f ne a h = Alike-later l.policy a h
call-other l k key t (failure now) f ne a h = ground (arith, maybe_sweep-Alike l k t now f a h)
call-other l k key t (success now) f ne a h = ground (arith, Alike-later l.policy a h)

module _ (k : Str) where
  answers_for-alone :
      (l : Throttler) (f : Entry) (t : ℕ) (calls : List (Str × Call))
      → IsMonotone t calls
      → Alike l.policy t (entry_of l k) f
      → answers_for k l calls ≡ alone l.policy f (calls_of k calls)
  unfolding answers_for alone calls_of
  answers_for-alone l f t [] m a = refl
  answers_for-alone l f t ((key, c) ∷ calls) m a =
      let l' = (call l key c).0 in
      let f' = (step_alone l.policy f c).0 in
      let same = call_policy l key c in
      elim (Str-discrete key k) [
        | yes e ↦
            let r = call-same l k key t c f e a m.0 in
            ground (arith, same, r.1, answers_for-alone l' f' (time c) calls m.1 (rw same r.0))
        | no ne ↦
            let r = call-other l k key t c f ne a m.0 in
            ground (arith, same, answers_for-alone l' f (time c) calls m.1 (rw same r))
      ]

-- Whatever happens on other keys and whatever is swept in between, a throttler answers the calls
-- on one key as a single entry that sees these calls alone and that no sweep ever touches, as long
-- as the readings of the clock do not go back.
pub answers_for-new_throttler :
    (k : Str) (p : Policy) (created : ℕ) (calls : List (Str × Call))
    → IsMonotone created calls
    → answers_for k (new_throttler p created) calls ≡ alone p new_entry (calls_of k calls)
answers_for-new_throttler k p created calls m =
    answers_for-alone k (new_throttler p created) new_entry created calls m
      (record { lock = inl refl; streak = inl (refl, refl) })
