-- ===== src/Scheduler/Batch.antt =====
-- How long `DrainBatch` of source/session/SessionCommandScheduler.cpp takes.
use idtx_core.Base.{ℕ, ◌+◌, ◌*◌, ◌-◌, ◌≤◌, ◌<◌, ◌≡◌, Bool, true, false, List, [], ◌∷◌, arith}
use idtx_core.Scheduler.{
  Scheduler, Activity, polling, polling_normal, found_nothing, handling, finishing, leaving, Move,
  announce, admit, refuse, queue_full, push_normal, push_priority, release, claim,
  already_scheduled, post, drain_here, start_task, batch_full, pop_priority, no_priority,
  pop_normal, no_normal, nothing_pending, give_up, retry, handle, finish, leave, again, enough,
  close, see_none_pending, see_no_drain,
}

-- Whether an activity is in `DrainBatch`, before it gives the drain back.
abbrev pub in_batch : Activity → Bool
in_batch (polling p r) = true
in_batch (polling_normal p r) = true
in_batch (found_nothing p r) = true
in_batch (handling c p) = true
in_batch (finishing p) = true
in_batch leaving = true
in_batch _ = false

-- The steps of one activity in a batch, with their number. Other activities may change the state
-- between them.
pub data Batch (first : Activity) : ℕ → Activity → Type 0 where
  begin : Batch first 0 first
  go_on :
      {n : ℕ} {a b : Activity} {s t : Scheduler}
      → Batch first n a
      → in_batch a ≡ true
      → Move s a t (b ∷ [])
      → Batch first (n + 1) b

-- The bounds of the counters.
abbrev pub Fits : Activity → Type 0
Fits (polling p r) = (p ≤ 64) × (r ≤ 16)
Fits (polling_normal p r) = (p < 64) × (r ≤ 16)
Fits (found_nothing p r) = (p < 64) × (r ≤ 16)
Fits (handling c p) = p < 64
Fits (finishing p) = p < 64
Fits _ = Unit {0}

-- How many steps are left at most.
abbrev pub rank : Activity → ℕ
rank (polling p r) = (64 - p) * 54 + (16 - r) * 3 + 4
rank (polling_normal p r) = (64 - p) * 54 + (16 - r) * 3 + 3
rank (found_nothing p r) = (64 - p) * 54 + (16 - r) * 3 + 2
rank (handling c p) = (64 - p) * 54 + 2
rank (finishing p) = (64 - p) * 54 + 1
rank leaving = 1
rank _ = 0

-- Each of the activities fits, and has fewer steps left.
abbrev Lower : ℕ → List Activity → Type 0
Lower n [] = Unit {0}
Lower n (b ∷ bs) = (Fits b × (rank b < n)) × Lower n bs

rank-Move :
    {s t : Scheduler} {a : Activity} {new : List Activity}
    → Move s a t new
    → in_batch a ≡ true
    → Fits a
    → Lower (rank a) new
rank-Move (announce urgent c) i f = cc
rank-Move (admit urgent c e) i f = cc
rank-Move (refuse urgent c e) i f = cc
rank-Move (queue_full urgent c) i f = cc
rank-Move (push_normal c) i f = cc
rank-Move (push_priority c) i f = cc
rank-Move (release) i f = cc
rank-Move (claim e) i f = cc
rank-Move (already_scheduled e) i f = cc
rank-Move (post) i f = cc
rank-Move (drain_here) i f = cc
rank-Move (start_task) i f = cc
rank-Move (batch_full p r le) i f = ((tt, omega arith), tt)
rank-Move (pop_priority p r c rest lt e) i f = ((lt, omega arith), tt)
rank-Move (no_priority p r lt) i f = (((lt, f.1), omega arith), tt)
rank-Move (pop_normal p r c rest e) i f = ((f.0, omega arith), tt)
rank-Move (no_normal p r) i f = ((f, omega arith), tt)
rank-Move (nothing_pending p r e) i f = ((tt, omega arith), tt)
rank-Move (give_up p r ne lt) i f = ((tt, omega arith), tt)
rank-Move (retry p r ne le) i f = (((omega arith, le), omega arith), tt)
rank-Move (handle c p) i f = ((f, omega arith), tt)
rank-Move (finish p) i f = (((omega arith, omega arith), omega arith), tt)
rank-Move (leave) i f = ((tt, omega arith), tt)
rank-Move (again ne) i f = cc
rank-Move (enough e) i f = cc
rank-Move (close) i f = cc
rank-Move (see_none_pending e) i f = cc
rank-Move (see_no_drain e) i f = cc

-- Whatever other activities do in between, a batch makes at most 3508 steps of its own until it has
-- given the drain back; until then `processed` is at most 64 and `retries` at most 16.
pub steps_bounded : {n : ℕ} {a : Activity} → Batch (polling 0 0) n a → (n + rank a ≤ 3508) × Fits a
steps_bounded begin = (omega arith, (omega arith, omega arith))
steps_bounded (go_on {a = a} b i m) =
    let (le, f) = steps_bounded b in let low = rank-Move m i f in (omega (arith, low.0), low.0.0)
