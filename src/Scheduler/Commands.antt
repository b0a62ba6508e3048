-- ===== src/Scheduler/Commands.antt =====
-- What becomes of the commands of source/session/SessionCommandScheduler.cpp.
use idtx_core.Base.{ℕ, ◌+◌, ◌≡◌, ap, List, count, count-snoc, occurs, arith}
use idtx_core.Scheduler.{
  Scheduler, Activity, handling, Move, announce, admit, refuse, queue_full, push_normal,
  push_priority, release, claim, already_scheduled, post, drain_here, start_task, batch_full,
  pop_priority, no_priority, pop_normal, no_normal, nothing_pending, give_up, retry, handle, finish,
  leave, again, enough, close, see_none_pending, see_no_drain,
}
use idtx_core.Scheduler.Invariant.{total}

-- Whether the command is about to be handled.
abbrev pub holds : ℕ → Activity → ℕ
holds c (handling d p) = occurs c d
holds c _ = 0

-- Where the accepted commands are.
abbrev pub places : ℕ → Scheduler → ℕ
places c s = count c s.handled + (count c s.normal + count c s.priority)

pub kept-Move :
    {s t : Scheduler} {a : Activity} {new : List Activity}
    → Move s a t new
    → (x w v : ℕ) → v + holds x a ≡ w + total (holds x) new
    → count x s.accepted ≡ places x s + w
    → count x t.accepted ≡ places x t + v
kept-Move (announce urgent c) x w v h k = omega arith
kept-Move (admit urgent c e) x w v h k = omega arith
kept-Move (refuse urgent c e) x w v h k = omega arith
kept-Move (queue_full urgent c) x w v h k = omega arith
kept-Move {s = s} (push_normal c) x w v h k = omega (arith, count-snoc x s.normal c)
kept-Move {s = s} (push_priority c) x w v h k = omega (arith, count-snoc x s.priority c)
kept-Move release x w v h k = omega arith
kept-Move (claim e) x w v h k = omega arith
kept-Move (already_scheduled e) x w v h k = omega arith
kept-Move post x w v h k = omega arith
kept-Move drain_here x w v h k = omega arith
kept-Move start_task x w v h k = omega arith
kept-Move (batch_full p r le) x w v h k = omega arith
kept-Move (pop_priority p r c rest lt e) x w v h k = omega (arith, ap (count x) e)
kept-Move (no_priority p r lt) x w v h k = omega arith
kept-Move (pop_normal p r c rest e) x w v h k = omega (arith, ap (count x) e)
kept-Move (no_normal p r) x w v h k = omega arith
kept-Move (nothing_pending p r e) x w v h k = omega arith
kept-Move (give_up p r ne lt) x w v h k = omega arith
kept-Move (retry p r ne le) x w v h k = omega arith
kept-Move (handle c p) x w v h k = omega arith
kept-Move (finish p) x w v h k = omega arith
kept-Move leave x w v h k = omega arith
kept-Move (again ne) x w v h k = omega arith
kept-Move (enough e) x w v h k = omega arith
kept-Move close x w v h k = omega arith
kept-Move (see_none_pending e) x w v h k = omega arith
kept-Move (see_no_drain e) x w v h k = omega arith
