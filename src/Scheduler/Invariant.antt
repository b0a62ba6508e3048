-- ===== src/Scheduler/Invariant.antt =====
-- What holds in every reachable state of source/session/SessionCommandScheduler.cpp.
use Prim.Native.Nat.{zero, suc}
use idtx_core.Base.{
  ℕ, ◌+◌, ◌≤◌, ◌≡◌, ap, Bool, true, false, List, [], ◌∷◌, ◌++◌, arith, length, length-append, ◌⊎◌,
  inl, inr,
}
use idtx_core.Scheduler.{
  Scheduler, Activity, announced, admitted, releasing, scheduling, claimed, posted, polling,
  polling_normal, found_nothing, handling, finishing, leaving, rechecking, one_less, Move, announce,
  admit, refuse, queue_full, push_normal, push_priority, release, claim, already_scheduled, post,
  drain_here, start_task, batch_full, pop_priority, no_priority, pop_normal, no_normal,
  nothing_pending, give_up, retry, handle, finish, leave, again, enough, close, see_none_pending,
  see_no_drain,
}

abbrev pub total : (Activity → ℕ) → List Activity → ℕ
total f [] = 0
total f (a ∷ as') = f a + total f as'

-- How much of `pending` an activity stands for.
abbrev pub weight : Activity → ℕ
weight (announced urgent c) = 1
weight (admitted urgent c) = 1
weight releasing = 1
weight (handling c p) = 1
weight (finishing p) = 1
weight _ = 0

-- Whether an activity is the drain that `drain_scheduled` speaks of.
abbrev pub drains : Activity → ℕ
drains claimed = 1
drains posted = 1
drains (polling p r) = 1
drains (polling_normal p r) = 1
drains (found_nothing p r) = 1
drains (handling c p) = 1
drains (finishing p) = 1
drains leaving = 1
drains _ = 0

-- Whether an activity goes on to look after the queues.
abbrev pub attends : Activity → ℕ
attends scheduling = 1
attends rechecking = 1
attends a = drains a

abbrev pub flag : Bool → ℕ
flag true = 1
flag false = 0

abbrev pub queued : Scheduler → ℕ
queued s = length s.normal + length s.priority

total-append :
    (f : Activity → ℕ) (xs ys : List Activity) → total f (xs ++ ys) ≡ total f xs + total f ys
total-append f [] ys = omega arith
total-append f (x ∷ xs) ys = omega (arith, total-append f xs ys)

-- Replacing an activity by others changes the total by the difference.
pub total-move :
    (f : Activity → ℕ) (before new after : List Activity) (a : Activity)
    → total f (before ++ (new ++ after)) + f a ≡ total f (before ++ a ∷ after) + total f new
total-move f before new after a = omega (
  arith,
  total-append f before (new ++ after),
  total-append f new after,
  total-append f before (a ∷ after),
)

one_less_lem : (n : ℕ) → 1 ≤ n → one_less n + 1 ≡ n
one_less_lem zero h = elim h [ ]
one_less_lem (suc n) h = omega arith

pub flag-le : (b : Bool) → flag b ≤ 1
flag-le true = omega arith
flag-le false = omega arith

pub counted-Move :
    {s t : Scheduler} {a : Activity} {new : List Activity}
    → Move s a t new
    → (w v : ℕ) → v + weight a ≡ w + total weight new
    → s.pending ≡ queued s + w
    → t.pending ≡ queued t + v
counted-Move (announce urgent c) w v h k = omega arith
counted-Move (admit urgent c e) w v h k = omega arith
counted-Move (refuse urgent c e) w v h k = omega arith
counted-Move (queue_full urgent c) w v h k = omega arith
counted-Move {s = s} (push_normal c) w v h k = omega (arith, length-append s.normal (c ∷ []))
counted-Move {s = s} (push_priority c) w v h k = omega (arith, length-append s.priority (c ∷ []))
counted-Move {s = s} release w v h k = omega (arith, one_less_lem s.pending (omega arith))
counted-Move (claim e) w v h k = omega arith
counted-Move (already_scheduled e) w v h k = omega arith
counted-Move post w v h k = omega arith
counted-Move drain_here w v h k = omega arith
counted-Move start_task w v h k = omega arith
counted-Move (batch_full p r le) w v h k = omega arith
counted-Move (pop_priority p r c rest lt e) w v h k = omega (arith, ap length e)
counted-Move (no_priority p r lt) w v h k = omega arith
counted-Move (pop_normal p r c rest e) w v h k = omega (arith, ap length e)
counted-Move (no_normal p r) w v h k = omega arith
counted-Move (nothing_pending p r e) w v h k = omega arith
counted-Move (give_up p r ne lt) w v h k = omega arith
counted-Move (retry p r ne le) w v h k = omega arith
counted-Move (handle c p) w v h k = omega arith
counted-Move {s = s} (finish p) w v h k = omega (arith, one_less_lem s.pending (omega arith))
counted-Move leave w v h k = omega arith
counted-Move (again ne) w v h k = omega arith
counted-Move (enough e) w v h k = omega arith
counted-Move close w v h k = omega arith
counted-Move (see_none_pending e) w v h k = omega arith
counted-Move (see_no_drain e) w v h k = omega arith

pub owned-Move :
    {s t : Scheduler} {a : Activity} {new : List Activity}
    → Move s a t new
    → (w v : ℕ) → v + drains a ≡ w + total drains new
    → w ≡ flag s.drain_scheduled
    → v ≡ flag t.drain_scheduled
owned-Move (announce urgent c) w v h k = omega arith
owned-Move (admit urgent c e) w v h k = omega arith
owned-Move (refuse urgent c e) w v h k = omega arith
owned-Move (queue_full urgent c) w v h k = omega arith
owned-Move (push_normal c) w v h k = omega arith
owned-Move (push_priority c) w v h k = omega arith
owned-Move release w v h k = omega arith
owned-Move (claim e) w v h k = omega (arith, ap flag e)
owned-Move (already_scheduled e) w v h k = omega arith
owned-Move post w v h k = omega arith
owned-Move drain_here w v h k = omega arith
owned-Move start_task w v h k = omega arith
owned-Move (batch_full p r le) w v h k = omega arith
owned-Move (pop_priority p r c rest lt e) w v h k = omega arith
owned-Move (no_priority p r lt) w v h k = omega arith
owned-Move (pop_normal p r c rest e) w v h k = omega arith
owned-Move (no_normal p r) w v h k = omega arith
owned-Move (nothing_pending p r e) w v h k = omega arith
owned-Move (give_up p r ne lt) w v h k = omega arith
owned-Move (retry p r ne le) w v h k = omega arith
owned-Move (handle c p) w v h k = omega arith
owned-Move (finish p) w v h k = omega arith
owned-Move {s = s} leave w v h k = omega (arith, flag-le s.drain_scheduled)
owned-Move (again ne) w v h k = omega arith
owned-Move (enough e) w v h k = omega arith
owned-Move close w v h k = omega arith
owned-Move (see_none_pending e) w v h k = omega arith
owned-Move (see_no_drain e) w v h k = omega arith

-- Commands in the queues are attended to.
pub attended-Move :
    {s t : Scheduler} {a : Activity} {new : List Activity}
    → Move s a t new
    → (w v : ℕ) → v + attends a ≡ w + total attends new
    → queued s ≤ s.pending
    → flag t.drain_scheduled ≤ v
    → (queued s ≡ 0) ⊎ (1 ≤ w)
    → (queued t ≡ 0) ⊎ (1 ≤ v)
attended-Move (announce urgent c) w v h qle fle k = elim k [
  | inl q ↦ inl (omega arith)
  | inr le1 ↦ inr (omega arith)
]
attended-Move (admit urgent c e) w v h qle fle k = elim k [
  | inl q ↦ inl (omega arith)
  | inr le1 ↦ inr (omega arith)
]
attended-Move (refuse urgent c e) w v h qle fle k = elim k [
  | inl q ↦ inl (omega arith)
  | inr le1 ↦ inr (omega arith)
]
attended-Move (queue_full urgent c) w v h qle fle k = elim k [
  | inl q ↦ inl (omega arith)
  | inr le1 ↦ inr (omega arith)
]
attended-Move (push_normal c) w v h qle fle k = inr (omega arith)
attended-Move (push_priority c) w v h qle fle k = inr (omega arith)
attended-Move release w v h qle fle k = elim k [
  | inl q ↦ inl (omega arith)
  | inr le1 ↦ inr (omega arith)
]
attended-Move (claim e) w v h qle fle k = elim k [
  | inl q ↦ inl (omega arith)
  | inr le1 ↦ inr (omega arith)
]
attended-Move (already_scheduled e) w v h qle fle k = inr (omega (arith, ap flag e))
attended-Move post w v h qle fle k = elim k [
  | inl q ↦ inl (omega arith)
  | inr le1 ↦ inr (omega arith)
]
attended-Move drain_here w v h qle fle k = elim k [
  | inl q ↦ inl (omega arith)
  | inr le1 ↦ inr (omega arith)
]
attended-Move start_task w v h qle fle k = elim k [
  | inl q ↦ inl (omega arith)
  | inr le1 ↦ inr (omega arith)
]
attended-Move (batch_full p r le) w v h qle fle k = elim k [
  | inl q ↦ inl (omega arith)
  | inr le1 ↦ inr (omega arith)
]
attended-Move (pop_priority p r c rest lt e) w v h qle fle k = elim k [
  | inl q ↦ inl (omega (arith, ap length e))
  | inr le ↦ inr (omega arith)
]
attended-Move (no_priority p r lt) w v h qle fle k = elim k [
  | inl q ↦ inl (omega arith)
  | inr le1 ↦ inr (omega arith)
]
attended-Move (pop_normal p r c rest e) w v h qle fle k = elim k [
  | inl q ↦ inl (omega (arith, ap length e))
  | inr le ↦ inr (omega arith)
]
attended-Move (no_normal p r) w v h qle fle k = elim k [
  | inl q ↦ inl (omega arith)
  | inr le1 ↦ inr (omega arith)
]
attended-Move (nothing_pending p r e) w v h qle fle k = elim k [
  | inl q ↦ inl (omega arith)
  | inr le1 ↦ inr (omega arith)
]
attended-Move (give_up p r ne lt) w v h qle fle k = elim k [
  | inl q ↦ inl (omega arith)
  | inr le1 ↦ inr (omega arith)
]
attended-Move (retry p r ne le) w v h qle fle k = elim k [
  | inl q ↦ inl (omega arith)
  | inr le1 ↦ inr (omega arith)
]
attended-Move (handle c p) w v h qle fle k = elim k [
  | inl q ↦ inl (omega arith)
  | inr le1 ↦ inr (omega arith)
]
attended-Move (finish p) w v h qle fle k = elim k [
  | inl q ↦ inl (omega arith)
  | inr le1 ↦ inr (omega arith)
]
attended-Move leave w v h qle fle k = elim k [
  | inl q ↦ inl (omega arith)
  | inr le1 ↦ inr (omega arith)
]
attended-Move (again ne) w v h qle fle k = elim k [
  | inl q ↦ inl (omega arith)
  | inr le1 ↦ inr (omega arith)
]
attended-Move (enough e) w v h qle fle k = inl (omega arith)
attended-Move close w v h qle fle k = elim k [
  | inl q ↦ inl (omega arith)
  | inr le1 ↦ inr (omega arith)
]
attended-Move (see_none_pending e) w v h qle fle k = elim k [
  | inl q ↦ inl (omega arith)
  | inr le1 ↦ inr (omega arith)
]
attended-Move (see_no_drain e) w v h qle fle k = elim k [
  | inl q ↦ inl (omega arith)
  | inr le1 ↦ inr (omega arith)
]
