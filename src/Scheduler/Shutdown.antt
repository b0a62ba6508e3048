-- ===== src/Scheduler/Shutdown.antt =====
-- The tear-down of source/session/SessionCommandScheduler.cpp.
use idtx_core.Base.{
  ℕ, ◌+◌, ◌≤◌, ◌≡◌, refl, ap, Bool, true, false, List, arith, length, ◌⊎◌, inl, inr,
}
use idtx_core.Scheduler.{
  Scheduler, Activity, admitted, handling, waiting, waiting_for_drain, idle, Move, announce, admit,
  refuse, queue_full, push_normal, push_priority, release, claim, already_scheduled, post,
  drain_here, start_task, batch_full, pop_priority, no_priority, pop_normal, no_normal,
  nothing_pending, give_up, retry, handle, finish, leave, again, enough, close, see_none_pending,
  see_no_drain,
}
use idtx_core.Scheduler.Invariant.{total, queued}

-- Activities that come after `CloseAdmission`.
abbrev pub closed : Activity → ℕ
closed waiting = 1
closed waiting_for_drain = 1
closed idle = 1
closed _ = 0

-- Activities for which `WaitIdle` has seen no pending command.
abbrev pub settled : Activity → ℕ
settled waiting_for_drain = 1
settled idle = 1
settled _ = 0

-- Activities that lead to a command's being handled, or are about to handle one.
abbrev pub active : Activity → ℕ
active (admitted urgent c) = 1
active (handling c p) = 1
active _ = 0

true_not_false : {b : Bool} → b ≡ true → b ≡ false → ⊥
true_not_false p q = cc

pub closed-Move :
    {s t : Scheduler} {a : Activity} {new : List Activity}
    → Move s a t new
    → (w v : ℕ) → v + closed a ≡ w + total closed new
    → (w ≡ 0) ⊎ (s.accepting ≡ false)
    → (v ≡ 0) ⊎ (t.accepting ≡ false)
closed-Move (announce urgent c) w v h k = elim k [ inl z ↦ inl (omega arith) | inr f ↦ inr f ]
closed-Move (admit urgent c e) w v h k = elim k [ inl z ↦ inl (omega arith) | inr f ↦ inr f ]
closed-Move (refuse urgent c e) w v h k = elim k [ inl z ↦ inl (omega arith) | inr f ↦ inr f ]
closed-Move (queue_full urgent c) w v h k = elim k [ inl z ↦ inl (omega arith) | inr f ↦ inr f ]
closed-Move (push_normal c) w v h k = elim k [ inl z ↦ inl (omega arith) | inr f ↦ inr f ]
closed-Move (push_priority c) w v h k = elim k [ inl z ↦ inl (omega arith) | inr f ↦ inr f ]
closed-Move release w v h k = elim k [ inl z ↦ inl (omega arith) | inr f ↦ inr f ]
closed-Move (claim e) w v h k = elim k [ inl z ↦ inl (omega arith) | inr f ↦ inr f ]
closed-Move (already_scheduled e) w v h k = elim k [ inl z ↦ inl (omega arith) | inr f ↦ inr f ]
closed-Move post w v h k = elim k [ inl z ↦ inl (omega arith) | inr f ↦ inr f ]
closed-Move drain_here w v h k = elim k [ inl z ↦ inl (omega arith) | inr f ↦ inr f ]
closed-Move start_task w v h k = elim k [ inl z ↦ inl (omega arith) | inr f ↦ inr f ]
closed-Move (batch_full p r le) w v h k = elim k [ inl z ↦ inl (omega arith) | inr f ↦ inr f ]
closed-Move (pop_priority p r c rest lt e) w v h k = elim k [
  | inl z ↦ inl (omega arith)
  | inr f ↦ inr f
]
closed-Move (no_priority p r lt) w v h k = elim k [ inl z ↦ inl (omega arith) | inr f ↦ inr f ]
closed-Move (pop_normal p r c rest e) w v h k = elim k [ inl z ↦ inl (omega arith) | inr f ↦ inr f ]
closed-Move (no_normal p r) w v h k = elim k [ inl z ↦ inl (omega arith) | inr f ↦ inr f ]
closed-Move (nothing_pending p r e) w v h k = elim k [ inl z ↦ inl (omega arith) | inr f ↦ inr f ]
closed-Move (give_up p r ne lt) w v h k = elim k [ inl z ↦ inl (omega arith) | inr f ↦ inr f ]
closed-Move (retry p r ne le) w v h k = elim k [ inl z ↦ inl (omega arith) | inr f ↦ inr f ]
closed-Move (handle c p) w v h k = elim k [ inl z ↦ inl (omega arith) | inr f ↦ inr f ]
closed-Move (finish p) w v h k = elim k [ inl z ↦ inl (omega arith) | inr f ↦ inr f ]
closed-Move leave w v h k = elim k [ inl z ↦ inl (omega arith) | inr f ↦ inr f ]
closed-Move (again ne) w v h k = elim k [ inl z ↦ inl (omega arith) | inr f ↦ inr f ]
closed-Move (enough e) w v h k = elim k [ inl z ↦ inl (omega arith) | inr f ↦ inr f ]
closed-Move close w v h k = inr refl
closed-Move (see_none_pending e) w v h k = elim k [ inl z ↦ inl (omega arith) | inr f ↦ inr f ]
closed-Move (see_no_drain e) w v h k = elim k [ inl z ↦ inl (omega arith) | inr f ↦ inr f ]

-- Nothing is left, and nothing comes, once no pending command was seen.
pub settled-Move :
    {s t : Scheduler} {a : Activity} {new : List Activity}
    → Move s a t new
    → (w v x y : ℕ) → v + settled a ≡ w + total settled new
    → y + active a ≡ x + total active new
    → queued s + x ≤ s.pending
    → (w ≡ 0) ⊎ (s.accepting ≡ false)
    → (w ≡ 0) ⊎ (queued s + x ≡ 0)
    → (v ≡ 0) ⊎ (queued t + y ≡ 0)
settled-Move (announce urgent c) w v x y h i qle g k = elim k [
  | inl z ↦ inl (omega arith)
  | inr q ↦ inr (omega arith)
]
settled-Move (admit urgent c e) w v x y h i qle g k = elim g [
  | inl z ↦ inl (omega arith)
  | inr f ↦ elim (true_not_false e f) [ ]
]
settled-Move (refuse urgent c e) w v x y h i qle g k = elim k [
  | inl z ↦ inl (omega arith)
  | inr q ↦ inr (omega arith)
]
settled-Move (queue_full urgent c) w v x y h i qle g k = elim k [
  | inl z ↦ inl (omega arith)
  | inr q ↦ inr (omega arith)
]
settled-Move (push_normal c) w v x y h i qle g k = elim k [
  | inl z ↦ inl (omega arith)
  | inr q ↦ inr (omega arith)
]
settled-Move (push_priority c) w v x y h i qle g k = elim k [
  | inl z ↦ inl (omega arith)
  | inr q ↦ inr (omega arith)
]
settled-Move release w v x y h i qle g k = elim k [
  | inl z ↦ inl (omega arith)
  | inr q ↦ inr (omega arith)
]
settled-Move (claim e) w v x y h i qle g k = elim k [
  | inl z ↦ inl (omega arith)
  | inr q ↦ inr (omega arith)
]
settled-Move (already_scheduled e) w v x y h i qle g k = elim k [
  | inl z ↦ inl (omega arith)
  | inr q ↦ inr (omega arith)
]
settled-Move post w v x y h i qle g k = elim k [
  | inl z ↦ inl (omega arith)
  | inr q ↦ inr (omega arith)
]
settled-Move drain_here w v x y h i qle g k = elim k [
  | inl z ↦ inl (omega arith)
  | inr q ↦ inr (omega arith)
]
settled-Move start_task w v x y h i qle g k = elim k [
  | inl z ↦ inl (omega arith)
  | inr q ↦ inr (omega arith)
]
settled-Move (batch_full p r le) w v x y h i qle g k = elim k [
  | inl z ↦ inl (omega arith)
  | inr q ↦ inr (omega arith)
]
settled-Move (pop_priority p r c rest lt e) w v x y h i qle g k = elim k [
  | inl z ↦ inl (omega arith)
  | inr q ↦ inr (omega (arith, ap length e))
]
settled-Move (no_priority p r lt) w v x y h i qle g k = elim k [
  | inl z ↦ inl (omega arith)
  | inr q ↦ inr (omega arith)
]
settled-Move (pop_normal p r c rest e) w v x y h i qle g k = elim k [
  | inl z ↦ inl (omega arith)
  | inr q ↦ inr (omega (arith, ap length e))
]
settled-Move (no_normal p r) w v x y h i qle g k = elim k [
  | inl z ↦ inl (omega arith)
  | inr q ↦ inr (omega arith)
]
settled-Move (nothing_pending p r e) w v x y h i qle g k = elim k [
  | inl z ↦ inl (omega arith)
  | inr q ↦ inr (omega arith)
]
settled-Move (give_up p r ne lt) w v x y h i qle g k = elim k [
  | inl z ↦ inl (omega arith)
  | inr q ↦ inr (omega arith)
]
settled-Move (retry p r ne le) w v x y h i qle g k = elim k [
  | inl z ↦ inl (omega arith)
  | inr q ↦ inr (omega arith)
]
settled-Move (handle c p) w v x y h i qle g k = elim k [
  | inl z ↦ inl (omega arith)
  | inr q ↦ inr (omega arith)
]
settled-Move (finish p) w v x y h i qle g k = elim k [
  | inl z ↦ inl (omega arith)
  | inr q ↦ inr (omega arith)
]
settled-Move leave w v x y h i qle g k = elim k [
  | inl z ↦ inl (omega arith)
  | inr q ↦ inr (omega arith)
]
settled-Move (again ne) w v x y h i qle g k = elim k [
  | inl z ↦ inl (omega arith)
  | inr q ↦ inr (omega arith)
]
settled-Move (enough e) w v x y h i qle g k = elim k [
  | inl z ↦ inl (omega arith)
  | inr q ↦ inr (omega arith)
]
settled-Move close w v x y h i qle g k = elim k [
  | inl z ↦ inl (omega arith)
  | inr q ↦ inr (omega arith)
]
settled-Move (see_none_pending e) w v x y h i qle g k = inr (omega arith)
settled-Move (see_no_drain e) w v x y h i qle g k = elim k [
  | inl z ↦ inl (omega arith)
  | inr q ↦ inr (omega arith)
]
