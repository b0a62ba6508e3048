-- ===== src/Executor/Safety.antt =====
-- What callers of source/concurrency/WorkerExecutor.cpp can rely on.
use Prim.Native.Nat.{suc}
use mathlib.Core.Path.{subst}
use mathlib.Core.List.{append-nil}
use idtx_core.Base.{ℕ, ◌+◌, ◌≡◌, refl, ◌∙◌, ap, inl, inr, List, [], ◌∷◌, ◌++◌, arith, count, length}
use idtx_core.Executor.{Executor, returned, Reachable}
use idtx_core.Executor.Invariant.{awake, Stands, Holds-Reachable}
use idtx_core.Executor.Tasks.{Kept-Reachable}

length-none : {xs : List ℕ} → length xs ≡ 0 → xs ≡ []
length-none {xs = []} e = refl
length-none {xs = x ∷ xs} e = elim (absurd_suc (length xs) e) [ ]
  where
    absurd_suc : (n : ℕ) → suc n ≡ 0 → ⊥
    absurd_suc n e = omega arith

all_finished :
    (c : ℕ) (accepted started tasks running finished : List ℕ)
    → accepted ≡ started ++ tasks
    → count c started ≡ count c running + count c finished
    → tasks ≡ []
    → running ≡ []
    → (accepted ≡ started) × (count c finished ≡ count c accepted)
all_finished c accepted started tasks running finished e k t r =
    let same : accepted ≡ started = e ∙ ap (λ l. started ++ l) t ∙ append-nil started in
    (same, omega (arith, ap (count c) same, k, ap (count c) r))

-- In every interleaving, tasks are taken in the order in which they were accepted. Once the call of
-- `Stop` has returned that was the first to set the flag, all workers have left their loops, and
-- every task was run to its end exactly as often as `Post` accepted it.
pub stopped_when_done :
    {workers : ℕ} {s : Executor}
    → Reachable workers s
    → s.stopper ≡ returned
    → (s.exited ≡ workers)
      × (s.accepted ≡ s.started)
      × ((c : ℕ) → count c s.finished ≡ count c s.accepted)
stopped_when_done {workers = n} {s = s} r e =
    let h = Holds-Reachable r in
    let k = Kept-Reachable r in
    let (flag, gone) = subst (Stands s.stopping s.asleep (awake s)) e h.stands in
    let all_left : s.exited ≡ n = omega (arith, h.all_there, gone) in
    let no_tasks : s.tasks ≡ [] = elim h.left_late [
      | inl z ↦ absurd (omega (arith, all_left, h.some_worker, z))
      | inr p ↦ p.1
    ] in
    let no_running : s.running ≡ [] = length-none (omega (arith, gone)) in
    let ends : (c : ℕ) → (s.accepted ≡ s.started) × (count c s.finished ≡ count c s.accepted) = λ c.
      all_finished c s.accepted s.started s.tasks s.running s.finished k.in_order (k.once c)
        no_tasks no_running in
    (all_left, (ends 0).0, λ c. (ends c).1)

-- In every interleaving, when no worker is awake and no call of `Post` has still to notify, every
-- accepted task has been run to its end: no wake-up is lost.
pub sleeping_when_done :
    {workers : ℕ} {s : Executor}
    → Reachable workers s
    → awake s ≡ 0
    → s.notifying ≡ 0
    → (s.tasks ≡ []) × ((c : ℕ) → count c s.finished ≡ count c s.accepted)
sleeping_when_done {s = s} r none_awake none_notifies =
    let h = Holds-Reachable r in
    let k = Kept-Reachable r in
    let no_tasks : s.tasks ≡ [] = elim h.attended [
      | inl z ↦ z
      | inr lt ↦ absurd (omega (arith, lt))
    ] in
    let no_running : s.running ≡ [] = length-none (omega (arith, none_awake)) in
    (
      no_tasks,
      λ c.
          (all_finished c s.accepted s.started s.tasks s.running s.finished k.in_order (k.once c)
            no_tasks no_running).1,
    )
