-- ===== src/Executor.antt =====
-- `WorkerExecutor` of source/concurrency/WorkerExecutor.h and WorkerExecutor.cpp. The queue and the
-- flag are guarded by a mutex, so each stretch of code that holds it is one step. Workers that stand
-- at the same place do not differ, so the state says how many there are.
pub mod Invariant
pub mod Tasks
pub mod Safety
pub mod Shutdown
mod Tests
use Prim.Native.Nat.{zero, suc}
use idtx_core.Base.{ℕ, ◌+◌, ◌≡◌, Bool, true, false, Option, none, some, List, [], ◌∷◌, ◌++◌}

-- The place of the call of `Stop` that found the flag unset: before `notify_all`, in the joins, or
-- returned.
pub data Stopper : Type 0 where
  not_called notifying_all joining returned : Stopper

pub record Executor : Type 0 where
  pub tasks : List ℕ
  pub stopping : Bool
  pub looking : ℕ  -- workers that have still to take the mutex at the top of the loop
  pub asleep : ℕ  -- workers in `work_available_.wait`
  pub running : List ℕ  -- the tasks of the workers that run one
  pub exited : ℕ  -- workers that have left the loop
  pub notifying : ℕ  -- calls of `Post` between the mutex and `notify_one`
  pub stopper : Stopper
  pub accepted : List ℕ  -- what `Post` returned true for, in order
  pub started : List ℕ  -- what the workers have taken, in order
  pub finished : List ℕ

-- The constructor throws for 0 workers.
unfoldable pub new_executor : ℕ → Option Executor
new_executor zero = none
new_executor (suc n) = some (record {
  tasks = [];
  stopping = false;
  looking = suc n;
  asleep = 0;
  running = [];
  exited = 0;
  notifying = 0;
  stopper = not_called;
  accepted = [];
  started = [];
  finished = [];
})

unfoldable pub enqueue : Executor → ℕ → Bool → Executor × Bool
enqueue s task true = (s, false)
enqueue s task false = (
  record s {
    tasks = s.tasks ++ task ∷ [];
    accepted = s.accepted ++ task ∷ [];
    notifying = s.notifying + 1;
  },
  true,
)

-- `Post` up to its `notify_one`; `none` is an empty function.
unfoldable pub post : Executor → Option ℕ → Executor × Bool
post s none = (s, false)
post s (some task) = enqueue s task s.stopping

-- `notify_one` wakes a worker, if one sleeps.
unfoldable pub wake_one : Executor → ℕ → Executor
wake_one s zero = s
wake_one s (suc n) = record s { asleep = n; looking = s.looking + 1 }

-- What a worker that has taken the mutex does: it takes a task, leaves the loop, or sleeps.
unfoldable pub look : Executor → List ℕ → Bool → Executor
look s (task ∷ rest) stop = record s {
  tasks = rest;
  running = task ∷ s.running;
  started = s.started ++ task ∷ [];
}
look s [] true = record s { exited = s.exited + 1 }
look s [] false = record s { asleep = s.asleep + 1 }

-- `Stop` up to its `notify_all`; it returns at once if the flag is set.
unfoldable pub stop : Executor → Bool → Executor
stop s true = s
stop s false = record s { stopping = true; stopper = notifying_all }

-- A step that the executor's threads, and the calls under way, take by themselves.
pub data Internal (s : Executor) : Executor → Type 0 where
  notify_one :
      (n : ℕ) → s.notifying ≡ suc n → Internal s (wake_one (record s { notifying = n }) s.asleep)
  wake_up :
      (n : ℕ) → s.asleep ≡ suc n → Internal s (record s { asleep = n; looking = s.looking + 1 })
  take_turn :
      (n : ℕ) → s.looking ≡ suc n → Internal s (look (record s { looking = n }) s.tasks s.stopping)
  finish :
      (before : List ℕ) (task : ℕ) (after : List ℕ)
      → s.running ≡ before ++ task ∷ after
      → Internal s (record s {
        running = before ++ after;
        finished = task ∷ s.finished;
        looking = s.looking + 1;
      })
  notify_all :
      s.stopper ≡ notifying_all
      → Internal s (record s { stopper = joining; asleep = 0; looking = s.looking + s.asleep })
  joined :
      s.stopper ≡ joining
      → s.looking ≡ 0
      → s.asleep ≡ 0
      → s.running ≡ []
      → Internal s (record s { stopper = returned })

-- The states that calls lead to, in every interleaving, for a number of workers.
pub data Reachable (workers : ℕ) : Executor → Type 0 where
  start : {s : Executor} → new_executor workers ≡ some s → Reachable workers s
  call_post :
      {s : Executor} → Reachable workers s → (task : Option ℕ) → Reachable workers (post s task).0
  call_stop : {s : Executor} → Reachable workers s → Reachable workers (stop s s.stopping)
  internal : {s t : Executor} → Reachable workers s → Internal s t → Reachable workers t
