-- ===== src/Executor/Tests.antt =====
-- A run of `WorkerExecutor` (source/concurrency/WorkerExecutor.cpp), and the theorems about it there.
use idtx_core.Base.{ℕ, ◌≤◌, ◌≡◌, refl, true, false, some, [], ◌∷◌, count}
use idtx_core.Executor.{
  Executor, not_called, notifying_all, returned, new_executor, enqueue, post, wake_one, look, stop,
  notify_one, take_turn, finish, notify_all, joined, Reachable, start, call_post, call_stop,
  internal,
}
use idtx_core.Executor.Safety.{stopped_when_done, sleeping_when_done}
use idtx_core.Executor.Shutdown.{steps_left, Run, no_step, step, GoesOn, stop_returns}

abbrev fresh : Executor
fresh = record {
  tasks = [];
  stopping = false;
  looking = 1;
  asleep = 0;
  running = [];
  exited = 0;
  notifying = 0;
  stopper = not_called;
  accepted = [];
  started = [];
  finished = [];
}

abbrev dozing : Executor
dozing = record fresh { looking = 0; asleep = 1 }

abbrev one_task : Executor
one_task = record dozing { tasks = 7 ∷ []; accepted = 7 ∷ []; notifying = 1 }

abbrev stopping_all : Executor
stopping_all = record one_task {
  notifying = 0;
  looking = 1;
  asleep = 0;
  stopping = true;
  stopper = notifying_all;
}

abbrev done_state : Executor
done_state = record stopping_all {
  tasks = [];
  looking = 0;
  exited = 1;
  stopper = returned;
  started = 7 ∷ [];
  finished = 7 ∷ [];
}

dozing-Reachable : Reachable 1 dozing
unfolding new_executor look
dozing-Reachable = internal (start {s = fresh} refl) (take_turn 0 refl)

stopping-Reachable : Reachable 1 stopping_all
unfolding post enqueue wake_one stop
stopping-Reachable = call_stop (internal (call_post dozing-Reachable (some 7)) (notify_one 0 refl))

stopping-Run : Run 5 stopping_all done_state
unfolding look
stopping-Run = step (take_turn 0 refl) (
    step (notify_all refl) (
      step (finish [] 7 [] refl)
        (step (take_turn 0 refl) (step (joined refl refl refl refl) no_step))))

done-Reachable : Reachable 1 done_state
done-Reachable = after stopping-Reachable stopping-Run
  where
    after : {k : ℕ} {s t : Executor} → Reachable 1 s → Run k s t → Reachable 1 t
    after r no_step = r
    after r (step i rest) = after (internal r i) rest

stopped_when_done_example :
    (done_state.exited ≡ 1)
    × (done_state.accepted ≡ done_state.started)
    × ((c : ℕ) → count c done_state.finished ≡ count c done_state.accepted)
stopped_when_done_example = stopped_when_done done-Reachable refl

sleeping_when_done_example :
    (dozing.tasks ≡ []) × ((c : ℕ) → count c dozing.finished ≡ count c dozing.accepted)
sleeping_when_done_example = sleeping_when_done dozing-Reachable refl refl

stop_returns_example : (5 ≤ steps_left stopping_all) × GoesOn done_state
stop_returns_example = stop_returns stopping-Reachable refl stopping-Run
