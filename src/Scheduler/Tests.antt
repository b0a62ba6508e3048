-- ===== src/Scheduler/Tests.antt =====
-- A schedule of source/session/SessionCommandScheduler.cpp, and the theorems at its states: one
-- command is submitted, a task on the executor drains it, and the session is torn down.
use idtx_core.Base.{count, ℕ, ◌+◌, ◌≤◌, ◌≡◌, refl, true, false, [], ◌∷◌, arith}
use idtx_core.Scheduler.{
  Scheduler, new_scheduler, polling, handling, finishing, idle, done, Reachable, start, submit,
  tear_down, move, announce, admit, push_normal, claim, post, start_task, no_priority, pop_normal,
  no_normal, nothing_pending, handle, finish, leave, enough, close, see_none_pending, see_no_drain,
}
use idtx_core.Scheduler.Invariant.{total, drains, flag, queued}
use idtx_core.Scheduler.Shutdown.{active}
use idtx_core.Scheduler.Safety.{single_consumer, never_stranded, idle_is_final}
use idtx_core.Scheduler.Batch.{Batch, begin, go_on, Fits, rank, steps_bounded}

-- The command 7 is accepted, and the drain is posted.
abbrev accepted_one : Scheduler
accepted_one = record new_scheduler {
  normal = 7 ∷ [];
  pending = 1;
  drain_scheduled = true;
  accepted = 7 ∷ [];
}

abbrev finished : Scheduler
finished = record new_scheduler { accepted = 7 ∷ []; handled = 7 ∷ [] }

to_handling : Reachable (record accepted_one { normal = [] }) (done ∷ handling 7 0 ∷ [])
to_handling =
    move (done ∷ []) []
      (move (done ∷ []) []
        (move (done ∷ []) []
          (move [] []
            (move [] []
              (move [] []
                (move [] [] (move [] [] (submit start false 7) (announce false 7))
                  (admit false 7 refl))
                (push_normal 7))
              (claim refl))
            post)
          start_task)
        (no_priority 0 0 (omega arith)))
      (pop_normal 0 0 7 [] refl)

to_finished : Reachable finished (done ∷ done ∷ [])
to_finished =
    move (done ∷ []) []
      (move (done ∷ []) []
        (move (done ∷ []) []
          (move (done ∷ []) []
            (move (done ∷ []) []
              (move (done ∷ []) [] (move (done ∷ []) [] to_handling (handle 7 0)) (finish 0))
              (no_priority 1 0 (omega arith)))
            (no_normal 1 0))
          (nothing_pending 1 0 refl))
        leave)
      (enough refl)

to_idle : Reachable (record finished { accepting = false }) (idle ∷ done ∷ done ∷ [])
to_idle =
    move [] (done ∷ done ∷ [])
      (move [] (done ∷ done ∷ []) (move [] (done ∷ done ∷ []) (tear_down to_finished) close)
        (see_none_pending refl))
      (see_no_drain refl)

single_consumer_example :
    (total drains (done ∷ handling 7 0 ∷ []) ≡ flag true)
    × (total drains (done ∷ handling 7 0 ∷ []) ≤ 1)
single_consumer_example = single_consumer to_handling

never_stranded_example :
    (queued finished ≡ 0) × ((c : ℕ) → count c finished.handled ≡ count c finished.accepted)
never_stranded_example = never_stranded to_finished refl

idle_is_final_example :
    (false ≡ false)
    × (queued (record finished { accepting = false }) ≡ 0)
    × (total active (idle ∷ done ∷ done ∷ []) ≡ 0)
idle_is_final_example = idle_is_final to_idle (omega arith)

-- The batch of the schedule up to the handler's return.
first_steps : Batch (polling 0 0) 3 (finishing 0)
first_steps =
    go_on {s = record accepted_one { normal = [] }}
      (go_on {s = accepted_one}
        (go_on {s = accepted_one} begin refl (no_priority 0 0 (omega arith))) refl
        (pop_normal 0 0 7 [] refl))
      refl (handle 7 0)

steps_bounded_example : (3 + rank (finishing 0) ≤ 3508) × Fits (finishing 0)
steps_bounded_example = steps_bounded first_steps
