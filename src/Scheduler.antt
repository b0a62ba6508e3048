-- ===== src/Scheduler.antt =====
-- source/session/SessionCommandScheduler.h and SessionCommandScheduler.cpp: who submits, and who
-- runs, the commands of a session. An activity is a call of `TrySubmit` or `TrySubmitPriority`, a
-- drain task on the executor, or the tear-down of the session (`CloseAdmission`, then `WaitIdle`).
-- Each access to an atomic variable, and each call of a mailbox, is one step.
pub mod Invariant
pub mod Commands
pub mod Shutdown
pub mod Safety
pub mod Batch
mod Tests
use Prim.Native.Nat.{zero, suc}
use idtx_core.Base.{ℕ, ◌+◌, ◌<◌, ◌≤◌, ◌≡◌, ◌≢◌, Bool, true, false, List, [], ◌∷◌, ◌++◌}

-- A mailbox is the list of the commands in it, the oldest first. `pending` is a number without
-- bounds, since no more activities than fit in a word run at a time.
pub record Scheduler : Type 0 where
  pub normal : List ℕ
  pub priority : List ℕ
  pub pending : ℕ  -- pending_count_
  pub drain_scheduled : Bool
  pub accepting : Bool
  pub accepted : List ℕ  -- pushed so far, the last one first
  pub handled : List ℕ  -- given to the handler so far, the last one first

abbrev pub new_scheduler : Scheduler
new_scheduler = record {
  normal = [];
  priority = [];
  pending = 0;
  drain_scheduled = false;
  accepting = true;
  accepted = [];
  handled = [];
}

abbrev pub max_commands_per_drain : ℕ
max_commands_per_drain = 64

abbrev pub head_publication_retries : ℕ
head_publication_retries = 16

-- Where an activity stands. The numbers of a drain are `processed` and `retries`.
pub data Activity : Type 0 where
  submitting : (urgent : Bool) → (command : ℕ) → Activity
  announced : (urgent : Bool) → (command : ℕ) → Activity
  admitted : (urgent : Bool) → (command : ℕ) → Activity
  releasing : Activity
  scheduling : Activity
  claimed : Activity
  posted : Activity
  polling : (processed retries : ℕ) → Activity
  polling_normal : (processed retries : ℕ) → Activity
  found_nothing : (processed retries : ℕ) → Activity
  handling : (command processed : ℕ) → Activity
  finishing : (processed : ℕ) → Activity
  leaving : Activity
  rechecking : Activity
  closing : Activity
  waiting : Activity
  waiting_for_drain : Activity
  idle : Activity
  done : Activity

-- `fetch_sub(1)`
abbrev pub one_less : ℕ → ℕ
one_less zero = 18446744073709551615
one_less (suc n) = n

-- A step of an activity: from a state and its place to a state and the activities in its stead.
pub data Move (s : Scheduler) : Activity → Scheduler → List Activity → Type 0 where
  -- Submit
  announce :
      (urgent : Bool) (c : ℕ)
      → Move s
          (submitting urgent c)
          (record s { pending = s.pending + 1 })
          (announced urgent c ∷ [])
  admit :
      (urgent : Bool) (c : ℕ)
      → s.accepting ≡ true
      → Move s (announced urgent c) s (admitted urgent c ∷ [])
  refuse :
      (urgent : Bool) (c : ℕ) → s.accepting ≡ false → Move s (announced urgent c) s (releasing ∷ [])
  -- TryPush says no, as a full mailbox does
  queue_full : (urgent : Bool) (c : ℕ) → Move s (admitted urgent c) s (releasing ∷ [])
  push_normal :
      (c : ℕ)
      → Move s
          (admitted false c)
          (record s { normal = s.normal ++ c ∷ []; accepted = c ∷ s.accepted })
          (scheduling ∷ [])
  push_priority :
      (c : ℕ)
      → Move s
          (admitted true c)
          (record s { priority = s.priority ++ c ∷ []; accepted = c ∷ s.accepted })
          (scheduling ∷ [])
  release : Move s releasing (record s { pending = one_less s.pending }) (done ∷ [])
  -- ScheduleDrainIfRequired
  claim :
      s.drain_scheduled ≡ false
      → Move s scheduling (record s { drain_scheduled = true }) (claimed ∷ [])
  already_scheduled : s.drain_scheduled ≡ true → Move s scheduling s (done ∷ [])
  post : Move s claimed s (done ∷ posted ∷ [])
  drain_here : Move s claimed s (polling 0 0 ∷ [])
  -- RunDrainTask
  start_task : Move s posted s (polling 0 0 ∷ [])
  -- DrainBatch; TryPop may find nothing while a push is under way
  batch_full :
      (processed retries : ℕ)
      → max_commands_per_drain ≤ processed
      → Move s (polling processed retries) s (leaving ∷ [])
  pop_priority :
      (processed retries c : ℕ) (rest : List ℕ)
      → processed < max_commands_per_drain
      → s.priority ≡ c ∷ rest
      → Move s
          (polling processed retries)
          (record s { priority = rest })
          (handling c processed ∷ [])
  no_priority :
      (processed retries : ℕ)
      → processed < max_commands_per_drain
      → Move s (polling processed retries) s (polling_normal processed retries ∷ [])
  pop_normal :
      (processed retries c : ℕ) (rest : List ℕ)
      → s.normal ≡ c ∷ rest
      → Move s
          (polling_normal processed retries)
          (record s { normal = rest })
          (handling c processed ∷ [])
  no_normal :
      (processed retries : ℕ)
      → Move s (polling_normal processed retries) s (found_nothing processed retries ∷ [])
  nothing_pending :
      (processed retries : ℕ)
      → s.pending ≡ 0
      → Move s (found_nothing processed retries) s (leaving ∷ [])
  give_up :
      (processed retries : ℕ)
      → s.pending ≢ 0
      → head_publication_retries < retries + 1
      → Move s (found_nothing processed retries) s (leaving ∷ [])
  retry :
      (processed retries : ℕ)
      → s.pending ≢ 0
      → retries + 1 ≤ head_publication_retries
      → Move s (found_nothing processed retries) s (polling processed (retries + 1) ∷ [])
  handle :
      (c processed : ℕ)
      → Move s
          (handling c processed)
          (record s { handled = c ∷ s.handled })
          (finishing processed ∷ [])
  finish :
      (processed : ℕ)
      → Move s
          (finishing processed)
          (record s { pending = one_less s.pending })
          (polling (processed + 1) 0 ∷ [])
  leave : Move s leaving (record s { drain_scheduled = false }) (rechecking ∷ [])
  again : s.pending ≢ 0 → Move s rechecking s (scheduling ∷ [])
  enough : s.pending ≡ 0 → Move s rechecking s (done ∷ [])
  -- CloseAdmission and WaitIdle
  close : Move s closing (record s { accepting = false }) (waiting ∷ [])
  see_none_pending : s.pending ≡ 0 → Move s waiting s (waiting_for_drain ∷ [])
  see_no_drain : s.drain_scheduled ≡ false → Move s waiting_for_drain s (idle ∷ [])

-- The states that the calls of the public operations lead to, in every interleaving.
pub data Reachable : Scheduler → List Activity → Type 0 where
  start : Reachable new_scheduler []
  submit :
      {s : Scheduler} {as' : List Activity}
      → Reachable s as'
      → (urgent : Bool) (c : ℕ) → Reachable s (submitting urgent c ∷ as')
  tear_down : {s : Scheduler} {as' : List Activity} → Reachable s as' → Reachable s (closing ∷ as')
  move :
      {s t : Scheduler} (before : List Activity) {a : Activity} {new : List Activity}
      (after : List Activity)
      → Reachable s (before ++ a ∷ after)
      → Move s a t new
      → Reachable t (before ++ (new ++ after))
