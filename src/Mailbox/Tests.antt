-- ===== src/Mailbox/Tests.antt =====
-- Runs of `BoundedMpscMailbox` (source/session/BoundedMpscMailbox.h) with two slots and two
-- producers, and the theorems at the states that they reach.
use idtx_core.Base.{
  ℕ, ◌≡◌, ◌≢◌, get_elem?, ◌≤◌, refl, List, [], ◌∷◌, ◌++◌, some, length, take, replicate, arith,
}
use idtx_core.Mailbox.{slot_of, Emplace}
use idtx_core.Mailbox.Invariant.{holds}
use idtx_core.Mailbox.Safety.{in_use, fifo, rejected_when_full, slots_exclusive, take_is_safe}
use idtx_core.Mailbox.Schedule.{Run, Turn, producer, consumer, run}

-- Producer 0 sends 10 and 11, and stands before the look at the full ring with 12.
abbrev push : ℕ → ℕ → List Turn
push i v = replicate 6 (producer i v)

abbrev full_ring : Run 2
full_ring = run 2 (push 0 10 ++ push 0 11 ++ producer 0 12 ∷ [])

-- Producer 1 has reserved the first slot, producer 0 the second; the consumer looks at the first.
abbrev racing : Run 2
racing = run 2 (
    producer 1 20
    ∷ producer 1 20
    ∷ producer 1 20
    ∷ producer 0 21
    ∷ producer 0 21
    ∷ producer 0 21
    ∷ consumer
    ∷ [])

-- One value is published, and the consumer has seen it.
abbrev taking : Run 2
taking = run 2 (push 0 10 ++ consumer ∷ consumer ∷ [])

-- Both values have come out again.
abbrev emptied : Run 2
emptied = run 2 (push 0 10 ++ push 1 11 ++ replicate 12 consumer)

emptied_result : emptied.last.received ≡ 10 ∷ 11 ∷ []
unfolding run
emptied_result = refl

fifo_example :
    (emptied.last.received ≡ take (length emptied.last.received) emptied.last.sent)
    × (in_use emptied.last ≤ 2)
unfolding run
fifo_example = fifo (omega arith) (omega arith) emptied.reach

rejected_when_full_example : in_use full_ring.last ≡ 2
unfolding run
rejected_when_full_example =
    rejected_when_full (omega arith) (omega arith) full_ring.reach 0 {v = 12} {p = 2} refl
      (Emplace.full refl)

slots_exclusive_example : ◌≡◌ {A = ℕ} 1 1
unfolding run
slots_exclusive_example =
    slots_exclusive (omega arith) (omega arith) racing.reach 1 1 0 0 refl refl refl

take_is_safe_example :
    (v : ℕ) × (taking.last.mem.storage (slot_of 2 0) ≡ some v)
    × (get_elem? taking.last.sent (length taking.last.received) ≡ some v)
    × ((i q : ℕ) → holds (taking.last.producers i) ≡ some q → slot_of 2 q ≢ slot_of 2 0)
unfolding run
take_is_safe_example = take_is_safe (omega arith) (omega arith) taking.reach {p = 0} refl
