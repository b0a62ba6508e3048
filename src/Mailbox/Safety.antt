-- ===== src/Mailbox/Safety.antt =====
-- What `BoundedMpscMailbox` (source/session/BoundedMpscMailbox.h) promises to producers and to the
-- consumer, in every interleaving of their steps.
use idtx_core.Base.{
  ℕ, ◌+◌, ◌-◌, ◌^◌, ◌≤◌, ◌<◌, ◌≡◌, ◌≢◌, ◌∙◌, ◌⊎◌, inl, inr, List, none, some, length, get_elem?,
  get_elem?-lt, take, false, arith, u64, u64_small, dec_lt, Ordering,
}
use mathlib.Core.Path.{subst}
use idtx_core.Mailbox.{
  Mailbox, Producer, Consumer, inspect, returned, peek, popped, slot_of, slot_of-inj, difference,
  difference-compare, Emplace, full, Pop, not_ready,
}
use idtx_core.Mailbox.Machine.{System, Reach}
use idtx_core.Mailbox.Invariant.{
  holds, ahead_released, Inv, IsSound, Reach-IsSound, full-room, holds-Knows,
}

-- The slots that are reserved and not given back.
abbrev pub in_use : {A : Type 0} → System A → ℕ
in_use s = length s.sent - (length s.received + ahead_released s.consumer)

module _ {A : Type 0} {capacity : ℕ} {m : Mailbox A} {pc : ℕ → Producer A} {sent received : List A}
    (small : length sent + capacity < 2 ^ 63) where
  nothing_published :
      (p : ℕ)
      → Inv capacity m pc (peek p) sent received
      → difference (m.sequence (slot_of capacity p)) (u64 (p + 1)) ≢ Ordering.eq
      → (length sent ≡ length received) ⊎ ((i : ℕ) × (holds (pc i) ≡ some (length received)))
  nothing_published p inv e = elim (dec_lt (length received) (length sent)) [
    | no h ↦ inl (omega (arith, inv.behind))
    | yes h ↦ elim ((inv.used (length received) (omega arith) h).phase) [
      | inl reserved ↦ inr (inv.owner (length received) (omega arith) h reserved)
      | inr published ↦ absurd (
          ground (
            arith,
            inv.consumer,
            u64_small (p + 1),
            difference-compare (m.sequence (slot_of capacity p)) (p + 1),
          ))
    ]
  ]

  take_safe :
      (p : ℕ)
      → Inv capacity m pc (Consumer.take p) sent received
      → (v : A) × (m.storage (slot_of capacity p) ≡ some v)
        × (get_elem? sent (length received) ≡ some v)
        × ((i q : ℕ) → holds (pc i) ≡ some q → slot_of capacity q ≢ slot_of capacity p)
  take_safe p inv =
      let (v, e) = get_elem?-lt sent p inv.consumer.1 in
      let stored =
        (inv.used p (omega (arith, inv.consumer)) inv.consumer.1).stored
          (omega (arith, inv.consumer)) inv.consumer.2 in
      (
        v,
        stored ∙ e,
        ground (arith, inv.consumer),
        λ i q own same.
            let k =
              holds-Knows capacity m.sequence m.storage (length received + 0) sent (pc i)
                (inv.knows i) own in
            absurd
              (ground (arith, inv.room, inv.consumer, slot_of-inj capacity (length received) q p)),
      )

module _ {A : Type 0} {capacity : ℕ} {s : System A} (two : 2 ≤ capacity)
    (small : length s.sent + capacity < 2 ^ 63) (r : Reach capacity s) where
  inv : IsSound capacity s
  inv = Reach-IsSound two small r

  -- The values that `TryPop` has returned are the first ones for which a position was reserved, in
  -- that order, and no more than `capacity` slots are in use.
  pub fifo : (s.received ≡ take (length s.received) s.sent) × (in_use s ≤ capacity)
  fifo = (inv.order, omega (arith, inv.room))

  -- When a producer's step makes `TryEmplace` return false, all `capacity` slots are in use.
  pub rejected_when_full :
      (i : ℕ) {v : A} {p : ℕ} {m : Mailbox A}
      → s.producers i ≡ inspect v p
      → Emplace capacity s.mem (inspect v p) m (returned false)
      → in_use s ≡ capacity
  rejected_when_full i {v} {p} at (full e) =
      omega (arith, full-room inv two small p (ground (arith, inv.knows i)) e)

  -- When the consumer's step makes `TryPop` return nothing, no position is reserved that was not
  -- popped, or a producer has reserved the next one and has not published it yet.
  pub empty_when_nothing_published :
      {p : ℕ} {m : Mailbox A}
      → s.consumer ≡ peek p
      → Pop capacity s.mem (peek p) m (popped none)
      → (length s.sent ≡ length s.received)
        ⊎ ((i : ℕ) × (holds (s.producers i) ≡ some (length s.received)))
  empty_when_nothing_published {p} at (not_ready e) =
      nothing_published small p
        (subst (λ c. Inv capacity s.mem s.producers c s.sent s.received) at inv) e

  -- Two producers that have both reserved a slot and not published it use different slots.
  pub slots_exclusive :
      (i j p q : ℕ)
      → holds (s.producers i) ≡ some p
      → holds (s.producers j) ≡ some q
      → slot_of capacity p ≡ slot_of capacity q
      → i ≡ j
  slots_exclusive i j p q hi hj same =
      let tail = length s.received + ahead_released s.consumer in
      let k = holds-Knows capacity s.mem.sequence s.mem.storage tail s.sent _ (inv.knows i) hi in
      let l = holds-Knows capacity s.mem.sequence s.mem.storage tail s.sent _ (inv.knows j) hj in
      let e : p ≡ q =
        slot_of-inj capacity tail p q k.0 (omega (arith, k.1, inv.room)) l.0
          (omega (arith, l.1, inv.room)) same in
      inv.distinct i j p hi (rw e hj)

  -- The slot that the consumer is about to read holds the oldest value that was not popped, and no
  -- producer is at work in it.
  pub take_is_safe :
      {p : ℕ}
      → s.consumer ≡ Consumer.take p
      → (v : A) × (s.mem.storage (slot_of capacity p) ≡ some v)
        × (get_elem? s.sent (length s.received) ≡ some v)
        × ((i q : ℕ) → holds (s.producers i) ≡ some q → slot_of capacity q ≢ slot_of capacity p)
  take_is_safe {p} at =
      take_safe small p (subst (λ c. Inv capacity s.mem s.producers c s.sent s.received) at inv)
