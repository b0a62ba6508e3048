-- ===== src/Mailbox/Invariant/Take.antt =====
-- The first half of `TryPop` (source/session/BoundedMpscMailbox.h): the look at the slot, and the
-- move out of its storage.
use idtx_core.Base.{
  ℕ, ◌+◌, ◌^◌, ◌≤◌, ◌<◌, ◌≡◌, ◌≢◌, refl, ◌∙◌, sym, List, none, some, length, update_other,
  ℕ_discrete, arith, u64, u64_small, Ordering,
}
use idtx_core.Mailbox.{
  Mailbox, Producer, Consumer, slot_of, slot_of-inj, difference, difference-compare, peek, release,
  set_storage,
}
use idtx_core.Mailbox.Invariant.Defs.{holds, ahead_released, ahead_emptied, Holds, Inv}
use idtx_core.Mailbox.Invariant.Facts.{holds-Knows, Knows-same, window_sequence}

module _ {A : Type 0} {capacity : ℕ} {m : Mailbox A} {pc : ℕ → Producer A}
    {sent received : List A} where
  -- A step that reads, or that returns nothing new.
  pub look-Inv :
      {c : Consumer A} (c' : Consumer A)
      → Inv capacity m pc c sent received
      → ahead_released c' ≡ ahead_released c
      → ahead_emptied c' ≡ ahead_emptied c
      → Holds capacity m.sequence sent (length received) c'
      → Inv capacity m pc c' sent received
  look-Inv c' inv same_released same_emptied k = record {
    enqueue = inv.enqueue;
    dequeue = inv.dequeue;
    behind = rw same_emptied inv.behind;
    room = rw same_released inv.room;
    order = inv.order;
    free = rw same_released inv.free;
    used = rw (same_released, same_emptied) inv.used;
    knows = rw same_released inv.knows;
    consumer = k;
    distinct = inv.distinct;
    owner = rw same_released inv.owner;
  }

  -- The sequence that `TryPop` waits for shows a published value.
  pub ready-head :
      Inv capacity m pc (peek (length received)) sent received
      → 2 ≤ capacity
      → length sent + capacity < 2 ^ 63
      → difference (m.sequence (slot_of capacity (length received))) (u64 (length received + 1))
        ≡ Ordering.eq
      → (length received < length sent)
        × (m.sequence (slot_of capacity (length received)) ≡ length received + 1)
  ready-head inv two small e = ground (
    arith,
    inv.behind,
    u64_small (length received + 1),
    window_sequence inv (length received),
    difference-compare (m.sequence (slot_of capacity (length received))) (length received + 1),
  )

  module _ (v : A) (inv : Inv capacity m pc (Consumer.take (length received)) sent received)
      (full : m.storage (slot_of capacity (length received)) ≡ some v) where
    abbrev pub m₁ : Mailbox A
    m₁ = set_storage m (slot_of capacity (length received)) none

    taken :
        (length received < length sent)
        × (m.sequence (slot_of capacity (length received)) ≡ length received + 1)
    taken = (inv.consumer.1, inv.consumer.2)

    apart :
        (q : ℕ)
        → length received < q
        → q < length sent
        → slot_of capacity (length received) ≢ slot_of capacity q
    apart q lo hi same =
        absurd
          (ground (arith, inv.room, slot_of-inj capacity (length received) (length received) q))

    held_apart :
        (j r : ℕ) → holds (pc j) ≡ some r → slot_of capacity (length received) ≢ slot_of capacity r
    held_apart j r own =
        let k =
          holds-Knows capacity m.sequence m.storage (length received + 0) sent (pc j) (inv.knows j)
            own in
        elim (ℕ_discrete (length received) r) [
          | yes e ↦ absurd (ground (arith, taken))
          | no ne ↦ apart r (omega (arith, k.0)) k.1
        ]

    pub move-Inv : Inv capacity m₁ pc (release (length received) v) sent received
    move-Inv = record {
      enqueue = inv.enqueue;
      dequeue = inv.dequeue;
      behind = omega (arith, taken.0);
      room = inv.room;
      order = inv.order;
      free = inv.free;
      used = λ q lo hi.
          let u = inv.used q lo hi in
          record {
            phase = u.phase;
            stored = λ em e.
                update_other ℕ_discrete m.storage (slot_of capacity (length received)) none _
                  (apart q (omega arith) hi)
                ∙ u.stored (omega arith) e;
          };
      knows = λ j.
          Knows-same capacity m.sequence m.storage (length received + 0) m.sequence m₁.storage sent
            (pc j) (inv.knows j)
            (λ r own. (
              refl,
              update_other ℕ_discrete m.storage (slot_of capacity (length received)) none _
                  (held_apart j r own),
            ));
      consumer = (
        refl,
        taken.0,
        taken.1,
        sym ((inv.used (length received) (omega arith) taken.0).stored (omega arith) taken.1)
            ∙ full,
      );
      distinct = inv.distinct;
      owner = inv.owner;
    }
