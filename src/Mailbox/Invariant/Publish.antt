-- ===== src/Mailbox/Invariant/Publish.antt =====
-- The publication of a slot (source/session/BoundedMpscMailbox.h).
use idtx_core.Base.{
  ℕ, ◌+◌, ◌^◌, ◌≤◌, ◌<◌, ◌≡◌, ◌≢◌, refl, if_pos, if_neg, ◌∙◌, sym, ap, inr, List, some, length,
  update, update_same, update_other, ℕ_discrete, arith, u64, u64_small, true,
}
use idtx_core.Mailbox.{
  Mailbox, Producer, Consumer, slot_of, slot_of-inj, publish, returned, set_sequence,
}
use idtx_core.Mailbox.Invariant.Defs.{holds, ahead_released, ahead_emptied, Knows, Used, Inv}
use idtx_core.Mailbox.Invariant.Facts.{Holds-same, Knows-same}
use idtx_core.Mailbox.Invariant.Reserve.{held}

module _ {A : Type 0} {capacity : ℕ} {m : Mailbox A} {pc : ℕ → Producer A} {c : Consumer A}
    {sent received : List A} (inv : Inv capacity m pc c sent received) (i : ℕ) where
  abbrev pub tail : ℕ
  tail = length received + ahead_released c

  -- The slot is published: its sequence becomes the next number.
  module _ (p : ℕ) (at : pc i ≡ publish p) (small : length sent + capacity < 2 ^ 63) where
    abbrev pub m₃ : Mailbox A
    m₃ = set_sequence m (slot_of capacity p) (u64 (p + 1))

    ready : Knows capacity m.sequence m.storage sent tail (publish p)
    ready = ground (arith, inv.knows i)

    stamp : u64 (p + 1) ≡ p + 1
    stamp = u64_small (p + 1) (omega (arith, ready.1))

    alone :
        (q : ℕ) → tail ≤ q → q < tail + capacity → slot_of capacity p ≡ slot_of capacity q → p ≡ q
    alone q lo hi = slot_of-inj capacity tail p q ready.0 (omega (arith, ready.1, inv.room)) lo hi

    publish-Used :
        (q : ℕ)
        → tail ≤ q
        → q < length sent
        → Used capacity m₃.sequence m₃.storage sent (length received + ahead_emptied c) q
    publish-Used q lo hi = elim (ℕ_discrete (slot_of capacity p) (slot_of capacity q)) [
      | yes same ↦
          let e : p ≡ q = alone q lo (omega (arith, inv.room)) same in
          record {
            phase = inr (update_same ℕ_discrete m.sequence _ _ _ same ∙ stamp ∙ ap (λ t. t + 1) e);
            stored = λ em f. ground (arith, e, ready.3);
          }
      | no other ↦
          let u = inv.used q lo hi in
          let keep : m₃.sequence (slot_of capacity q) ≡ m.sequence (slot_of capacity q) =
            update_other ℕ_discrete m.sequence _ _ _ other in
          record { phase = rw keep u.phase; stored = λ em f. u.stored em (sym keep ∙ f) }
    ]

    publish-Knows :
        (j : ℕ)
        → Knows capacity m₃.sequence m₃.storage sent tail (update ℕ_discrete pc i (returned true) j)
    publish-Knows j = elim (ℕ_discrete i j) [
      | yes e ↦ rw (if_pos _ e) tt
      | no ne ↦ rw (if_neg _ ne) (
          Knows-same capacity m.sequence m.storage tail m₃.sequence m₃.storage sent (pc j)
            (inv.knows j)
            (λ r own. (
              update_other ℕ_discrete m.sequence (slot_of capacity p) (u64 (p + 1)) _
                  (apart j r ne own),
              refl,
            )))
    ]
      where
        apart : (j q : ℕ) → i ≢ j → holds (pc j) ≡ some q → slot_of capacity p ≢ slot_of capacity q
        apart j q ne own same =
            let h = held inv i j q own in
            ne (
              inv.distinct i j p (ground arith)
                (rw (alone q h.0 (omega (arith, h.1, inv.room)) same) own))

    pub publish-Inv : Inv capacity m₃ (update ℕ_discrete pc i (returned true)) c sent received
    publish-Inv = record {
      enqueue = inv.enqueue;
      dequeue = inv.dequeue;
      behind = inv.behind;
      room = inv.room;
      order = inv.order;
      free = λ q lo hi. ground (arith, inv.free q lo hi, alone q, ready.1);
      used = publish-Used;
      knows = publish-Knows;
      consumer =
          Holds-same capacity m.sequence m.storage tail m₃.sequence sent (length received) c
            inv.consumer
            (λ r h e.
              update_other ℕ_discrete m.sequence (slot_of capacity p) (u64 (p + 1)) _
                (λ same. absurd (ground (arith, alone (length received), ready, inv.room))));
      distinct = λ a b q ha hb. ground (arith, inv.distinct a b q);
      owner = λ q lo hi e.
          let other : slot_of capacity p ≢ slot_of capacity q = λ same. absurd (
            ground (
              arith,
              update_same ℕ_discrete m.sequence (slot_of capacity p) (u64 (p + 1))
                  (slot_of capacity q) same,
              alone q lo (omega (arith, inv.room)) same,
              stamp,
            )) in
          let (j, own) = inv.owner q lo hi (
            sym (
              update_other ℕ_discrete m.sequence (slot_of capacity p) (u64 (p + 1))
                (slot_of capacity q) other)
            ∙ e) in
          (j, ground arith);
    }
