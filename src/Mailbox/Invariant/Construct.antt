-- ===== src/Mailbox/Invariant/Construct.antt =====
-- The construction of a value in its slot (source/session/BoundedMpscMailbox.h).
use idtx_core.Base.{
  ℕ, ◌+◌, ◌≤◌, ◌<◌, ◌≡◌, ◌≢◌, refl, if_pos, if_neg, List, some, length, update, update_other,
  ℕ_discrete, arith,
}
use idtx_core.Mailbox.{
  Mailbox, Producer, Consumer, slot_of, slot_of-inj, construct, publish, set_storage,
}
use idtx_core.Mailbox.Invariant.Defs.{holds, ahead_released, ahead_emptied, Knows, Used, Inv}
use idtx_core.Mailbox.Invariant.Facts.{Knows-same}
use idtx_core.Mailbox.Invariant.Reserve.{held}

module _ {A : Type 0} {capacity : ℕ} {m : Mailbox A} {pc : ℕ → Producer A} {c : Consumer A}
    {sent received : List A} (inv : Inv capacity m pc c sent received) (i : ℕ) where
  abbrev pub tail : ℕ
  tail = length received + ahead_released c

  -- The value is constructed in the storage of the reserved slot.
  module _ (v : A) (p : ℕ) (at : pc i ≡ construct v p) where
    abbrev pub m₂ : Mailbox A
    m₂ = set_storage m (slot_of capacity p) (some v)

    mine : Knows capacity m.sequence m.storage sent tail (construct v p)
    mine = ground (arith, inv.knows i)

    -- No other position of the window shares the slot.
    unshared :
        (q : ℕ) → tail ≤ q → q < length sent → slot_of capacity p ≡ slot_of capacity q → p ≡ q
    unshared q lo hi =
        slot_of-inj capacity tail p q mine.0 (omega (arith, mine.1, inv.room)) lo
          (omega (arith, inv.room))

    construct-Used :
        (q : ℕ)
        → tail ≤ q
        → q < length sent
        → Used capacity m₂.sequence m₂.storage sent (length received + ahead_emptied c) q
    construct-Used q lo hi =
        let u = inv.used q lo hi in
        record {
          phase = u.phase;
          stored = λ em e. ground (arith, u.stored em e, unshared q lo hi, mine.2);
        }

    -- What another producer holds is not in the slot.
    elsewhere : (j q : ℕ) → i ≢ j → holds (pc j) ≡ some q → slot_of capacity p ≢ slot_of capacity q
    elsewhere j q ne own same =
        ne (inv.distinct i j p (ground arith) (ground (arith, held inv i j q own, unshared q)))

    construct-Knows :
        (j : ℕ)
        → Knows capacity m₂.sequence m₂.storage sent tail (update ℕ_discrete pc i (publish p) j)
    construct-Knows j = elim (ℕ_discrete i j) [
      | yes e ↦ rw (if_pos _ e) (ground (arith, mine))
      | no ne ↦ rw (if_neg _ ne) (
          Knows-same capacity m.sequence m.storage tail m₂.sequence m₂.storage sent (pc j)
            (inv.knows j)
            (λ r own. (
              refl,
              update_other ℕ_discrete m.storage (slot_of capacity p) (some v) _
                  (elsewhere j r ne own),
            )))
    ]

    pub construct-Inv : Inv capacity m₂ (update ℕ_discrete pc i (publish p)) c sent received
    construct-Inv = record {
      enqueue = inv.enqueue;
      dequeue = inv.dequeue;
      behind = inv.behind;
      room = inv.room;
      order = inv.order;
      free = inv.free;
      used = construct-Used;
      knows = construct-Knows;
      consumer = inv.consumer;
      distinct = λ a b q ha hb. ground (arith, inv.distinct a b q);
      owner = λ q lo hi e. let (j, own) = inv.owner q lo hi e in (j, ground arith);
    }
