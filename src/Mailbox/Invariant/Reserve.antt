-- ===== src/Mailbox/Invariant/Reserve.antt =====
-- The reads of `TryEmplace` and its compare-exchange (source/session/BoundedMpscMailbox.h).
use idtx_core.Base.{
  ℕ, ◌+◌, ◌^◌, ◌≤◌, ◌<◌, ◌≡◌, ◌∙◌, sym, inl, List, [], ◌∷◌, ◌++◌, none, some, length, update,
  ℕ_discrete, dec_lt, arith, u64, u64_small, length-append, get_elem?-append, get_elem?-snoc,
  take-append,
}
use idtx_core.Mailbox.{Mailbox, Producer, Consumer, slot_of, inspect, reserve, construct}
use idtx_core.Mailbox.Invariant.Defs.{holds, ahead_released, ahead_emptied, Knows, Used, Inv}
use idtx_core.Mailbox.Invariant.Facts.{ahead-le, holds-Knows, Knows-snoc, Holds-snoc}

module _ {A : Type 0} {capacity : ℕ} {m : Mailbox A} {pc : ℕ → Producer A} {c : Consumer A}
    {sent received : List A} (inv : Inv capacity m pc c sent received) (i : ℕ) where
  abbrev pub tail : ℕ
  tail = length received + ahead_released c

  -- A step that reads, or that returns.
  pub read-Inv :
      {p : Producer A} (p' : Producer A)
      → pc i ≡ p
      → holds p ≡ none
      → holds p' ≡ none
      → Knows capacity m.sequence m.storage sent tail p'
      → Inv capacity m (update ℕ_discrete pc i p') c sent received
  read-Inv {p} p' at old new k = record {
    enqueue = inv.enqueue;
    dequeue = inv.dequeue;
    behind = inv.behind;
    room = inv.room;
    order = inv.order;
    free = inv.free;
    used = inv.used;
    knows = λ j. ground (arith, inv.knows j);
    consumer = inv.consumer;
    distinct = λ a b q ha hb. ground (arith, inv.distinct a b q);
    owner = λ q lo hi e. let (j, held) = inv.owner q lo hi e in (j, ground arith);
  }

  pub known-inspect : {v : A} {p : ℕ} → pc i ≡ inspect v p → p ≤ length sent
  known-inspect at = ground (arith, inv.knows i)

  -- The facts about a position that another producer has reserved.
  pub held :
      (j q : ℕ)
      → holds (pc j) ≡ some q
      → (tail ≤ q) × (q < length sent) × (m.sequence (slot_of capacity q) ≡ q)
  held j q e = holds-Knows capacity m.sequence m.storage tail sent (pc j) (inv.knows j) e

  -- The compare-exchange reserves the next position.
  module _ (v : A) (p : ℕ) (at : pc i ≡ reserve v p) (hit : m.enqueue_position ≡ p)
      (small : length sent + capacity < 2 ^ 63) where
    abbrev pub m₁ : Mailbox A
    m₁ = record m { enqueue_position = u64 (p + 1) }

    next : p ≡ length sent
    next = sym hit ∙ inv.enqueue

    fits : p < tail + capacity
    fits = ground (arith, inv.knows i, next)

    vacant : m.sequence (slot_of capacity p) ≡ p
    vacant = inv.free p (omega (arith, next)) fits

    grown : length (sent ++ v ∷ []) ≡ length sent + 1
    grown = omega (arith, length-append sent (v ∷ []))

    reserve-Used :
        (q : ℕ)
        → tail ≤ q
        → q < length sent + 1
        → Used capacity m₁.sequence m₁.storage
            (sent ++ v ∷ [])
            (length received + ahead_emptied c)
            q
    reserve-Used q lo hi = elim (dec_lt q (length sent)) [
      | yes h ↦
          let u = inv.used q lo h in
          record {
            phase = u.phase;
            stored = λ em e. u.stored em e ∙ sym (get_elem?-append sent (v ∷ []) q h);
          }
      | no h ↦
          let e : q ≡ p = omega (arith, next) in
          record { phase = inl (rw e vacant); stored = λ em f. absurd (ground (arith, vacant)) }
    ]

    pub exchange-Inv :
        Inv capacity m₁ (update ℕ_discrete pc i (construct v p)) c (sent ++ v ∷ []) received
    exchange-Inv = record {
      enqueue = omega (arith, grown, next, u64_small (p + 1));
      dequeue = inv.dequeue;
      behind = omega (arith, grown, inv.behind);
      room = omega (arith, grown, next, fits);
      order =
          inv.order ∙ sym (take-append sent (v ∷ []) (length received) (omega (arith, inv.behind)));
      free = λ q lo hi. inv.free q (omega (arith, grown)) hi;
      used = λ q lo hi. reserve-Used q lo (omega (arith, grown));
      knows = λ j. ground (
        arith,
        Knows-snoc capacity m.sequence m.storage tail sent v (pc j) (inv.knows j),
        grown,
        next,
        vacant,
        inv.behind,
        ahead-le c,
        get_elem?-snoc sent v,
      );
      consumer =
          Holds-snoc capacity m.sequence m.storage tail sent v (length received) c inv.consumer;
      distinct = λ a b q ha hb. ground (arith, inv.distinct a b q, held a q, held b q, next);
      owner = λ q lo hi e. elim (dec_lt q (length sent)) [
        | yes h ↦ let (j, own) = inv.owner q lo h e in (j, ground arith)
        | no h ↦ (i, ground (arith, grown, next))
      ];
    }
