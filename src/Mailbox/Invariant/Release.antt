-- ===== src/Mailbox/Invariant/Release.antt =====
-- The second half of `TryPop` (source/session/BoundedMpscMailbox.h): the slot is given back, and
-- the head moves on.
use idtx_core.Base.{
  ℕ, suc, ◌+◌, ◌^◌, ◌≤◌, ◌<◌, ◌≡◌, refl, ◌∙◌, sym, ap, List, [], ◌∷◌, ◌++◌, Option, some, length,
  get_elem?, update_same, update_other, ℕ_discrete, dec_lt, arith, u64, u64_small, take,
  length-append, take-snoc,
}
use native.Mathlib.Nat.{add-zero}
use idtx_core.Mailbox.{
  Mailbox, Producer, slot_of, slot_of-inj, slot_of-add, idle, inspect, reserve, refresh, construct,
  publish, returned, release, advance, popped, set_sequence,
}
use idtx_core.Mailbox.Invariant.Defs.{Knows, Inv}
use idtx_core.Mailbox.Invariant.Facts.{holds-Knows, Knows-same}

-- Once the oldest position is taken, every producer stands behind it.
Knows-tail :
    {A : Type 0} (capacity : ℕ) (sequence : ℕ → ℕ) (storage : ℕ → Option A) (sent : List A)
    (tail : ℕ) (q : Producer A)
    → sequence (slot_of capacity tail) ≡ tail + 1
    → Knows capacity sequence storage sent tail q
    → Knows capacity sequence storage sent (tail + 1) q
Knows-tail capacity sequence storage sent tail (construct v p) e k = ground arith
Knows-tail capacity sequence storage sent tail (publish p) e k = ground arith
Knows-tail capacity sequence storage sent tail (inspect v p) e k = k
Knows-tail capacity sequence storage sent tail (reserve v p) e k = (k.0, λ h. omega (arith, k.1 h))
Knows-tail capacity sequence storage sent tail idle e k = tt
Knows-tail capacity sequence storage sent tail (refresh v) e k = tt
Knows-tail capacity sequence storage sent tail (returned ok) e k = tt

module _ {A : Type 0} {capacity : ℕ} {m : Mailbox A} {pc : ℕ → Producer A}
    {sent received : List A} where
  module _ (v : A) (inv : Inv capacity m pc (release (length received) v) sent received)
      (two : 2 ≤ capacity) (small : length sent + capacity < 2 ^ 63) where
    abbrev pub m₂ : Mailbox A
    m₂ = set_sequence m (slot_of capacity (length received)) (u64 (length received + capacity))

    known :
        (length received < length sent)
        × (m.sequence (slot_of capacity (length received)) ≡ length received + 1)
        × (get_elem? sent (length received) ≡ some v)
    known = (inv.consumer.1, inv.consumer.2, inv.consumer.3)

    -- The other positions of the old window keep their sequence.
    kept :
        (q : ℕ)
        → length received < q
        → q < length received + capacity
        → m₂.sequence (slot_of capacity q) ≡ m.sequence (slot_of capacity q)
    kept q lo hi = update_other ℕ_discrete m.sequence _ _ _ (λ same.
        absurd (ground (arith, slot_of-inj capacity (length received) (length received) q)))

    reused :
        m₂.sequence (slot_of capacity (length received + capacity)) ≡ length received + capacity
    reused =
        update_same ℕ_discrete m.sequence _ _ _ (sym (slot_of-add capacity (length received)))
        ∙ u64_small (length received + capacity) (omega (arith, known))

    release-Knows :
        (j : ℕ) → Knows capacity m₂.sequence m₂.storage sent (length received + 1) (pc j)
    release-Knows j =
        let k =
          Knows-tail capacity m.sequence m.storage sent (length received) (pc j) known.1
            (rw (add-zero (length received)) at (inv.knows j)) in
        Knows-same capacity m.sequence m.storage (length received + 1) m₂.sequence m.storage sent
          (pc j) k
          (λ r own.
            let h =
              holds-Knows capacity m.sequence m.storage (length received + 1) sent (pc j) k own in
            (kept r (omega (arith, h.0)) (omega (arith, h.1, inv.room)), refl))

    pub release-Inv : Inv capacity m₂ pc (advance (length received) v) sent received
    release-Inv = record {
      enqueue = inv.enqueue;
      dequeue = inv.dequeue;
      behind = inv.behind;
      room = omega (arith, inv.room);
      order = inv.order;
      free = λ q lo hi. elim (dec_lt q (length received + capacity)) [
        | yes h ↦ kept q (omega (arith, known)) h ∙ inv.free q lo (omega arith)
        | no h ↦ let e : q ≡ length received + capacity = omega arith in rw e reused
      ];
      used = λ q lo hi.
          let u = inv.used q (omega arith) hi in
          let same = kept q (omega arith) (omega (arith, inv.room)) in
          record { phase = rw same u.phase; stored = λ em e. u.stored em (sym same ∙ e) };
      knows = release-Knows;
      consumer = (refl, known.0, known.2);
      distinct = inv.distinct;
      owner = λ q lo hi e.
          inv.owner q (omega arith) hi (sym (kept q (omega arith) (omega (arith, inv.room))) ∙ e);
    }

  module _ (v : A) (inv : Inv capacity m pc (advance (length received) v) sent received)
      (small : length sent + capacity < 2 ^ 63) where
    abbrev pub m₃ : Mailbox A
    m₃ = record m { dequeue_position = u64 (length received + 1) }

    grown : length (received ++ v ∷ []) ≡ length received + 1
    grown = omega (arith, length-append received (v ∷ []))

    shifted : length (received ++ v ∷ []) + 0 ≡ length received + 1
    shifted = omega (arith, grown)

    longer : suc (length received) ≡ length (received ++ v ∷ [])
    longer = omega (arith, grown)

    pub advance-Inv : Inv capacity m₃ pc (popped (some v)) sent (received ++ v ∷ [])
    advance-Inv = record {
      enqueue = inv.enqueue;
      dequeue = u64_small (length received + 1) (omega (arith, inv.behind)) ∙ sym grown;
      behind = omega (arith, grown, inv.behind);
      room = omega (arith, grown, inv.room);
      order =
          ap (λ l. l ++ v ∷ []) inv.order
          ∙ sym (take-snoc sent (length received) v inv.consumer.2)
          ∙ ap (λ n. take n sent) longer;
      free = rw shifted inv.free;
      used = rw shifted inv.used;
      knows = rw shifted inv.knows;
      consumer = tt;
      distinct = inv.distinct;
      owner = rw shifted inv.owner;
    }
