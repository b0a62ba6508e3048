-- ===== src/Mailbox/Invariant/Consume.antt =====
-- The steps of `TryPop` (source/session/BoundedMpscMailbox.h) keep the invariant.
use idtx_core.Base.{
  ℕ, ◌+◌, ◌^◌, ◌≤◌, ◌<◌, ◌≡◌, refl, List, [], ◌∷◌, ◌++◌, none, some, length, u64, Ordering,
}
use mathlib.Core.Path.{subst⁻¹}
use idtx_core.Mailbox.{
  Mailbox, Producer, Consumer, slot_of, difference, waiting, peek, release, advance, popped,
  set_sequence, set_storage, Pop, begin, not_ready, ready, moved, released, advanced, back,
}
use idtx_core.Mailbox.Machine.{log_received}
use idtx_core.Mailbox.Invariant.Defs.{Inv}
use idtx_core.Mailbox.Invariant.Take.{look-Inv, ready-head, move-Inv}
use idtx_core.Mailbox.Invariant.Release.{release-Inv, advance-Inv}

-- The consumer's position is the head of the queue.
module _ {A : Type 0} {capacity : ℕ} {m : Mailbox A} {pc : ℕ → Producer A} {sent received : List A}
    {p : ℕ} where
  ready-Inv :
      Inv capacity m pc (peek p) sent received
      → 2 ≤ capacity
      → length sent + capacity < 2 ^ 63
      → difference (m.sequence (slot_of capacity p)) (u64 (p + 1)) ≡ Ordering.eq
      → Inv capacity m pc (Consumer.take p) sent received
  ready-Inv inv two small =
      subst⁻¹
        (λ q.
          Inv capacity m pc (peek q) sent received
          → difference (m.sequence (slot_of capacity q)) (u64 (q + 1)) ≡ Ordering.eq
          → Inv capacity m pc (Consumer.take q) sent received)
        inv.consumer
        (λ i e.
          let h = ready-head i two small e in
          look-Inv (Consumer.take _) i refl refl (refl, h.0, h.1))
        inv

  moved-Inv :
      (v : A)
      → Inv capacity m pc (Consumer.take p) sent received
      → m.storage (slot_of capacity p) ≡ some v
      → Inv capacity (set_storage m (slot_of capacity p) none) pc (release p v) sent received
  moved-Inv v inv =
      subst⁻¹
        (λ q.
          Inv capacity m pc (Consumer.take q) sent received
          → m.storage (slot_of capacity q) ≡ some v
          → Inv capacity (set_storage m (slot_of capacity q) none) pc (release q v) sent received)
        inv.consumer.0 (λ i e. move-Inv v i e) inv

  released-Inv :
      (v : A)
      → Inv capacity m pc (release p v) sent received
      → 2 ≤ capacity
      → length sent + capacity < 2 ^ 63
      → Inv capacity
          (set_sequence m (slot_of capacity p) (u64 (p + capacity)))
          pc
          (advance p v)
          sent
          received
  released-Inv v inv two small =
      subst⁻¹
        (λ q.
          Inv capacity m pc (release q v) sent received
          → Inv capacity (set_sequence m (slot_of capacity q) (u64 (q + capacity))) pc (advance q v)
              sent received)
        inv.consumer.0 (λ i. release-Inv v i two small) inv

  advanced-Inv :
      (v : A)
      → Inv capacity m pc (advance p v) sent received
      → length sent + capacity < 2 ^ 63
      → Inv capacity
          (record m { dequeue_position = u64 (p + 1) })
          pc
          (popped (some v))
          sent
          (received ++ v ∷ [])
  advanced-Inv v inv small =
      subst⁻¹
        (λ q.
          Inv capacity m pc (advance q v) sent received
          → Inv capacity (record m { dequeue_position = u64 (q + 1) }) pc (popped (some v)) sent
              (received ++ v ∷ []))
        inv.consumer.0 (λ i. advance-Inv v i small) inv

-- Every step of the consumer keeps the invariant.
pub Pop-Inv :
    {A : Type 0} {capacity : ℕ} {m m' : Mailbox A} {pc : ℕ → Producer A} {c c' : Consumer A}
    {sent received : List A}
    → Inv capacity m pc c sent received
    → 2 ≤ capacity
    → length sent + capacity < 2 ^ 63
    → Pop capacity m c m' c'
    → Inv capacity m' pc c' sent (log_received c' received)
Pop-Inv inv two small begin = look-Inv (peek _) inv refl refl inv.dequeue
Pop-Inv inv two small (not_ready e) = look-Inv (popped none) inv refl refl tt
Pop-Inv inv two small (ready {p = p} e) = ready-Inv inv two small e
Pop-Inv inv two small (moved {v = v} {p = p} e) = moved-Inv v inv e
Pop-Inv inv two small (released {v = v} {p = p}) = released-Inv v inv two small
Pop-Inv inv two small (advanced {v = v} {p = p}) = advanced-Inv v inv small
Pop-Inv inv two small back = look-Inv waiting inv refl refl tt
