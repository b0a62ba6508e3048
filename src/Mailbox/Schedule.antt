-- ===== src/Mailbox/Schedule.antt =====
-- Reachable states of a mailbox (source/session/BoundedMpscMailbox.h) by evaluation: the threads
-- take turns in a given order.
use idtx_core.Base.{
  ℕ, ◌+◌, ◌≡◌, refl, ◌⊎◌, inl, inr, List, Option, none, some, ℕ_discrete, u64, Ordering,
}
use mathlib.Core.List.{foldl}
use mathlib.Core.Logic.{dite}
use idtx_core.Mailbox.{
  Mailbox, Producer, Consumer, slot_of, difference, idle, inspect, reserve, refresh, construct,
  publish, returned, waiting, peek, release, advance, popped, Emplace, Pop,
}
use idtx_core.Mailbox.Machine.{System, new_system, produce, consume, Reach, fresh, later}

Ordering-cases : (o : Ordering) → (o ≡ Ordering.lt) ⊎ ((o ≡ Ordering.eq) ⊎ (o ≡ Ordering.gt))
Ordering-cases Ordering.lt = inl refl
Ordering-cases Ordering.eq = inr (inl refl)
Ordering-cases Ordering.gt = inr (inr refl)

module _ (capacity v : ℕ) (m : Mailbox ℕ) where
  next_emplace :
      (p : Producer ℕ) → (m' : Mailbox ℕ) × (p' : Producer ℕ) × Emplace capacity m p m' p'
  unfolding Ordering-cases ℕ_discrete difference slot_of
  next_emplace idle = (_, _, Emplace.start {v = v})
  next_emplace (inspect w p) =
      elim (Ordering-cases (difference (m.sequence (slot_of capacity p)) p)) [
        | inl e ↦ (_, _, Emplace.full e)
        | inr (inl e) ↦ (_, _, Emplace.available e)
        | inr (inr e) ↦ (_, _, Emplace.outdated e)
      ]
  next_emplace (reserve w p) =
      dite (ℕ_discrete m.enqueue_position p) (λ e. (_, _, Emplace.exchanged e))
        (λ _. (_, _, Emplace.not_exchanged))
  next_emplace (refresh w) = (_, _, Emplace.refreshed)
  next_emplace (construct w p) = (_, _, Emplace.constructed)
  next_emplace (publish p) = (_, _, Emplace.published)
  next_emplace (returned ok) = (_, _, Emplace.leave)

next_pop :
    (capacity : ℕ) (m : Mailbox ℕ) (c : Consumer ℕ)
    → Option ((m' : Mailbox ℕ) × (c' : Consumer ℕ) × Pop capacity m c m' c')
unfolding Ordering-cases difference slot_of
next_pop capacity m waiting = some (_, _, Pop.begin)
next_pop capacity m (peek p) =
    elim (Ordering-cases (difference (m.sequence (slot_of capacity p)) (u64 (p + 1)))) [
      | inl e ↦ some (_, _, Pop.not_ready (λ f. cc))
      | inr (inl e) ↦ some (_, _, Pop.ready e)
      | inr (inr e) ↦ some (_, _, Pop.not_ready (λ f. cc))
    ]
next_pop capacity m (Consumer.take p) = go (m.storage (slot_of capacity p)) refl
  where
    go :
        (o : Option ℕ)
        → m.storage (slot_of capacity p) ≡ o
        → Option ((m' : Mailbox ℕ) × (c' : Consumer ℕ) × Pop capacity m (Consumer.take p) m' c')
    go none e = none
    go (some v) e = some (_, _, Pop.moved e)
next_pop capacity m (release p v) = some (_, _, Pop.released)
next_pop capacity m (advance p v) = some (_, _, Pop.advanced)
next_pop capacity m (popped r) = some (_, _, Pop.back)

pub record Run (capacity : ℕ) : Type 0 where
  pub last : System ℕ
  pub reach : Reach capacity last

-- A turn of a producer, with the value that it starts with if it is idle, or of the consumer.
pub data Turn : Type 0 where
  producer : (i v : ℕ) → Turn
  consumer : Turn

turn : {capacity : ℕ} → Run capacity → Turn → Run capacity
unfolding next_emplace next_pop
turn {capacity} r (producer i v) = record {
  last = _;
  reach = later r.reach (produce i (next_emplace capacity v r.last.mem (r.last.producers i)).2);
}
turn {capacity} r consumer = elim (next_pop capacity r.last.mem r.last.consumer) [
  | none ↦ r
  | some (m', c', step) ↦ record { last = _; reach = later r.reach (consume step) }
]

unfoldable pub run : (capacity : ℕ) → List Turn → Run capacity
unfolding turn u64
run capacity = foldl turn (record { last = new_system; reach = fresh })
