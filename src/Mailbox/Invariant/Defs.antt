-- ===== src/Mailbox/Invariant/Defs.antt =====
-- The slots of the ring, by position (source/session/BoundedMpscMailbox.h). `tail` is the first
-- position not given back, `emptied` the first whose value is not moved out.
use idtx_core.Base.{ℕ, ◌+◌, ◌≤◌, ◌<◌, ◌≡◌, ◌⊎◌, List, Option, none, some, length, get_elem?, take}
use idtx_core.Mailbox.{
  Mailbox, Producer, Consumer, slot_of, inspect, reserve, construct, publish, peek, release,
  advance,
}

-- The position that a producer has reserved and not yet published.
abbrev pub holds : {A : Type 0} → Producer A → Option ℕ
holds (construct v p) = some p
holds (publish p) = some p
holds _ = none

-- How far the consumer has given slots back, and emptied them, beyond what it has returned.
abbrev pub ahead_released : {A : Type 0} → Consumer A → ℕ
ahead_released (advance p v) = 1
ahead_released _ = 0

abbrev pub ahead_emptied : {A : Type 0} → Consumer A → ℕ
ahead_emptied (release p v) = 1
ahead_emptied (advance p v) = 1
ahead_emptied _ = 0

module _ {A : Type 0} (capacity : ℕ) (sequence : ℕ → ℕ) (storage : ℕ → Option A) (sent : List A)
    (tail : ℕ) where
  -- What a producer has found out stays true; `tail` is the first position not given back.
  abbrev pub Knows : Producer A → Type 0
  Knows (inspect v p) = p ≤ length sent
  Knows (reserve v p) = (p ≤ length sent) × (p ≡ length sent → p < tail + capacity)
  Knows (construct v p) =
      (tail ≤ p)
      × (p < length sent)
      × (sequence (slot_of capacity p) ≡ p)
      × (get_elem? sent p ≡ some v)
  Knows (publish p) =
      (tail ≤ p)
      × (p < length sent)
      × (sequence (slot_of capacity p) ≡ p)
      × (get_elem? sent p ≡ storage (slot_of capacity p))
  Knows _ = Unit {0}

module _ {A : Type 0} (capacity : ℕ) (sequence : ℕ → ℕ) (sent : List A) (head : ℕ) where
  abbrev pub Holds : Consumer A → Type 0
  Holds (peek p) = p ≡ head
  Holds (Consumer.take p) = (p ≡ head) × (p < length sent) × (sequence (slot_of capacity p) ≡ p + 1)
  Holds (release p v) =
      (p ≡ head)
      × (p < length sent)
      × (sequence (slot_of capacity p) ≡ p + 1)
      × (get_elem? sent p ≡ some v)
  Holds (advance p v) = (p ≡ head) × (p < length sent) × (get_elem? sent p ≡ some v)
  Holds _ = Unit {0}

module _ {A : Type 0} (capacity : ℕ) (sequence : ℕ → ℕ) (storage : ℕ → Option A) (sent : List A)
    (emptied : ℕ) where
  -- The slot of a position that is reserved and not given back.
  pub record Used (p : ℕ) : Type 0 where
    pub phase : (sequence (slot_of capacity p) ≡ p) ⊎ (sequence (slot_of capacity p) ≡ p + 1)
    pub stored :
        emptied ≤ p
        → sequence (slot_of capacity p) ≡ p + 1
        → storage (slot_of capacity p) ≡ get_elem? sent p

pub record Inv {A : Type 0} (capacity : ℕ) (m : Mailbox A) (pc : ℕ → Producer A) (c : Consumer A)
    (sent received : List A) : Type 0 where
  pub enqueue : m.enqueue_position ≡ length sent
  pub dequeue : m.dequeue_position ≡ length received
  pub behind : length received + ahead_emptied c ≤ length sent
  pub room : length sent ≤ length received + ahead_released c + capacity
  pub order : received ≡ take (length received) sent
  pub free :
      (p : ℕ)
      → length sent ≤ p
      → p < length received + ahead_released c + capacity
      → m.sequence (slot_of capacity p) ≡ p
  pub used :
      (p : ℕ)
      → length received + ahead_released c ≤ p
      → p < length sent
      → Used capacity m.sequence m.storage sent (length received + ahead_emptied c) p
  pub knows :
      (i : ℕ) → Knows capacity m.sequence m.storage sent (length received + ahead_released c) (pc i)
  pub consumer : Holds capacity m.sequence sent (length received) c
  pub distinct : (i j p : ℕ) → holds (pc i) ≡ some p → holds (pc j) ≡ some p → i ≡ j
  pub owner :
      (p : ℕ)
      → length received + ahead_released c ≤ p
      → p < length sent
      → m.sequence (slot_of capacity p) ≡ p
      → (i : ℕ) × (holds (pc i) ≡ some p)
