-- ===== src/Mailbox.antt =====
-- `BoundedMpscMailbox` of source/session/BoundedMpscMailbox.h: a ring of slots with sequence
-- numbers, any number of producers and one consumer. Each access to an atomic variable is one
-- step, and the steps of the threads interleave in any order; `::new` and the move out of the
-- storage are steps too. An index is `position & (Capacity - 1)`, the remainder by the capacity,
-- which is a power of two.
pub mod Machine
pub mod Invariant
pub mod Safety
mod Schedule
mod Tests
use native.Mathlib.Nat.{mod-eq_of_lt}
use idtx_core.Base.{
  ℕ, ◌+◌, ◌%◌, ◌^◌, ◌≤◌, ◌<◌, ◌≡◌, ◌≢◌, Bool, true, false, Option, none, some, update, compare,
  Ordering, u64, ℕ_discrete, arith, mod_inj,
}

pub record Mailbox (A : Type 0) : Type 0 where
  pub sequence : ℕ → ℕ
  pub storage : ℕ → Option A
  pub enqueue_position : ℕ
  pub dequeue_position : ℕ

-- The constructor gives each slot the position of its first use.
abbrev pub new_mailbox : {A : Type 0} → Mailbox A
new_mailbox = record {
  sequence = λ index. index;
  storage = λ _. none;
  enqueue_position = 0;
  dequeue_position = 0;
}

pub slot_of : ℕ → ℕ → ℕ
slot_of capacity position = position % capacity

-- `static_cast<std::intptr_t>`, moved up by 2 ^ 63 so that the order is that of numbers.
pub signed_key : ℕ → ℕ
signed_key x = (x + 2 ^ 63) % 2 ^ 64

-- The sign of the difference of two words that are read as signed.
pub difference : ℕ → ℕ → Ordering
unfolding signed_key
difference a b = compare (signed_key a) (signed_key b)

-- Where a producer stands in `TryEmplace`, with the value that it wants to store and the position
-- that it has loaded.
pub data Producer (A : Type 0) : Type 0 where
  idle : Producer A
  inspect : (value : A) (position : ℕ) → Producer A  -- before the load of the slot's sequence
  reserve : (value : A) (position : ℕ) → Producer A  -- before the compare-exchange
  refresh : (value : A) → Producer A  -- before the second load of the enqueue position
  construct : (value : A) (position : ℕ) → Producer A  -- the position is reserved
  publish : (position : ℕ) → Producer A  -- before the store of the sequence
  returned : (ok : Bool) → Producer A

-- Where the consumer stands in `TryPop`.
pub data Consumer (A : Type 0) : Type 0 where
  waiting : Consumer A
  peek : (position : ℕ) → Consumer A  -- before the load of the slot's sequence
  take : (position : ℕ) → Consumer A  -- before the value is moved out
  release : (position : ℕ) (result : A) → Consumer A  -- before the store of the sequence
  advance : (position : ℕ) (result : A) → Consumer A  -- before the store of the dequeue position
  popped : (result : Option A) → Consumer A

module _ {A : Type 0} (m : Mailbox A) (index value : ℕ) where
  abbrev pub set_sequence : Mailbox A
  set_sequence = record m { sequence = update ℕ_discrete m.sequence index value }

module _ {A : Type 0} (m : Mailbox A) (index : ℕ) (value : Option A) where
  abbrev pub set_storage : Mailbox A
  set_storage = record m { storage = update ℕ_discrete m.storage index value }

-- One step of `TryEmplace`. The compare-exchange is a weak one and may fail for no reason.
pub data Emplace {A : Type 0} (capacity : ℕ) (m : Mailbox A)
    : Producer A → Mailbox A → Producer A → Type 0 where
  start : {v : A} → Emplace capacity m idle m (inspect v m.enqueue_position)
  available :
      {v : A} {p : ℕ}
      → difference (m.sequence (slot_of capacity p)) p ≡ Ordering.eq
      → Emplace capacity m (inspect v p) m (reserve v p)
  full :
      {v : A} {p : ℕ}
      → difference (m.sequence (slot_of capacity p)) p ≡ Ordering.lt
      → Emplace capacity m (inspect v p) m (returned false)
  outdated :
      {v : A} {p : ℕ}
      → difference (m.sequence (slot_of capacity p)) p ≡ Ordering.gt
      → Emplace capacity m (inspect v p) m (refresh v)
  refreshed : {v : A} → Emplace capacity m (refresh v) m (inspect v m.enqueue_position)
  exchanged :
      {v : A} {p : ℕ}
      → m.enqueue_position ≡ p
      → Emplace capacity m
          (reserve v p)
          (record m { enqueue_position = u64 (p + 1) })
          (construct v p)
  not_exchanged :
      {v : A} {p : ℕ} → Emplace capacity m (reserve v p) m (inspect v m.enqueue_position)
  constructed :
      {v : A} {p : ℕ}
      → Emplace capacity m (construct v p) (set_storage m (slot_of capacity p) (some v)) (publish p)
  published :
      {p : ℕ}
      → Emplace capacity m
          (publish p)
          (set_sequence m (slot_of capacity p) (u64 (p + 1)))
          (returned true)
  leave : {ok : Bool} → Emplace capacity m (returned ok) m idle

-- One step of `TryPop`.
pub data Pop {A : Type 0} (capacity : ℕ) (m : Mailbox A)
    : Consumer A → Mailbox A → Consumer A → Type 0 where
  begin : Pop capacity m waiting m (peek m.dequeue_position)
  not_ready :
      {p : ℕ}
      → difference (m.sequence (slot_of capacity p)) (u64 (p + 1)) ≢ Ordering.eq
      → Pop capacity m (peek p) m (popped none)
  ready :
      {p : ℕ}
      → difference (m.sequence (slot_of capacity p)) (u64 (p + 1)) ≡ Ordering.eq
      → Pop capacity m (peek p) m (take p)
  moved :
      {v : A} {p : ℕ}
      → m.storage (slot_of capacity p) ≡ some v
      → Pop capacity m (take p) (set_storage m (slot_of capacity p) none) (release p v)
  released :
      {v : A} {p : ℕ}
      → Pop capacity m
          (release p v)
          (set_sequence m (slot_of capacity p) (u64 (p + capacity)))
          (advance p v)
  advanced :
      {v : A} {p : ℕ}
      → Pop capacity m (advance p v) (record m { dequeue_position = u64 (p + 1) }) (popped (some v))
  back : {r : Option A} → Pop capacity m (popped r) m waiting

signed_key-add : (a : ℕ) → a < 2 ^ 63 → signed_key a ≡ a + 2 ^ 63
unfolding signed_key
signed_key-add a h = omega arith

-- Two words below 2 ^ 63 compare as the numbers that they are.
pub difference-compare : (a b : ℕ) → a < 2 ^ 63 → b < 2 ^ 63 → difference a b ≡ compare a b
unfolding difference
difference-compare a b h k = ground (arith, signed_key-add a, signed_key-add b)

pub slot_of-inj :
    (capacity r p q : ℕ)
    → r ≤ p
    → p < r + capacity
    → r ≤ q
    → q < r + capacity
    → slot_of capacity p ≡ slot_of capacity q
    → p ≡ q
unfolding slot_of
slot_of-inj capacity r p q a b c d e = mod_inj capacity r p q a b c d e

pub slot_of-add : (capacity p : ℕ) → slot_of capacity (p + capacity) ≡ slot_of capacity p
unfolding slot_of
slot_of-add capacity p = grind arith

pub slot_of_small : (capacity p : ℕ) → p < capacity → slot_of capacity p ≡ p
unfolding slot_of
slot_of_small capacity p h = mod-eq_of_lt h
