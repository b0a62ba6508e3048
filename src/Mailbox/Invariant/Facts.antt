-- ===== src/Mailbox/Invariant/Facts.antt =====
-- What the invariant says of single slots (source/session/BoundedMpscMailbox.h).
use idtx_core.Base.{
  ℕ, zero, suc, ◌+◌, ◌^◌, ◌≤◌, ◌<◌, ◌≡◌, refl, ◌∙◌, ◌⊎◌, inl, inr, List, [], ◌∷◌, ◌++◌, Option,
  some, length, dec_lt, arith, Ordering, length-append, get_elem?-append,
}
use idtx_core.Mailbox.{
  Mailbox, Producer, Consumer, slot_of, slot_of-add, difference, difference-compare, idle, inspect,
  reserve, refresh, construct, publish, returned, waiting, peek, release, advance, popped,
}
use idtx_core.Mailbox.Invariant.Defs.{holds, ahead_released, ahead_emptied, Knows, Holds, Inv}

pub ahead-le : {A : Type 0} (c : Consumer A) → ahead_released c ≤ ahead_emptied c
ahead-le (advance p v) = omega arith
ahead-le _ = omega arith

-- Every position below the window has a later one in the window at the same slot.
pub window_rep :
    (k capacity tail p : ℕ)
    → 0 < capacity
    → p < tail
    → tail ≤ p + k
    → (q : ℕ) × (tail ≤ q)
      × (q < tail + capacity)
      × (slot_of capacity q ≡ slot_of capacity p)
      × (p < q)
window_rep zero capacity tail p pos lt h = absurd (omega arith)
window_rep (suc k) capacity tail p pos lt h = elim (dec_lt (p + capacity) tail) [
  | yes more ↦
      let (q, lo, hi, same, after) =
        window_rep k capacity tail (p + capacity) pos more (omega arith) in
      (q, lo, hi, same ∙ slot_of-add capacity p, omega arith)
  | no done ↦ (p + capacity, omega arith, omega arith, slot_of-add capacity p, omega arith)
]

module _ {A : Type 0} (capacity : ℕ) (sequence : ℕ → ℕ) (storage : ℕ → Option A) (tail : ℕ) where
  -- A reserved position lies in the window and is not published.
  pub holds-Knows :
      (sent : List A) (q : Producer A) {p : ℕ}
      → Knows capacity sequence storage sent tail q
      → holds q ≡ some p
      → (tail ≤ p) × (p < length sent) × (sequence (slot_of capacity p) ≡ p)
  holds-Knows sent (construct v r) k e = ground arith
  holds-Knows sent (publish r) k e = ground arith
  holds-Knows sent _ k e = cc

  -- A new reservation takes nothing back.
  pub Knows-snoc :
      (sent : List A) (v : A) (q : Producer A)
      → Knows capacity sequence storage sent tail q
      → Knows capacity sequence storage (sent ++ v ∷ []) tail q
  Knows-snoc sent v (inspect w p) k = omega (arith, length-append sent (v ∷ []))
  Knows-snoc sent v (reserve w p) k = (
    omega (arith, length-append sent (v ∷ [])),
    λ e. absurd (omega (arith, length-append sent (v ∷ []))),
  )
  Knows-snoc sent v (construct w p) k =
      ground (arith, length-append sent (v ∷ []), get_elem?-append sent (v ∷ []) p)
  Knows-snoc sent v (publish p) k =
      ground (arith, length-append sent (v ∷ []), get_elem?-append sent (v ∷ []) p)
  Knows-snoc sent v idle k = tt
  Knows-snoc sent v (refresh w) k = tt
  Knows-snoc sent v (returned ok) k = tt

  pub Holds-snoc :
      (sent : List A) (v : A) (head : ℕ) (c : Consumer A)
      → Holds capacity sequence sent head c
      → Holds capacity sequence (sent ++ v ∷ []) head c
  Holds-snoc sent v head (peek p) k = k
  Holds-snoc sent v head (Consumer.take p) k =
      (k.0, omega (arith, k, length-append sent (v ∷ [])), k.2)
  Holds-snoc sent v head (release p w) k =
      ground (arith, length-append sent (v ∷ []), get_elem?-append sent (v ∷ []) p)
  Holds-snoc sent v head (advance p w) k =
      ground (arith, length-append sent (v ∷ []), get_elem?-append sent (v ∷ []) p)
  Holds-snoc sent v head waiting k = tt
  Holds-snoc sent v head (popped r) k = tt

  -- A write to another slot than the oldest one leaves what the consumer knows.
  pub Holds-same :
      (sequence' : ℕ → ℕ) (sent : List A) (head : ℕ) (c : Consumer A)
      → Holds capacity sequence sent head c
      → (ahead_released c ≡ 0
          → head < length sent
          → sequence (slot_of capacity head) ≡ head + 1
          → sequence' (slot_of capacity head) ≡ sequence (slot_of capacity head))
      → Holds capacity sequence' sent head c
  Holds-same s sent head (Consumer.take p) k same = ground (arith, same refl)
  Holds-same s sent head (release p v) k same = ground (arith, same refl)
  Holds-same s sent head (peek p) k same = k
  Holds-same s sent head (advance p v) k same = k
  Holds-same s sent head waiting k same = tt
  Holds-same s sent head (popped r) k same = tt

  -- Writes to slots that a producer does not hold leave what it knows.
  pub Knows-same :
      (sequence' : ℕ → ℕ) (storage' : ℕ → Option A) (sent : List A) (q : Producer A)
      → Knows capacity sequence storage sent tail q
      → ((r : ℕ)
          → holds q ≡ some r
          → (sequence' (slot_of capacity r) ≡ sequence (slot_of capacity r))
            × (storage' (slot_of capacity r) ≡ storage (slot_of capacity r)))
      → Knows capacity sequence' storage' sent tail q
  Knows-same s t sent (construct v r) k same = ground (arith, same r refl)
  Knows-same s t sent (publish r) k same = ground (arith, same r refl)
  Knows-same s t sent (inspect v r) k same = k
  Knows-same s t sent (reserve v r) k same = k
  Knows-same s t sent idle k same = tt
  Knows-same s t sent (refresh v) k same = tt
  Knows-same s t sent (returned ok) k same = tt

module _ {A : Type 0} {capacity : ℕ} {m : Mailbox A} {pc : ℕ → Producer A} {c : Consumer A}
    {sent received : List A} (inv : Inv capacity m pc c sent received) where
  abbrev pub tail_of : ℕ
  tail_of = length received + ahead_released c

  -- The sequence of every slot in the window.
  pub window_sequence :
      (q : ℕ)
      → tail_of ≤ q
      → q < tail_of + capacity
      → ((length sent ≤ q) × (m.sequence (slot_of capacity q) ≡ q))
        ⊎ ((q < length sent)
            × ((m.sequence (slot_of capacity q) ≡ q) ⊎ (m.sequence (slot_of capacity q) ≡ q + 1)))
  window_sequence q lo hi = elim (dec_lt q (length sent)) [
    | yes h ↦ inr (h, (inv.used q lo h).phase)
    | no h ↦ inl (omega arith, inv.free q (omega arith) hi)
  ]

  -- When all slots are reserved, the next one still has the sequence of the oldest position.
  full_sequence :
      0 < capacity
      → length sent ≡ tail_of + capacity
      → (m.sequence (slot_of capacity (length sent)) ≡ tail_of)
        ⊎ (m.sequence (slot_of capacity (length sent)) ≡ tail_of + 1)
  full_sequence pos e =
      rw (e, slot_of-add capacity tail_of) (inv.used tail_of (omega arith) (omega arith)).phase

  module _ (two : 2 ≤ capacity) (small : length sent + capacity < 2 ^ 63) (p : ℕ)
      (le : p ≤ length sent) where
    -- A slot that is available for the next position is not one that is still in use.
    pub available-room :
        difference (m.sequence (slot_of capacity p)) p ≡ Ordering.eq
        → p ≡ length sent
        → p < tail_of + capacity
    available-room e next = elim (dec_lt p (tail_of + capacity)) [
      | yes h ↦ h
      | no h ↦ absurd (
          ground (
            arith,
            inv.room,
            full_sequence (omega arith) (omega (arith, inv.room)),
            difference-compare (m.sequence (slot_of capacity p)) p,
          ))
    ]

    -- The sequence of a slot in the window does not lag behind an earlier position.
    not_behind :
        (q : ℕ)
        → tail_of ≤ q
        → q < tail_of + capacity
        → p ≤ q
        → slot_of capacity q ≡ slot_of capacity p
        → difference (m.sequence (slot_of capacity p)) p ≡ Ordering.lt
        → ⊥
    not_behind q lo hi after same e = ground (
      arith,
      inv.behind,
      ahead-le c,
      window_sequence q lo hi,
      difference-compare (m.sequence (slot_of capacity p)) p,
    )

    -- A slot whose sequence lags behind the position means that the ring is full.
    pub full-room :
        difference (m.sequence (slot_of capacity p)) p ≡ Ordering.lt
        → length sent ≡ tail_of + capacity
    full-room e = elim (dec_lt p tail_of) [
      | yes below ↦
          let (q, lo, hi, same, after) =
            window_rep tail_of capacity tail_of p (omega arith) below (omega arith) in
          absurd (not_behind q lo hi (omega arith) same e)
      | no above ↦ elim (dec_lt p (tail_of + capacity)) [
        | yes within ↦ absurd (not_behind p (omega arith) within (omega arith) refl e)
        | no past ↦ omega (arith, inv.room)
      ]
    ]
