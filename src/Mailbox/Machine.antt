-- ===== src/Mailbox/Machine.antt =====
-- Producers and one consumer at work on a mailbox (source/session/BoundedMpscMailbox.h), and the
-- record of what has passed through it.
use idtx_core.Base.{ℕ, List, [], ◌∷◌, ◌++◌, some, update, ℕ_discrete}
use idtx_core.Mailbox.{
  Mailbox, new_mailbox, Producer, Consumer, Emplace, Pop, construct, idle, popped, waiting,
}

-- Producer `i` is thread `i`. `sent` are the values in the order in which their positions were
-- reserved, `received` those that `TryPop` has returned.
pub record System (A : Type 0) : Type 0 where
  pub mem : Mailbox A
  pub producers : ℕ → Producer A
  pub consumer : Consumer A
  pub sent : List A
  pub received : List A

-- Only a successful compare-exchange leads to `construct`.
abbrev pub log_sent : {A : Type 0} → Producer A → List A → List A
log_sent (construct v p) l = l ++ v ∷ []
log_sent _ l = l

-- Only the last step of a successful `TryPop` leads to a popped value.
abbrev pub log_received : {A : Type 0} → Consumer A → List A → List A
log_received (popped (some v)) l = l ++ v ∷ []
log_received _ l = l

pub data Step {A : Type 0} (capacity : ℕ) (s : System A) : System A → Type 0 where
  produce :
      (i : ℕ) {m : Mailbox A} {p : Producer A}
      → Emplace capacity s.mem (s.producers i) m p
      → Step capacity s (record s {
        mem = m;
        producers = update ℕ_discrete s.producers i p;
        sent = log_sent p s.sent;
      })
  consume :
      {m : Mailbox A} {c : Consumer A}
      → Pop capacity s.mem s.consumer m c
      → Step capacity s (record s { mem = m; consumer = c; received = log_received c s.received })

abbrev pub new_system : {A : Type 0} → System A
new_system = record {
  mem = new_mailbox;
  producers = λ _. idle;
  consumer = waiting;
  sent = [];
  received = [];
}

pub data Reach {A : Type 0} (capacity : ℕ) : System A → Type 0 where
  fresh : Reach capacity new_system
  later : {s t : System A} → Reach capacity s → Step capacity s t → Reach capacity t
