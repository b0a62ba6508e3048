-- ===== src/Mailbox/Invariant/Reachable.antt =====
-- Every reachable state of a mailbox (source/session/BoundedMpscMailbox.h) has the invariant.
use idtx_core.Base.{ℕ, ◌+◌, ◌^◌, ◌≤◌, ◌<◌, refl, List, [], ◌∷◌, length, length-append, arith}
use idtx_core.Mailbox.{Producer, construct, slot_of_small}
use idtx_core.Mailbox.Machine.{
  System, Step, produce, consume, new_system, Reach, fresh, later, log_sent,
}
use idtx_core.Mailbox.Invariant.Defs.{Inv}
use idtx_core.Mailbox.Invariant.Produce.{Emplace-Inv}
use idtx_core.Mailbox.Invariant.Consume.{Pop-Inv}

abbrev pub IsSound : {A : Type 0} → ℕ → System A → Type 0
IsSound capacity s = Inv capacity s.mem s.producers s.consumer s.sent s.received

new_system-IsSound : {A : Type 0} (capacity : ℕ) → IsSound capacity (new_system {A = A})
new_system-IsSound capacity = record {
  enqueue = refl;
  dequeue = refl;
  behind = omega arith;
  room = omega arith;
  order = refl;
  free = λ p lo hi. slot_of_small capacity p (omega arith);
  used = λ p lo hi. absurd (omega arith);
  knows = λ _. tt;
  consumer = tt;
  distinct = λ i j p h k. cc;
  owner = λ p lo hi e. absurd (omega arith);
}

log_sent-le : {A : Type 0} (p : Producer A) (sent : List A) → length sent ≤ length (log_sent p sent)
log_sent-le (construct v p) sent = omega (arith, length-append sent (v ∷ []))
log_sent-le _ sent = omega arith

Step-sent :
    {A : Type 0} {capacity : ℕ} {s t : System A} → Step capacity s t → length s.sent ≤ length t.sent
Step-sent {s = s} (produce i {p = p} e) = log_sent-le p s.sent
Step-sent (consume e) = omega arith

-- One step of any thread keeps the invariant, until as many values have been sent as positions
-- can be told apart.
pub Step-IsSound :
    {A : Type 0} {capacity : ℕ} {s t : System A}
    → 2 ≤ capacity
    → length s.sent + capacity < 2 ^ 63
    → Step capacity s t
    → IsSound capacity s
    → IsSound capacity t
Step-IsSound two small (produce i e) inv = Emplace-Inv inv i refl two small e
Step-IsSound two small (consume e) inv = Pop-Inv inv two small e

pub Reach-IsSound :
    {A : Type 0} {capacity : ℕ} {s : System A}
    → 2 ≤ capacity
    → length s.sent + capacity < 2 ^ 63
    → Reach capacity s
    → IsSound capacity s
Reach-IsSound {capacity = capacity} two small fresh = new_system-IsSound capacity
Reach-IsSound {capacity = capacity} two small (later {s = s} r st) =
    let below : length s.sent + capacity < 2 ^ 63 = omega (arith, Step-sent st) in
    Step-IsSound two below st (Reach-IsSound two below r)
