-- ===== src/Scheduler/Safety.antt =====
-- What source/session/SessionCommandScheduler.cpp promises to the sessions.
use idtx_core.Base.{
  occurs, count, ℕ, ◌+◌, ◌≤◌, ◌≡◌, refl, false, List, [], ◌∷◌, ◌++◌, arith, length, ◌⊎◌, inl, inr,
}
use idtx_core.Scheduler.{
  Scheduler, Activity, submitting, admitted, scheduling, handling, rechecking, closing,
  waiting_for_drain, idle, Move, Reachable, start, submit, tear_down, move,
}
use idtx_core.Scheduler.Invariant.{
  total, weight, drains, attends, flag, queued, flag-le, total-move, counted-Move, owned-Move,
  attended-Move,
}
use idtx_core.Scheduler.Commands.{holds, places, kept-Move}
use idtx_core.Scheduler.Shutdown.{closed, settled, active, closed-Move, settled-Move}

-- What holds of a state and its activities in every reachable state.
record Holds (s : Scheduler) (as' : List Activity) : Type 0 where
  counted : s.pending ≡ queued s + total weight as'
  owned : total drains as' ≡ flag s.drain_scheduled
  attended : (queued s ≡ 0) ⊎ (1 ≤ total attends as')
  kept : (c : ℕ) → count c s.accepted ≡ places c s + total (holds c) as'
  shut : (total closed as' ≡ 0) ⊎ (s.accepting ≡ false)
  quiet : (total settled as' ≡ 0) ⊎ (queued s + total active as' ≡ 0)

-- One measure is below another if it is for each activity.
total-le :
    (f g : Activity → ℕ) (as' : List Activity)
    → ((a : Activity) → f a ≤ g a)
    → total f as' ≤ total g as'
total-le f g [] h = omega arith
total-le f g (a ∷ as') h = omega (arith, h a, total-le f g as' h)

drains-le-attends : (a : Activity) → drains a ≤ attends a
drains-le-attends a = elim a as (λ b. drains b ≤ attends b) [
  | scheduling ↦ omega arith
  | rechecking ↦ omega arith
  | _ ↦ omega arith
]

occurs-le : (c d : ℕ) → occurs c d ≤ 1
occurs-le c d = ground arith

holds-le-attends : (c : ℕ) (a : Activity) → holds c a ≤ attends a
holds-le-attends c a = elim a as (λ b. holds c b ≤ attends b) [
  | handling d p ↦ occurs-le c d
  | _ ↦ omega arith
]

count-le : (c : ℕ) (ds : List ℕ) → count c ds ≤ length ds
count-le c [] = omega arith
count-le c (d ∷ ds) = omega (arith, occurs-le c d, count-le c ds)

active-le-weight : (a : Activity) → active a ≤ weight a
active-le-weight a = elim a as (λ b. active b ≤ weight b) [
  | admitted u c ↦ omega arith
  | handling c p ↦ omega arith
  | _ ↦ omega arith
]

settled-le-closed : (a : Activity) → settled a ≤ closed a
settled-le-closed a = elim a as (λ b. settled b ≤ closed b) [
  | waiting_for_drain ↦ omega arith
  | idle ↦ omega arith
  | _ ↦ omega arith
]

module _ {s t : Scheduler} (before : List Activity) {a : Activity} {new : List Activity}
    (after : List Activity) (h : Holds s (before ++ a ∷ after)) (m : Move s a t new) where
  Holds-move : Holds t (before ++ (new ++ after))
  Holds-move =
      let old = before ++ a ∷ after in
      let now = before ++ (new ++ after) in
      let d : (f : Activity → ℕ) → total f now + f a ≡ total f old + total f new =
        λ f. total-move f before new after a in
      let owned' = owned-Move m (total drains old) (total drains now) (d drains) h.owned in
      record {
        counted = counted-Move m (total weight old) (total weight now) (d weight) h.counted;
        owned = owned';
        attended =
            attended-Move m (total attends old) (total attends now) (d attends)
              (omega (arith, h.counted))
              (omega (arith, owned', total-le drains attends now drains-le-attends)) h.attended;
        kept =
            λ c. kept-Move m c (total (holds c) old) (total (holds c) now) (d (holds c)) (h.kept c);
        shut = closed-Move m (total closed old) (total closed now) (d closed) h.shut;
        quiet =
            settled-Move m (total settled old) (total settled now) (total active old)
              (total active now) (d settled) (d active)
              (omega (arith, h.counted, total-le active weight old active-le-weight))
              (elim h.shut [
                | inl z ↦ inl (omega (arith, total-le settled closed old settled-le-closed))
                | inr f ↦ inr f
              ])
              h.quiet;
      }

-- Adding an activity that counts for nothing.
Holds-call :
    {s : Scheduler} {as' : List Activity} (a : Activity)
    → weight a ≡ 0
    → attends a ≡ 0
    → drains a ≡ 0
    → ((c : ℕ) → holds c a ≡ 0)
    → closed a ≡ 0
    → settled a ≡ 0
    → active a ≡ 0
    → Holds s as'
    → Holds s (a ∷ as')
Holds-call a ew ea ed eh ec es ev h = record {
  counted = omega (arith, ew, h.counted);
  owned = omega (arith, ed, h.owned);
  attended = elim h.attended [ inl q ↦ inl q | inr le ↦ inr (omega arith) ];
  kept = λ c. omega (arith, eh c, h.kept c);
  shut = elim h.shut [ inl z ↦ inl (omega arith) | inr f ↦ inr f ];
  quiet = elim h.quiet [ inl z ↦ inl (omega arith) | inr q ↦ inr (omega arith) ];
}

Holds-Reachable : {s : Scheduler} {as' : List Activity} → Reachable s as' → Holds s as'
Holds-Reachable start = record {
  counted = refl;
  owned = refl;
  attended = inl refl;
  kept = λ c. refl;
  shut = inl refl;
  quiet = inl refl;
}
Holds-Reachable (submit r urgent c) =
    Holds-call (submitting urgent c) refl refl refl (λ d. refl) refl refl refl (Holds-Reachable r)
Holds-Reachable (tear_down r) =
    Holds-call closing refl refl refl (λ d. refl) refl refl refl (Holds-Reachable r)
Holds-Reachable (move before after r m) = Holds-move before after (Holds-Reachable r) m

-- In every interleaving at most one activity is the drain, from its claim of the drain to the end of
-- its batch, so the mailboxes have a single consumer and commands are handled one at a time; and
-- `drain_scheduled_` says whether there is one.
pub single_consumer :
    {s : Scheduler} {as' : List Activity}
    → Reachable s as'
    → (total drains as' ≡ flag s.drain_scheduled) × (total drains as' ≤ 1)
single_consumer {s = s} r =
    let h = Holds-Reachable r in (h.owned, omega (arith, h.owned, flag-le s.drain_scheduled))

-- In every interleaving, as soon as no activity schedules a drain, drains or checks again, the
-- queues are empty, and every command was handled exactly as often as it was accepted: no accepted
-- command is stranded, and none is handled twice.
pub never_stranded :
    {s : Scheduler} {as' : List Activity}
    → Reachable s as'
    → total attends as' ≡ 0
    → (queued s ≡ 0) × ((c : ℕ) → count c s.handled ≡ count c s.accepted)
never_stranded {s = s} {as' = as'} r none_attends =
    let h = Holds-Reachable r in
    let empty : queued s ≡ 0 = elim h.attended [ inl q ↦ q | inr le ↦ omega arith ] in
    (
      empty,
      λ c. omega (
        arith,
        h.kept c,
        count-le c s.normal,
        count-le c s.priority,
        total-le (holds c) attends as' (holds-le-attends c),
      ),
    )

not_below : {n m : ℕ} → n ≤ m → m ≡ 0 → 1 ≤ n → ⊥
not_below a b c = omega arith

-- In every interleaving, once `WaitIdle` has returned after `CloseAdmission`, no command is admitted
-- any more, none is in the queues, and none is with the handler.
pub idle_is_final :
    {s : Scheduler} {as' : List Activity}
    → Reachable s as'
    → 1 ≤ total settled as'
    → (s.accepting ≡ false) × (queued s ≡ 0) × (total active as' ≡ 0)
idle_is_final {as' = as'} r returned =
    let h = Holds-Reachable r in
    let le = total-le settled closed as' settled-le-closed in
    (
      elim h.shut [ inl z ↦ elim (not_below le z returned) [ ] | inr f ↦ f ],
      elim h.quiet [ inl z ↦ omega arith | inr q ↦ omega arith ],
      elim h.quiet [ inl z ↦ omega arith | inr q ↦ omega arith ],
    )
