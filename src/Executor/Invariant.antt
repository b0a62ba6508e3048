-- ===== src/Executor/Invariant.antt =====
-- Where the workers of source/concurrency/WorkerExecutor.cpp are.
use Prim.Native.Nat.{zero, suc}
use mathlib.Core.Path.{subst}
use idtx_core.Base.{
  ℕ, ◌+◌, ◌≤◌, ◌<◌, ◌≡◌, refl, sym, ◌∙◌, ap, ◌⊎◌, inl, inr, Bool, true, false, Option, none, some,
  List, [], ◌∷◌, ◌++◌, arith, length, length-append,
}
use idtx_core.Executor.{
  Executor, Stopper, not_called, notifying_all, joining, returned, new_executor, enqueue, post,
  wake_one, look, stop, Internal, notify_one, wake_up, take_turn, finish, notify_all, joined,
  Reachable, start, call_post, call_stop, internal,
}

-- The workers, wherever they are.
abbrev pub workers_of : Executor → ℕ
workers_of s = s.looking + s.asleep + length s.running + s.exited

-- Those who see to the queue: workers that are awake, and calls that have still to notify.
abbrev pub attending : Executor → ℕ
attending s = s.looking + length s.running + s.notifying

-- The workers that are neither asleep nor gone.
abbrev pub awake : Executor → ℕ
awake s = s.looking + length s.running

-- What the place of the stopping call says of the flag, and of how many are asleep and awake.
abbrev pub Stands : Bool → ℕ → ℕ → Stopper → Type 0
Stands flag a w not_called = flag ≡ false
Stands flag a w notifying_all = flag ≡ true
Stands flag a w joining = (flag ≡ true) × (a ≡ 0)
Stands flag a w returned = (flag ≡ true) × (a + w ≡ 0)

-- As long as a worker is there, it stays true if nobody falls asleep once the flag is set.
Stands-step :
    {flag : Bool} (a w b v : ℕ) (st : Stopper)
    → Stands flag a w st
    → 0 < a + w
    → (flag ≡ true → b ≤ a)
    → Stands flag b v st
Stands-step a w b v not_called h lt le = h
Stands-step a w b v notifying_all h lt le = h
Stands-step a w b v joining (e, z) lt le = (e, omega (arith, le e))
Stands-step a w b v returned (e, z) lt le = absurd (omega arith)

-- What holds in every reachable state.
pub record Holds (workers : ℕ) (s : Executor) : Type 0 where
  pub some_worker : 0 < workers
  pub all_there : workers_of s ≡ workers
  pub left_late : (s.exited ≡ 0) ⊎ ((s.stopping ≡ true) × (s.tasks ≡ []))
  pub attended : (s.tasks ≡ []) ⊎ (0 < attending s)
  pub stands : Stands s.stopping s.asleep (awake s) s.stopper

not_both : {flag : Bool} → flag ≡ true → flag ≡ false → ⊥
not_both e f = cc

no_tasks : {task : ℕ} {rest : List ℕ} → task ∷ rest ≡ [] → ⊥
no_tasks e = cc

unfoldable HoldsOption : ℕ → Option Executor → Type 0
HoldsOption n none = Unit
HoldsOption n (some s) = Holds n s

new_executor-Holds : (n : ℕ) → HoldsOption n (new_executor n)
unfolding new_executor HoldsOption
new_executor-Holds zero = tt
new_executor-Holds (suc n) = record {
  some_worker = omega arith;
  all_there = omega arith;
  left_late = inl refl;
  attended = inl refl;
  stands = refl;
}

module _ {workers : ℕ} where
  enqueue-Holds :
      (s : Executor) (task : ℕ) (flag : Bool)
      → s.stopping ≡ flag
      → Holds workers s
      → Holds workers (enqueue s task flag).0
  unfolding enqueue
  enqueue-Holds s task true e h = h
  enqueue-Holds s task false e h = record {
    some_worker = h.some_worker;
    all_there = h.all_there;
    left_late = elim h.left_late [ inl z ↦ inl z | inr p ↦ absurd (not_both p.0 e) ];
    attended = inr (omega arith);
    stands = h.stands;
  }

  post-Holds : (s : Executor) (task : Option ℕ) → Holds workers s → Holds workers (post s task).0
  unfolding post
  post-Holds s none h = h
  post-Holds s (some task) h = enqueue-Holds s task s.stopping refl h

  stop-Holds :
      (s : Executor) (flag : Bool)
      → s.stopping ≡ flag
      → Holds workers s
      → Holds workers (stop s flag)
  unfolding stop
  stop-Holds s true e h = h
  stop-Holds s false e h = record {
    some_worker = h.some_worker;
    all_there = h.all_there;
    left_late = elim h.left_late [ inl z ↦ inl z | inr p ↦ inr (refl, p.1) ];
    attended = h.attended;
    stands = refl;
  }

  wake_one-Holds :
      (s : Executor) (n k : ℕ)
      → s.notifying ≡ suc n
      → s.asleep ≡ k
      → Holds workers s
      → Holds workers (wake_one (record s { notifying = n }) k)
  unfolding wake_one
  wake_one-Holds s n zero e z h = record {
    some_worker = h.some_worker;
    all_there = h.all_there;
    left_late = h.left_late;
    attended = elim h.left_late [
      | inl none_left ↦ inr (omega (arith, h.all_there, h.some_worker))
      | inr p ↦ inl p.1
    ];
    stands = h.stands;
  }
  wake_one-Holds s n (suc k) e z h = record {
    some_worker = h.some_worker;
    all_there = omega (arith, h.all_there);
    left_late = h.left_late;
    attended = inr (omega arith);
    stands =
        Stands-step s.asleep (awake s) k (s.looking + 1 + length s.running) s.stopper h.stands
          (omega arith) (λ f. omega arith);
  }

  take_turn-Holds :
      (s : Executor) (n : ℕ) (tasks : List ℕ) (flag : Bool)
      → s.looking ≡ suc n
      → s.tasks ≡ tasks
      → s.stopping ≡ flag
      → Holds workers s
      → Holds workers (look (record s { looking = n }) tasks flag)
  unfolding look
  take_turn-Holds s n (task ∷ rest) flag l t f h = record {
    some_worker = h.some_worker;
    all_there = omega (arith, h.all_there);
    left_late = elim h.left_late [ inl z ↦ inl z | inr p ↦ absurd (no_tasks (sym t ∙ p.1)) ];
    attended = inr (omega arith);
    stands =
        Stands-step s.asleep (awake s) s.asleep (n + suc (length s.running)) s.stopper h.stands
          (omega arith) (λ f. omega arith);
  }
  take_turn-Holds s n [] true l t f h = record {
    some_worker = h.some_worker;
    all_there = omega (arith, h.all_there);
    left_late = inr (f, t);
    attended = inl t;
    stands =
        Stands-step s.asleep (awake s) s.asleep (n + length s.running) s.stopper h.stands
          (omega arith) (λ f. omega arith);
  }
  take_turn-Holds s n [] false l t f h = record {
    some_worker = h.some_worker;
    all_there = omega (arith, h.all_there);
    left_late = h.left_late;
    attended = inl t;
    stands =
        Stands-step s.asleep (awake s) (s.asleep + 1) (n + length s.running) s.stopper h.stands
          (omega arith) (λ e. absurd (not_both e f));
  }

  wake_up-Holds :
      (s : Executor) (n : ℕ)
      → s.asleep ≡ suc n
      → Holds workers s
      → Holds workers (record s { asleep = n; looking = s.looking + 1 })
  wake_up-Holds s n e h = record {
    some_worker = h.some_worker;
    all_there = omega (arith, h.all_there);
    left_late = h.left_late;
    attended = inr (omega arith);
    stands =
        Stands-step s.asleep (awake s) n (s.looking + 1 + length s.running) s.stopper h.stands
          (omega arith) (λ f. omega arith);
  }

  finish-Holds :
      (s : Executor) (before : List ℕ) (task : ℕ) (after : List ℕ)
      → s.running ≡ before ++ task ∷ after
      → Holds workers s
      → Holds workers (record s {
        running = before ++ after;
        finished = task ∷ s.finished;
        looking = s.looking + 1;
      })
  finish-Holds s before task after e h =
      let one : length s.running ≡ suc (length (before ++ after)) =
        omega
          (arith, ap length e, length-append before (task ∷ after), length-append before after) in
      record {
        some_worker = h.some_worker;
        all_there = omega (arith, h.all_there, one);
        left_late = h.left_late;
        attended = inr (omega arith);
        stands =
            Stands-step s.asleep (awake s) s.asleep (s.looking + 1 + length (before ++ after))
              s.stopper h.stands (omega (arith, one)) (λ f. omega arith);
      }

  notify_all-Holds :
      (s : Executor)
      → s.stopper ≡ notifying_all
      → Holds workers s
      → Holds workers (record s { stopper = joining; asleep = 0; looking = s.looking + s.asleep })
  notify_all-Holds s e h = record {
    some_worker = h.some_worker;
    all_there = omega (arith, h.all_there);
    left_late = h.left_late;
    attended = elim h.attended [ inl z ↦ inl z | inr lt ↦ inr (omega arith) ];
    stands = (subst (Stands s.stopping s.asleep (awake s)) e h.stands, refl);
  }

  joined-Holds :
      (s : Executor)
      → s.stopper ≡ joining
      → s.looking ≡ 0
      → s.asleep ≡ 0
      → s.running ≡ []
      → Holds workers s
      → Holds workers (record s { stopper = returned })
  joined-Holds s e l a r h = record {
    some_worker = h.some_worker;
    all_there = h.all_there;
    left_late = h.left_late;
    attended = h.attended;
    stands = (
      (subst (Stands s.stopping s.asleep (awake s)) e h.stands).0,
      omega (arith, l, a, ap length r),
    );
  }

  pub Internal-Holds : {s t : Executor} → Internal s t → Holds workers s → Holds workers t
  Internal-Holds {s = s} (notify_one n e) h = wake_one-Holds s n s.asleep e refl h
  Internal-Holds {s = s} (wake_up n e) h = wake_up-Holds s n e h
  Internal-Holds {s = s} (take_turn n e) h = take_turn-Holds s n s.tasks s.stopping e refl refl h
  Internal-Holds {s = s} (finish before task after e) h = finish-Holds s before task after e h
  Internal-Holds {s = s} (notify_all e) h = notify_all-Holds s e h
  Internal-Holds {s = s} (joined e l a r) h = joined-Holds s e l a r h

pub Holds-Reachable : {workers : ℕ} {s : Executor} → Reachable workers s → Holds workers s
unfolding HoldsOption
Holds-Reachable {workers = n} (start e) = subst (HoldsOption n) e (new_executor-Holds n)
Holds-Reachable (call_post {s = s} r task) = post-Holds s task (Holds-Reachable r)
Holds-Reachable (call_stop {s = s} r) = stop-Holds s s.stopping refl (Holds-Reachable r)
Holds-Reachable (internal r i) = Internal-Holds i (Holds-Reachable r)
