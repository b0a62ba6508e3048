-- ===== src/Executor/Tasks.antt =====
-- What becomes of the tasks of source/concurrency/WorkerExecutor.cpp.
use Prim.Native.Nat.{zero, suc}
use mathlib.Core.Path.{subst}
use mathlib.Core.List.{append_assoc}
use idtx_core.Base.{
  ℕ, ◌+◌, ◌≡◌, refl, sym, ◌∙◌, ap, Bool, true, false, Option, none, some, List, [], ◌∷◌, ◌++◌,
  arith, count, count-append, count-snoc,
}
use idtx_core.Executor.{
  Executor, new_executor, enqueue, post, wake_one, look, stop, Internal, notify_one, wake_up,
  take_turn, finish, notify_all, joined, Reachable, start, call_post, call_stop, internal,
}

-- Tasks are taken in the order in which they were accepted, and each is running or finished.
pub record Kept (s : Executor) : Type 0 where
  pub in_order : s.accepted ≡ s.started ++ s.tasks
  pub once : (c : ℕ) → count c s.started ≡ count c s.running + count c s.finished

unfoldable KeptOption : Option Executor → Type 0
KeptOption none = Unit
KeptOption (some s) = Kept s

new_executor-Kept : (n : ℕ) → KeptOption (new_executor n)
unfolding new_executor KeptOption
new_executor-Kept zero = tt
new_executor-Kept (suc n) = record { in_order = refl; once = λ c. omega arith }

enqueue-Kept : (s : Executor) (task : ℕ) (flag : Bool) → Kept s → Kept (enqueue s task flag).0
unfolding enqueue
enqueue-Kept s task true k = k
enqueue-Kept s task false k = record {
  in_order = ap (λ l. l ++ task ∷ []) k.in_order ∙ append_assoc s.started s.tasks (task ∷ []);
  once = k.once;
}

post-Kept : (s : Executor) (task : Option ℕ) → Kept s → Kept (post s task).0
unfolding post
post-Kept s none k = k
post-Kept s (some task) k = enqueue-Kept s task s.stopping k

stop-Kept : (s : Executor) (flag : Bool) → Kept s → Kept (stop s flag)
unfolding stop
stop-Kept s true k = k
stop-Kept s false k = record { in_order = k.in_order; once = k.once }

wake_one-Kept : (s : Executor) (n : ℕ) → Kept s → Kept (wake_one s n)
unfolding wake_one
wake_one-Kept s zero k = k
wake_one-Kept s (suc n) k = record { in_order = k.in_order; once = k.once }

look-Kept :
    (s : Executor) (tasks : List ℕ) (flag : Bool)
    → s.tasks ≡ tasks
    → Kept s
    → Kept (look s tasks flag)
unfolding look
look-Kept s (task ∷ rest) flag e k = record {
  in_order =
      k.in_order ∙ ap (λ l. s.started ++ l) e ∙ sym (append_assoc s.started (task ∷ []) rest);
  once = λ c. omega (arith, k.once c, count-snoc c s.started task);
}
look-Kept s [] true e k = record { in_order = k.in_order; once = k.once }
look-Kept s [] false e k = record { in_order = k.in_order; once = k.once }

finish-Kept :
    (s : Executor) (before : List ℕ) (task : ℕ) (after : List ℕ)
    → s.running ≡ before ++ task ∷ after
    → Kept s
    → Kept (record s {
      running = before ++ after;
      finished = task ∷ s.finished;
      looking = s.looking + 1;
    })
finish-Kept s before task after e k = record {
  in_order = k.in_order;
  once = λ c. omega (
    arith,
    k.once c,
    ap (count c) e,
    count-append c before (task ∷ after),
    count-append c before after,
  );
}

Internal-Kept : {s t : Executor} → Internal s t → Kept s → Kept t
Internal-Kept {s = s} (notify_one n e) k =
    wake_one-Kept (record s { notifying = n }) s.asleep
      (record { in_order = k.in_order; once = k.once })
Internal-Kept {s = s} (wake_up n e) k = record { in_order = k.in_order; once = k.once }
Internal-Kept {s = s} (take_turn n e) k =
    look-Kept (record s { looking = n }) s.tasks s.stopping refl
      (record { in_order = k.in_order; once = k.once })
Internal-Kept {s = s} (finish before task after e) k = finish-Kept s before task after e k
Internal-Kept {s = s} (notify_all e) k = record { in_order = k.in_order; once = k.once }
Internal-Kept {s = s} (joined e l a r) k = record { in_order = k.in_order; once = k.once }

pub Kept-Reachable : {workers : ℕ} {s : Executor} → Reachable workers s → Kept s
unfolding KeptOption
Kept-Reachable {workers = n} (start e) = subst KeptOption e (new_executor-Kept n)
Kept-Reachable (call_post {s = s} r task) = post-Kept s task (Kept-Reachable r)
Kept-Reachable (call_stop {s = s} r) = stop-Kept s s.stopping (Kept-Reachable r)
Kept-Reachable (internal r i) = Internal-Kept i (Kept-Reachable r)
