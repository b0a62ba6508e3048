-- ===== src/Executor/Shutdown.antt =====
-- How `Stop` of source/concurrency/WorkerExecutor.cpp comes to its end.
use Prim.Native.Nat.{zero, suc}
use idtx_core.Base.{
  ℕ, ◌+◌, ◌*◌, ◌≤◌, ◌<◌, ◌≡◌, refl, ap, ◌⊎◌, inl, inr, Bool, true, false, List, [], ◌∷◌, arith,
  length, length-append,
}
use idtx_core.Executor.{
  Executor, Stopper, not_called, notifying_all, joining, returned, wake_one, look, Internal,
  notify_one, wake_up, take_turn, finish, notify_all, joined, Reachable,
}
use idtx_core.Executor.Invariant.{awake, Stands, Holds, Holds-Reachable, Internal-Holds}

abbrev stage : Stopper → ℕ
stage not_called = 0
stage notifying_all = 2
stage joining = 1
stage returned = 0

-- A bound on the steps that are left once the flag is set.
abbrev pub steps_left : Executor → ℕ
steps_left s =
    3 * length s.tasks
    + 2 * length s.running
    + s.looking
    + 2 * s.asleep
    + s.notifying
    + stage s.stopper

-- A run of steps, with their number.
pub data Run : ℕ → Executor → Executor → Type 0 where
  no_step : {s : Executor} → Run 0 s s
  step : {k : ℕ} {s t u : Executor} → Internal s t → Run k t u → Run (suc k) s u

-- A step keeps the flag and takes something off the bound.
abbrev Lowers : Executor → Executor → Type 0
Lowers s t = (t.stopping ≡ true) × (steps_left t < steps_left s)

wake_one-Lowers :
    (s : Executor) (n k : ℕ)
    → s.notifying ≡ suc n
    → s.asleep ≡ k
    → s.stopping ≡ true
    → Lowers s (wake_one (record s { notifying = n }) k)
unfolding wake_one
wake_one-Lowers s n zero e a f = (f, omega arith)
wake_one-Lowers s n (suc k) e a f = (f, omega arith)

look-Lowers :
    (s : Executor) (n : ℕ) (tasks : List ℕ) (flag : Bool)
    → s.looking ≡ suc n
    → s.tasks ≡ tasks
    → s.stopping ≡ flag
    → s.stopping ≡ true
    → Lowers s (look (record s { looking = n }) tasks flag)
unfolding look
look-Lowers s n (task ∷ rest) flag l t f g = (g, omega (arith, ap length t))
look-Lowers s n [] true l t f g = (g, omega arith)
look-Lowers s n [] false l t f g = cc

Internal-Lowers : {s t : Executor} → Internal s t → s.stopping ≡ true → Lowers s t
Internal-Lowers {s = s} (notify_one n e) f = wake_one-Lowers s n s.asleep e refl f
Internal-Lowers (wake_up n e) f = (f, omega arith)
Internal-Lowers {s = s} (take_turn n e) f = look-Lowers s n s.tasks s.stopping e refl refl f
Internal-Lowers (finish before task after e) f =
    (f, omega (arith, ap length e, length-append before (task ∷ after), length-append before after))
Internal-Lowers (notify_all e) f = (f, omega (arith, ap stage e))
Internal-Lowers (joined e l a r) f = (f, omega (arith, ap stage e))

-- The call has returned, or a step can be taken.
abbrev pub GoesOn : Executor → Type 0
GoesOn s = (s.stopper ≡ returned) ⊎ ((t : Executor) × Internal s t)

joining-GoesOn :
    (s : Executor) (l a : ℕ) (tasks : List ℕ)
    → s.stopper ≡ joining
    → s.looking ≡ l
    → s.asleep ≡ a
    → s.running ≡ tasks
    → GoesOn s
joining-GoesOn s (suc l) a tasks j e f r = inr (_, take_turn l e)
joining-GoesOn s zero (suc a) tasks j e f r = inr (_, wake_up a f)
joining-GoesOn s zero zero (task ∷ rest) j e f r = inr (_, finish [] task rest r)
joining-GoesOn s zero zero [] j e f r = inr (_, joined j e f r)

stopping-GoesOn :
    (s : Executor) (st : Stopper)
    → s.stopper ≡ st
    → Stands s.stopping s.asleep (awake s) st
    → s.stopping ≡ true
    → GoesOn s
stopping-GoesOn s not_called e h f = cc
stopping-GoesOn s notifying_all e h f = inr (_, notify_all e)
stopping-GoesOn s joining e h f = joining-GoesOn s s.looking s.asleep s.running e refl refl refl
stopping-GoesOn s returned e h f = inl e

Run-ends :
    {workers k : ℕ} {s t : Executor}
    → Run k s t
    → Holds workers s
    → s.stopping ≡ true
    → (k ≤ steps_left s) × GoesOn t
Run-ends {s = s} no_step h f = (omega arith, stopping-GoesOn s s.stopper refl h.stands f)
Run-ends (step i r) h f =
    let (g, lt) = Internal-Lowers i f in
    let (le, goes) = Run-ends r (Internal-Holds i h) g in (omega (arith, lt, le), goes)

-- Once the flag is set, the threads take no more than a bounded number of steps by themselves, in
-- whatever order and with whatever wake-ups; and as long as the call of `Stop` that set it has not
-- returned, a step can be taken. So that call returns, if every task that is taken ends.
pub stop_returns :
    {workers k : ℕ} {s t : Executor}
    → Reachable workers s
    → s.stopping ≡ true
    → Run k s t
    → (k ≤ steps_left s) × GoesOn t
stop_returns r f run = Run-ends run (Holds-Reachable r) f
