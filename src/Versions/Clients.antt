-- ===== src/Versions/Clients.antt =====
-- What the rule of source/session/SessionVersions.cpp means for the clients of a session.
use idtx_core.Base.{
  ℕ, ◌<◌, ◌≡◌, ◌≢◌, ◌↔◌, refl, sym, ◌∙◌, List, [], ◌∷◌, ◌++◌, Str, arith, ◌≤◌, max, ite,
  Str-discrete, ℕ_discrete,
}
use idtx_core.Versions.{SessionVersions, current, invalid_base, check_update, max_sent}
use idtx_core.Versions.History.{
  Event, changed, sent, corrected, replay, foreign_seq, sent_seq, corrected_seq, IsOrdered,
  required_status,
}
use idtx_core.Versions.Refinement.{check_update-replay}

-- A client's own run of changes, newest first.
abbrev pub OwnRun : ℕ → List Event → Type 0
OwnRun sender [] = Unit {0}
OwnRun sender (changed p seq w ∷ run) = (w ≡ sender) × OwnRun sender run
OwnRun sender (sent c seq ∷ run) = ⊥
OwnRun sender (corrected c p seq ∷ run) = ⊥

required_status-OwnRun :
    (sender base : ℕ) (path : Str) (run h : List Event)
    → OwnRun sender run
    → required_status (run ++ h) sender path base ≡ required_status h sender path base
unfolding required_status foreign_seq sent_seq corrected_seq
required_status-OwnRun sender base path [] h r = refl
required_status-OwnRun sender base path (changed p seq w ∷ run) h r =
    ground (arith, required_status-OwnRun sender base path run h r.1)
required_status-OwnRun sender base path (sent c seq ∷ run) h r = absurd r
required_status-OwnRun sender base path (corrected c p seq ∷ run) h r = absurd r

IsOrdered-rest : (run h : List Event) → IsOrdered (run ++ h) → IsOrdered h
IsOrdered-rest [] h o = o
IsOrdered-rest (changed p seq w ∷ run) h o = IsOrdered-rest run h o.1
IsOrdered-rest (sent c seq ∷ run) h o = IsOrdered-rest run h o
IsOrdered-rest (corrected c p seq ∷ run) h o = IsOrdered-rest run h o

-- A run of changes by a client, to this prim or to others, leaves the status of each of the
-- client's updates as it was before the run: a drag does not reject itself.
own_changes_keep_status :
    (run h : List Event) (sender : ℕ) (path : Str) (base : ℕ)
    → sender ≢ 0
    → IsOrdered (run ++ h)
    → OwnRun sender run
    → check_update (replay (run ++ h)) sender path base ≡ check_update (replay h) sender path base
own_changes_keep_status run h sender path base s o r =
    check_update-replay (run ++ h) sender path base s o
    ∙ required_status-OwnRun sender base path run h r
    ∙ sym (check_update-replay h sender path base s (IsOrdered-rest run h o))

pub foreign_seq-lt :
    (later h : List Event) (sender base : ℕ) (path : Str)
    → base < foreign_seq sender path h
    → base < foreign_seq sender path (later ++ h)
unfolding foreign_seq
foreign_seq-lt [] h sender base path lt = lt
foreign_seq-lt (changed p seq w ∷ later) h sender base path lt =
    ground (arith, foreign_seq-lt later h sender base path lt)
foreign_seq-lt (sent c seq ∷ later) h sender base path lt =
    foreign_seq-lt later h sender base path lt
foreign_seq-lt (corrected c p seq ∷ later) h sender base path lt =
    foreign_seq-lt later h sender base path lt

-- A change counts no less on top of a higher version.
change_mono :
    {P Q : Type 0} (same : Dec P) (own : Dec Q) (seq a b : ℕ)
    → a ≤ b
    → ite same (ite own a (max seq a)) a ≤ ite same (ite own b (max seq b)) b
change_mono (yes p) (yes q) seq a b le = le
change_mono (yes p) (no q) seq a b le = omega arith
change_mono (no p) own seq a b le = le

-- The older part of a history does not lower what the newer part says.
pub foreign_seq-front :
    (es h : List Event) (sender : ℕ) (path : Str)
    → foreign_seq sender path es ≤ foreign_seq sender path (es ++ h)
unfolding foreign_seq
foreign_seq-front [] h sender path = omega arith
foreign_seq-front (changed p seq w ∷ es) h sender path =
    change_mono (Str-discrete p path) (ℕ_discrete w sender) seq (foreign_seq sender path es)
      (foreign_seq sender path (es ++ h)) (foreign_seq-front es h sender path)
foreign_seq-front (sent c seq ∷ es) h sender path = foreign_seq-front es h sender path
foreign_seq-front (corrected c p seq ∷ es) h sender path = foreign_seq-front es h sender path

pub foreign_seq-conflict :
    (h : List Event) (sender writer seq base : ℕ) (path : Str)
    → writer ≢ sender
    → base < seq
    → base < foreign_seq sender path (changed path seq writer ∷ h)
unfolding foreign_seq
foreign_seq-conflict h sender writer seq base path w lt = ground arith

pub not_current :
    (h : List Event) (sender base : ℕ) (path : Str)
    → base < foreign_seq sender path h
    → required_status h sender path base ≢ current
unfolding required_status
not_current h sender base path lt = ground arith

-- Once another writer (a connection or the server) has changed the prim with a version above the
-- base, an update on that base is never accepted, whatever is recorded afterwards.
pub conflict_is_final :
    (later h : List Event) (sender writer seq base : ℕ) (path : Str)
    → sender ≢ 0
    → writer ≢ sender
    → base < seq
    → IsOrdered (later ++ changed path seq writer ∷ h)
    → check_update (replay (later ++ changed path seq writer ∷ h)) sender path base ≢ current
conflict_is_final later h sender writer seq base path s w lt o =
    let all = later ++ changed path seq writer ∷ h in
    ground (
      arith,
      check_update-replay all sender path base s o,
      not_current all sender base path
          (foreign_seq-lt later (changed path seq writer ∷ h) sender base path conflict),
    )
  where
    conflict : base < foreign_seq sender path (changed path seq writer ∷ h)
    conflict = foreign_seq-conflict h sender writer seq base path w lt

-- A base is invalid exactly if it is above the highest version that was recorded as sent.
pub check_update-eq-invalid_base :
    (v : SessionVersions) (sender : ℕ) (path : Str) (base : ℕ)
    → (check_update v sender path base ≡ invalid_base) ↔ (max_sent v sender < base)
unfolding check_update
check_update-eq-invalid_base v sender path base = (λ e. ground arith, λ e. ground arith)
