-- ===== src/Versions/Refinement.antt =====
-- The bookkeeping of source/session/SessionVersions.cpp answers as the history of calls demands.
use idtx_core.Base.{ℕ, ◌≤◌, ◌≡◌, ◌≢◌, refl, List, [], ◌∷◌, Str, arith, get_or}
use idtx_core.Versions.{
  PrimVersion, new_prim, max_sent, correction, latest_foreign, check_update, record_change,
  record_sent, record_correction,
}
use idtx_core.Versions.History.{
  Event, changed, sent, corrected, apply, replay, foreign_seq, change_seq, sent_seq, corrected_seq,
  IsOrdered, required_status,
}

pub max_sent-replay : (c : ℕ) (h : List Event) → max_sent (replay h) c ≡ sent_seq c h
unfolding max_sent replay apply sent_seq record_change record_sent record_correction
max_sent-replay c [] = refl
max_sent-replay c (changed p seq w ∷ h) = max_sent-replay c h
max_sent-replay c (sent d seq ∷ h) = ground (arith, max_sent-replay c h)
max_sent-replay c (corrected d p seq ∷ h) = ground (arith, max_sent-replay c h)

correction-replay :
    (c : ℕ) (path : Str) (h : List Event) → correction (replay h) c path ≡ corrected_seq c path h
unfolding correction replay apply corrected_seq record_change record_sent record_correction
correction-replay c path [] = refl
correction-replay c path (changed p seq w ∷ h) = correction-replay c path h
correction-replay c path (sent d seq ∷ h) = ground (arith, correction-replay c path h)
correction-replay c path (corrected d p seq ∷ h) = ground (arith, correction-replay c path h)

abbrev entry : List Event → Str → PrimVersion
entry h path = get_or ((replay h).prims path) new_prim

last_change_seq-replay :
    (path : Str) (h : List Event) → IsOrdered h → (entry h path).last_change_seq ≡ change_seq path h
unfolding replay apply change_seq record_change record_sent record_correction
last_change_seq-replay path [] o = refl
last_change_seq-replay path (changed p seq w ∷ h) o =
    ground (arith, last_change_seq-replay path h o.1)
last_change_seq-replay path (sent d seq ∷ h) o = last_change_seq-replay path h o
last_change_seq-replay path (corrected d p seq ∷ h) o = last_change_seq-replay path h o

foreign_before_run-le :
    (path : Str) (h : List Event)
    → IsOrdered h
    → (entry h path).foreign_before_run ≤ (entry h path).last_change_seq
unfolding replay apply record_change record_sent record_correction
foreign_before_run-le path [] o = omega arith
foreign_before_run-le path (changed p seq w ∷ h) o =
    ground (arith, foreign_before_run-le path h o.1, last_change_seq-replay path h o.1)
foreign_before_run-le path (sent d seq ∷ h) o = foreign_before_run-le path h o
foreign_before_run-le path (corrected d p seq ∷ h) o = foreign_before_run-le path h o

pub latest_foreign-replay :
    (sender : ℕ) (path : Str) (h : List Event)
    → sender ≢ 0
    → IsOrdered h
    → latest_foreign (replay h) sender path ≡ foreign_seq sender path h
unfolding latest_foreign replay apply foreign_seq record_change record_sent record_correction
latest_foreign-replay sender path [] s o = refl
latest_foreign-replay sender path (changed p seq w ∷ h) s o = ground (
  arith,
  latest_foreign-replay sender path h s o.1,
  last_change_seq-replay path h o.1,
  foreign_before_run-le path h o.1,
)
latest_foreign-replay sender path (sent d seq ∷ h) s o = latest_foreign-replay sender path h s o
latest_foreign-replay sender path (corrected d p seq ∷ h) s o =
    latest_foreign-replay sender path h s o

-- After any history of calls in which the changes of each prim come in the order of their
-- versions, `check_update` gives a connected client's update exactly the status that the rule of
-- the history gives it.
pub check_update-replay :
    (h : List Event) (sender : ℕ) (path : Str) (base : ℕ)
    → sender ≢ 0
    → IsOrdered h
    → check_update (replay h) sender path base ≡ required_status h sender path base
unfolding check_update required_status
check_update-replay h sender path base s o = ground (
  arith,
  max_sent-replay sender h,
  correction-replay sender path h,
  latest_foreign-replay sender path h s o,
)
