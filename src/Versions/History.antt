-- ===== src/Versions/History.antt =====
-- The calls that source/session/SessionVersions.cpp has received, newest first, and what they
-- mean for a client's update, said without the bookkeeping.
use idtx_core.Base.{
  ℕ, ◌≤◌, List, [], ◌∷◌, Str, Str-discrete, ℕ_discrete, max, ltb, ite, if◌then◌else◌,
}
use idtx_core.Versions.{
  SessionVersions, no_versions, record_change, record_sent, record_correction, UpdateBaseStatus,
  invalid_base, stale, current,
}

pub data Event : Type 0 where
  changed : Str → (seq writer : ℕ) → Event
  sent : (connection seq : ℕ) → Event
  corrected : (connection : ℕ) → Str → (seq : ℕ) → Event

unfoldable pub apply : SessionVersions → Event → SessionVersions
apply v (changed path seq writer) = record_change v path seq writer
apply v (sent connection seq) = record_sent v connection seq
apply v (corrected connection path seq) = record_correction v connection path seq

unfoldable pub replay : List Event → SessionVersions
replay [] = no_versions
replay (e ∷ h) = apply (replay h) e

-- The highest version with which somebody else than `sender` changed the prim.
unfoldable pub foreign_seq : ℕ → Str → List Event → ℕ
foreign_seq sender path [] = 0
foreign_seq sender path (changed p seq writer ∷ h) =
    ite (Str-discrete p path)
      (ite (ℕ_discrete writer sender) (foreign_seq sender path h)
        (max seq (foreign_seq sender path h)))
      (foreign_seq sender path h)
foreign_seq sender path (sent c seq ∷ h) = foreign_seq sender path h
foreign_seq sender path (corrected c p seq ∷ h) = foreign_seq sender path h

-- The highest version with which anybody changed the prim.
unfoldable pub change_seq : Str → List Event → ℕ
change_seq path [] = 0
change_seq path (changed p seq writer ∷ h) =
    ite (Str-discrete p path) (max seq (change_seq path h)) (change_seq path h)
change_seq path (sent c seq ∷ h) = change_seq path h
change_seq path (corrected c p seq ∷ h) = change_seq path h

-- The highest version that was sent to the connection, corrections included.
unfoldable pub sent_seq : ℕ → List Event → ℕ
sent_seq connection [] = 0
sent_seq connection (changed p seq writer ∷ h) = sent_seq connection h
sent_seq connection (sent c seq ∷ h) =
    ite (ℕ_discrete c connection) (max (sent_seq connection h) seq) (sent_seq connection h)
sent_seq connection (corrected c p seq ∷ h) =
    ite (ℕ_discrete c connection) (max (sent_seq connection h) seq) (sent_seq connection h)

-- The version of the last correction of the prim for the connection.
unfoldable pub corrected_seq : ℕ → Str → List Event → ℕ
corrected_seq connection path [] = 0
corrected_seq connection path (changed p seq writer ∷ h) = corrected_seq connection path h
corrected_seq connection path (sent c seq ∷ h) = corrected_seq connection path h
corrected_seq connection path (corrected c p seq ∷ h) =
    ite (ℕ_discrete c connection) (ite (Str-discrete p path) seq (corrected_seq connection path h))
      (corrected_seq connection path h)

-- The changes of each prim were recorded in the order of their versions.
abbrev pub IsOrdered : List Event → Type 0
IsOrdered [] = Unit {0}
IsOrdered (changed p seq writer ∷ h) = (change_seq p h ≤ seq) × IsOrdered h
IsOrdered (sent c seq ∷ h) = IsOrdered h
IsOrdered (corrected c p seq ∷ h) = IsOrdered h

-- The documented rule: a base that was never sent is invalid; a base that is older than a change
-- by somebody else, or than a correction for the sender, is stale.
unfoldable pub required_status : List Event → ℕ → Str → ℕ → UpdateBaseStatus
required_status h sender path base =
    if ltb (sent_seq sender h) base
    then invalid_base
    else if ltb base (foreign_seq sender path h)
    then stale
    else if ltb base (corrected_seq sender path h)
    then stale
    else current
