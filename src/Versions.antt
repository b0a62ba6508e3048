-- ===== src/Versions.antt =====
-- source/session/SessionVersions.h and SessionVersions.cpp: which versions changed which prim,
-- and which were sent to which connection. The mutex makes every call one step.
pub mod History
pub mod Refinement
pub mod Clients
mod Tests
use idtx_core.Base.{
  ℕ, Option, none, some, Bool, true, false, Str, Str-discrete, get_or, update, ltb, ◌==◌, ◌||◌, not,
  if◌then◌else◌, max, ℕ_discrete,
}

pub data UpdateBaseStatus : Type 0 where
  current stale invalid_base : UpdateBaseStatus

pub record PrimVersion : Type 0 where
  pub last_change_seq : ℕ
  pub last_writer : ℕ
  pub foreign_before_run : ℕ

pub record ConnectionVersions : Type 0 where
  pub max_sent_seq : ℕ
  pub correction_seq : Str → Option ℕ

pub record SessionVersions : Type 0 where
  pub prims : Str → Option PrimVersion
  pub connections : ℕ → Option ConnectionVersions

-- The value that `operator[]` makes for a new key.
abbrev pub new_prim : PrimVersion
new_prim = record { last_change_seq = 0; last_writer = 0; foreign_before_run = 0 }

abbrev pub new_connection : ConnectionVersions
new_connection = record { max_sent_seq = 0; correction_seq = λ _. none }

abbrev pub no_versions : SessionVersions
no_versions = record { prims = λ _. none; connections = λ _. none }

pub max_sent : SessionVersions → ℕ → ℕ
max_sent v sender = elim (v.connections sender) [ none ↦ 0 | some c ↦ c.max_sent_seq ]

pub correction : SessionVersions → ℕ → Str → ℕ
correction v sender prim_path = elim (v.connections sender) [
  | none ↦ 0
  | some c ↦ get_or (c.correction_seq prim_path) 0
]

unfoldable pub latest_foreign : SessionVersions → ℕ → Str → ℕ
latest_foreign v sender prim_path = elim (v.prims prim_path) [
  | none ↦ 0
  | some p ↦ if p.last_writer == sender then p.foreign_before_run else p.last_change_seq
]

unfoldable pub check_update : SessionVersions → ℕ → Str → ℕ → UpdateBaseStatus
unfolding max_sent correction latest_foreign
check_update v sender prim_path base =
    if ltb (max_sent v sender) base
    then invalid_base
    else if ltb base (max (latest_foreign v sender prim_path) (correction v sender prim_path))
    then stale
    else current

-- What a change makes of the prim's entry.
abbrev pub change_prim : PrimVersion → ℕ → ℕ → PrimVersion
change_prim p seq writer =
    if writer == 0 || not (p.last_writer == writer)
    then record {
      last_change_seq = seq;
      last_writer = writer;
      foreign_before_run = p.last_change_seq;
    }
    else record p { last_change_seq = seq }

unfoldable pub record_change : SessionVersions → Str → ℕ → ℕ → SessionVersions
record_change v prim_path seq writer = record v {
  prims =
      update Str-discrete v.prims prim_path
        (some (change_prim (get_or (v.prims prim_path) new_prim) seq writer));
}

abbrev pub send_to : ConnectionVersions → ℕ → ConnectionVersions
send_to c seq = record c { max_sent_seq = max c.max_sent_seq seq }

unfoldable pub record_sent : SessionVersions → ℕ → ℕ → SessionVersions
record_sent v connection seq = record v {
  connections =
      update ℕ_discrete v.connections connection
        (some (send_to (get_or (v.connections connection) new_connection) seq));
}

unfoldable pub record_correction : SessionVersions → ℕ → Str → ℕ → SessionVersions
record_correction v connection prim_path seq =
    let c = get_or (v.connections connection) new_connection in
    record v {
      connections = update ℕ_discrete v.connections connection (
          some (record {
            max_sent_seq = max c.max_sent_seq seq;
            correction_seq = update Str-discrete c.correction_seq prim_path (some seq);
          }));
    }
