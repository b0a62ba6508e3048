-- ===== src/Session.antt =====
-- source/session: a session and the one consumer of its commands. Session.h gives the state,
-- SessionCommand.h the commands, SessionManager.cpp the frames (the protobuf messages) that clients
-- are sent. The consumer runs each command whole; clients come and go between commands.
pub mod Stage
pub mod Send
pub mod Notices
pub mod Snapshot
pub mod Handlers
pub mod Protocol
pub mod Refines
pub mod Registry
pub mod Run
pub mod History
pub mod Versioning
pub mod Answers
pub mod Rest
pub mod Settled
pub mod Echo
pub mod Outcomes
pub mod Announced
pub mod Stamps
pub mod Reports
mod Outdated
pub mod Sample
mod Tests
use idtx_core.Base.{ℕ, ◌+◌, Bool, true, false, Option, none, some, List, [], ◌∷◌, Str, u64}
use idtx_core.Versions.{SessionVersions, no_versions}
use idtx_core.Session.Stage.{StageOps, PrimType, CreatedPrim}

-- The contents of a `BaseMessage` that the server sends; the last number is its `server_seq`.
pub data Frame (Transform Shape : Type 0) : Type 0 where
  handshake : Frame Transform Shape
  xform_broadcast : Str → Transform → ℕ → Frame Transform Shape
  create_prim_broadcast : (parent : Str) → PrimType → CreatedPrim Shape → ℕ → Frame Transform Shape
  set_prim_active_broadcast : Str → (active : Bool) → ℕ → Frame Transform Shape
  snapshot_complete : ℕ → Frame Transform Shape
  ack : (request_id : ℕ) → (error : Option Str) → ℕ → Frame Transform Shape

-- `server_seq`, which is 0 where it is not set.
abbrev pub frame_seq : {T S : Type 0} → Frame T S → ℕ
frame_seq handshake = 0
frame_seq (xform_broadcast path t seq) = seq
frame_seq (create_prim_broadcast parent type prim seq) = seq
frame_seq (set_prim_active_broadcast path active seq) = seq
frame_seq (snapshot_complete seq) = seq
frame_seq (ack request_id error seq) = seq

pub data SessionMode : Type 0 where
  single_edit single_runtime collaborative_edit collaborative_runtime : SessionMode

-- `SessionCommand`. The promise of a commit is the caller's.
pub data Command (Update : Type 0) : Type 0 where
  transform : Update → (origin request_id base_seq : ℕ) → Command Update
  join : (connection : ℕ) → Command Update
  create_prim : (parent : Str) → PrimType → (origin request_id : ℕ) → Command Update
  set_prim_active : Str → (active : Bool) → (origin request_id : ℕ) → Command Update
  commit : Command Update
  reload : Command Update
  flush : Command Update
  correction : (connection : ℕ) → Str → Command Update

-- `server_seq` is the number of versions handed out; the code reads and stamps it modulo 2 ^ 64.
-- The names, files and dates of a session are left out, with the objects around it.
-- `sent` lists what `send_binary` was called with, newest first, and `queued` holds the marks of
-- the pending corrections of each connection.
pub record Session (ops : StageOps) : Type 0 where
  pub stage : Option ops.Stage
  pub mode : SessionMode
  pub clients : List ℕ
  pub empty_since : Option ℕ
  pub current_origin : ℕ
  pub reload_in_progress : Bool
  pub create_in_progress : Bool
  pub set_active_in_progress : Bool
  pub server_seq : ℕ
  pub versions : SessionVersions
  pub dirty : Bool
  pub queued : ℕ → Str → Bool
  pub sent : List (ℕ × Frame ops.Transform ops.Shape)

module _ {ops : StageOps} where
  abbrev pub seq_of : Session ops → ℕ
  seq_of s = u64 s.server_seq

  -- `server_seq.fetch_add(1)`
  abbrev pub bump : Session ops → Session ops
  bump s = record s { server_seq = s.server_seq + 1 }
