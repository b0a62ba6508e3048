-- ===== src/Session/Handlers.antt =====
-- The `HandleCommand` overloads of source/session/SessionManager.cpp.
use idtx_core.Base.{
  ℕ, Bool, true, false, Option, none, some, Str, Str-discrete, ℕ_discrete, codes, update,
  if◌then◌else◌,
}
use idtx_core.Versions.{UpdateBaseStatus, current, stale, invalid_base, check_update, record_change}
use idtx_core.Session.Stage.{
  StageOps, Authored, PrimType, CreatedPrim, SetActiveStatus, ok, invalid_path, not_found,
  not_deletable, already_in_state, failed,
}
use idtx_core.Session.{
  Session, Frame, Command, create_prim_broadcast, set_prim_active_broadcast, transform, join,
  create_prim, set_prim_active, commit, reload, flush, correction, seq_of, bump,
}
use idtx_core.Session.Send.{send_ack, broadcast_to_all, send_correction}
use idtx_core.Session.Notices.{run_moments}
use idtx_core.Session.Snapshot.{send_snapshot}

pub data CommitStatus : Type 0 where
  committed unknown_session nothing_to_commit write_failed : CommitStatus

module _ {ops : StageOps} where
  -- An authoring call on behalf of a connection, with the notices that it fires.
  abbrev pub authored : {R : Type 0} → Session ops → ℕ → Authored ops.Stage R → Session ops
  authored s origin a =
      let s' = run_moments a.moments (record s { current_origin = origin }) in
      record s' { stage = some a.stage; current_origin = 0 }

  -- From the result of `TransformDispatcher::Apply` on.
  unfoldable pub finish_transform : Session ops → Str → ℕ → ℕ → Bool → Session ops
  finish_transform s path origin request_id true =
      send_ack (record s { dirty = true }) origin request_id none
  finish_transform s path origin request_id false =
      send_correction (send_ack s origin request_id (some (codes "apply_failed"))) origin path

  unfoldable pub apply_transform : Session ops → ops.Update → ℕ → ℕ → Option ops.Stage → Session ops
  apply_transform s u origin request_id none =
      finish_transform (record s { current_origin = 0 }) (ops.update_path u) origin request_id false
  apply_transform s u origin request_id (some stage) =
      let a = ops.apply stage u in
      finish_transform (authored s origin a) (ops.update_path u) origin request_id a.result

  unfoldable pub checked_transform :
      Session ops → ops.Update → ℕ → ℕ → UpdateBaseStatus → Session ops
  checked_transform s u origin request_id stale =
      send_ack s origin request_id (some (codes "stale"))
  checked_transform s u origin request_id invalid_base =
      send_ack s origin request_id (some (codes "invalid_base"))
  checked_transform s u origin request_id current = apply_transform s u origin request_id s.stage

  unfoldable pub handle_transform : Session ops → ops.Update → ℕ → ℕ → ℕ → Session ops
  handle_transform s u origin request_id base_seq =
      checked_transform s u origin request_id
        (check_update s.versions origin (ops.update_path u) base_seq)

  -- One version for a change that is announced to all, and the acknowledgement of it.
  unfoldable pub announced :
      Session ops → Str → (ℕ → Frame ops.Transform ops.Shape) → ℕ → ℕ → Session ops
  announced s path frame origin request_id =
      let s' = bump (record s { dirty = true }) in
      let seq = seq_of s' in
      let s'' : Session ops = record s' { versions = record_change s'.versions path seq origin } in
      send_ack (broadcast_to_all s'' (frame seq)) origin request_id none

  unfoldable pub finish_create :
      Session ops → Str → PrimType → ℕ → ℕ → Option (CreatedPrim ops.Shape) → Session ops
  finish_create s parent type origin request_id none =
      send_ack s origin request_id (some (codes "invalid_parent"))
  finish_create s parent type origin request_id (some prim) =
      announced s prim.prim_path (create_prim_broadcast parent type prim) origin request_id

  unfoldable pub handle_create :
      Session ops → Str → PrimType → ℕ → ℕ → Option ops.Stage → Session ops
  handle_create s parent type origin request_id none =
      send_ack s origin request_id (some (codes "apply_failed"))
  handle_create s parent type origin request_id (some stage) =
      let a = ops.create stage parent type in
      let s' = authored (record s { create_in_progress = true }) origin a in
      finish_create (record s' { create_in_progress = false }) parent type origin request_id
        a.result

  unfoldable pub finish_set_active :
      Session ops → Str → Bool → ℕ → ℕ → SetActiveStatus → Session ops
  finish_set_active s path active origin request_id invalid_path =
      send_ack s origin request_id (some (codes "unknown_prim"))
  finish_set_active s path active origin request_id not_found =
      send_ack s origin request_id (some (codes "unknown_prim"))
  finish_set_active s path active origin request_id not_deletable =
      send_ack s origin request_id (some (codes "not_deletable"))
  finish_set_active s path active origin request_id failed =
      send_ack s origin request_id (some (codes "apply_failed"))
  finish_set_active s path active origin request_id already_in_state =
      send_ack s origin request_id none
  finish_set_active s path active origin request_id ok =
      announced s path (set_prim_active_broadcast path active) origin request_id

  unfoldable pub handle_set_active :
      Session ops → Str → Bool → ℕ → ℕ → Option ops.Stage → Session ops
  handle_set_active s path active origin request_id none =
      send_ack s origin request_id (some (codes "apply_failed"))
  handle_set_active s path active origin request_id (some stage) =
      let a = ops.set_active stage path active in
      let s' = authored (record s { set_active_in_progress = true }) origin a in
      finish_set_active (record s' { set_active_in_progress = false }) path active origin request_id
        a.result

  -- `ReloadRootLayer`, from the reload's answer on; `none` where there is no root layer.
  unfoldable pub reloaded : Session ops → Option (Authored ops.Stage Bool) → Session ops
  reloaded s none = s
  reloaded s (some a) =
      let s' = authored (record s { reload_in_progress = true }) 0 a in
      record s' { reload_in_progress = false }

  unfoldable pub reload_root_layer : Session ops → Option ops.Stage → Session ops
  reload_root_layer s none = s
  reload_root_layer s (some stage) = reloaded s (ops.reload_root stage)

  -- `CommitOverrides`, from the answer of `StageCommitter::Commit` on.
  unfoldable pub finish_commit :
      Session ops → Bool → ops.Stage × Option Str → Session ops × CommitStatus
  finish_commit s reload_root (stage, some error) = (record s { stage = some stage }, write_failed)
  finish_commit s reload_root (stage, none) =
      let s' : Session ops = record s { stage = some stage; dirty = false } in
      (if reload_root then reload_root_layer s' (some stage) else s', committed)

  unfoldable pub commit_layer :
      Session ops → Bool → ops.Stage → Option ops.Layer → Session ops × CommitStatus
  commit_layer s reload_root stage none = (s, nothing_to_commit)
  commit_layer s reload_root stage (some layer) =
      if ops.is_empty layer
      then (s, nothing_to_commit)
      else finish_commit s reload_root (ops.commit stage)

  unfoldable pub commit_overrides :
      Session ops → Bool → Option ops.Stage → Session ops × CommitStatus
  commit_overrides s reload_root none = (s, unknown_session)
  commit_overrides s reload_root (some stage) =
      commit_layer s reload_root stage (ops.session_layer stage)

  -- The layer is saved; a failure leaves the session dirty, for the next flush.
  unfoldable pub save_layer : Session ops → Option ops.Layer → Session ops
  save_layer s none = s
  save_layer s (some layer) = if ops.save layer then s else record s { dirty = true }

  unfoldable pub handle_flush : Session ops → Option ops.Stage → Session ops
  handle_flush s none = s
  handle_flush s (some stage) =
      if s.dirty then save_layer (record s { dirty = false }) (ops.session_layer stage) else s

  unfoldable pub handle_correction : Session ops → ℕ → Str → Session ops
  handle_correction s c path =
      send_correction
        (record s {
          queued = update ℕ_discrete s.queued c (update Str-discrete (s.queued c) path false);
        })
        c path

  -- `HandleCommand`: the overload for the command. Of a commit, the caller's result is left out.
  unfoldable pub handle : Session ops → Command ops.Update → Session ops
  handle s (transform u origin request_id base_seq) =
      handle_transform s u origin request_id base_seq
  handle s (join c) = send_snapshot s c s.stage
  handle s (create_prim parent type origin request_id) =
      handle_create s parent type origin request_id s.stage
  handle s (set_prim_active path active origin request_id) =
      handle_set_active s path active origin request_id s.stage
  handle s commit = (commit_overrides s true s.stage).0
  handle s reload = reload_root_layer s s.stage
  handle s flush = handle_flush s s.stage
  handle s (correction c path) = handle_correction s c path
