-- ===== src/Session/Refines.antt =====
-- The consumer of source/session/SessionManager.cpp takes the steps of the protocol only.
pub mod Sends
pub mod Notices
pub mod Snapshot
use idtx_core.Base.{
  ℕ, codes, update, ℕ_discrete, Str-discrete, ◌+◌, ◌≤◌, ◌≡◌, refl, sym, ap, ◌∙◌, Bool, true, false,
  not, ◌&&◌, ◌||◌, Option, none, some, List, [], ◌∷◌, ◌++◌, Str, ◌==◌, leb, if◌then◌else◌, arith,
  u64, map,
}
use mathlib.Core.Path.{subst}
use mathlib.Core.List.{append_assoc}
use idtx_core.Versions.{record_change}
use idtx_core.Versions.History.{Event, sent, changed, corrected}
use idtx_core.Session.Stage.{
  StageOps, Notice, Authored, PrimType, CreatedPrim, PrimSpec, SetActiveStatus, ok, invalid_path,
  not_found, not_deletable, already_in_state, failed,
}
use idtx_core.Session.{
  Session, Frame, Command, transform, join, create_prim, set_prim_active, commit, reload, flush,
  correction, ack, xform_broadcast, create_prim_broadcast, set_prim_active_broadcast,
  snapshot_complete, frame_seq, seq_of, bump,
}
use idtx_core.Session.Send.{
  send, note_sent, is_client, reaches, send_ack, broadcast, broadcast_to_all, broadcast_read,
  broadcast_resolved_transform, transform_of, correct, correct_read, correct_at, send_correction,
}
use idtx_core.Session.Protocol.{
  IsQuiet, HaveSeq, Moves, here, quiet, step, deliver, deliver_all, change, Ext,
}
use idtx_core.Session.Protocol
use idtx_core.Versions.{UpdateBaseStatus, current, stale, invalid_base, check_update}
use idtx_core.Session.Notices.{run_moments}
use idtx_core.Session.Handlers.{
  authored, finish_transform, apply_transform, checked_transform, handle_transform, announced,
  finish_create, handle_create, finish_set_active, handle_set_active, reloaded, reload_root_layer,
  finish_commit, nothing_to_commit, commit_layer, commit_overrides, save_layer, handle_flush,
  handle_correction, handle,
}
use idtx_core.Session.Refines.Sends.{
  either_way, Ext-quiet, Ext-step, Ext-change, Ext-send_ack, Ext-broadcast_to_all,
  Ext-send_correction,
}
use idtx_core.Session.Refines.Notices.{Ext-run_moments}
use idtx_core.Session.Refines.Snapshot.{Ext-send_snapshot}

module _ {ops : StageOps} (s : Session ops) where
  -- A state that differs in what the protocol does not speak of.
  pub Ext-same :
      (t u : Session ops)
      → u.server_seq ≡ t.server_seq
      → u.versions ≡ t.versions
      → u.sent ≡ t.sent
      → Ext s t
      → Ext s u
  Ext-same t u a b c x =
      Ext-quiet s t u (record { same_seq = a; same_versions = b; same_sent = c }) x

  Ext-authored :
      {R : Type 0}
      → (t : Session ops) (origin : ℕ) (a : Authored ops.Stage R) → Ext s t
      → Ext s (authored t origin a)
  Ext-authored t origin a x =
      let t' = record t { current_origin = origin } in
      let t'' = run_moments a.moments t' in
      Ext-same t'' (authored t origin a) refl refl refl
        (Ext-run_moments s a.moments t' (Ext-same t t' refl refl refl x))

  pub Ext-finish_transform :
      (t : Session ops) (path : Str) (origin request_id : ℕ) (result : Bool)
      → Ext s t
      → Ext s (finish_transform t path origin request_id result)
  unfolding finish_transform
  Ext-finish_transform t path origin request_id true x =
      let t' = record t { dirty = true } in
      Ext-send_ack s t' origin request_id none (Ext-same t t' refl refl refl x)
  Ext-finish_transform t path origin request_id false x =
      let error = some (codes "apply_failed") in
      Ext-send_correction s (send_ack t origin request_id error) origin path
        (Ext-send_ack s t origin request_id error x)

  Ext-apply_transform :
      (t : Session ops) (u : ops.Update) (origin request_id : ℕ) (o : Option ops.Stage)
      → Ext s t
      → Ext s (apply_transform t u origin request_id o)
  unfolding apply_transform
  Ext-apply_transform t u origin request_id none x =
      let t' = record t { current_origin = 0 } in
      Ext-finish_transform t' (ops.update_path u) origin request_id false
        (Ext-same t t' refl refl refl x)
  Ext-apply_transform t u origin request_id (some stage) x =
      let a = ops.apply stage u in
      Ext-finish_transform (authored t origin a) (ops.update_path u) origin request_id a.result
        (Ext-authored t origin a x)

  Ext-checked_transform :
      (t : Session ops) (u : ops.Update) (origin request_id : ℕ) (status : UpdateBaseStatus)
      → Ext s t
      → Ext s (checked_transform t u origin request_id status)
  unfolding checked_transform
  Ext-checked_transform t u origin request_id stale x =
      Ext-send_ack s t origin request_id (some (codes "stale")) x
  Ext-checked_transform t u origin request_id invalid_base x =
      Ext-send_ack s t origin request_id (some (codes "invalid_base")) x
  Ext-checked_transform t u origin request_id current x =
      Ext-apply_transform t u origin request_id t.stage x

  -- A version for a change that is announced to all, and the acknowledgement.
  Ext-announced :
      (t : Session ops) (path : Str) (frame : ℕ → Frame ops.Transform ops.Shape)
      (origin request_id : ℕ)
      → ((n : ℕ) → frame_seq (frame n) ≡ n)
      → Ext s t
      → Ext s (announced t path frame origin request_id)
  unfolding announced
  Ext-announced t path frame origin request_id e x =
      let t' = bump (record t { dirty = true }) in
      let seq = seq_of t' in
      let t'' = record t' { versions = record_change t'.versions path seq origin } in
      Ext-send_ack s (broadcast_to_all t'' (frame seq)) origin request_id none (
        Ext-broadcast_to_all s t'' (frame seq) (e seq) (
          Ext-change s t' path seq origin refl (
            Ext-step s (record t { dirty = true })
              (Ext-same t (record t { dirty = true }) refl refl refl x))))

  Ext-finish_create :
      (t : Session ops) (parent : Str) (type : PrimType) (origin request_id : ℕ)
      (o : Option (CreatedPrim ops.Shape))
      → Ext s t
      → Ext s (finish_create t parent type origin request_id o)
  unfolding finish_create
  Ext-finish_create t parent type origin request_id none x =
      Ext-send_ack s t origin request_id (some (codes "invalid_parent")) x
  Ext-finish_create t parent type origin request_id (some prim) x =
      Ext-announced t prim.prim_path (create_prim_broadcast parent type prim) origin request_id
        (λ n. refl) x

  Ext-handle_create :
      (t : Session ops) (parent : Str) (type : PrimType) (origin request_id : ℕ)
      (o : Option ops.Stage)
      → Ext s t
      → Ext s (handle_create t parent type origin request_id o)
  unfolding handle_create
  Ext-handle_create t parent type origin request_id none x =
      Ext-send_ack s t origin request_id (some (codes "apply_failed")) x
  Ext-handle_create t parent type origin request_id (some stage) x =
      let a = ops.create stage parent type in
      let t0 = record t { create_in_progress = true } in
      let t' = authored t0 origin a in
      let t'' = record t' { create_in_progress = false } in
      Ext-finish_create t'' parent type origin request_id a.result
        (Ext-same t' t'' refl refl refl (Ext-authored t0 origin a (Ext-same t t0 refl refl refl x)))

  Ext-finish_set_active :
      (t : Session ops) (path : Str) (active : Bool) (origin request_id : ℕ)
      (status : SetActiveStatus)
      → Ext s t
      → Ext s (finish_set_active t path active origin request_id status)
  unfolding finish_set_active
  Ext-finish_set_active t path active origin request_id invalid_path x =
      Ext-send_ack s t origin request_id (some (codes "unknown_prim")) x
  Ext-finish_set_active t path active origin request_id not_found x =
      Ext-send_ack s t origin request_id (some (codes "unknown_prim")) x
  Ext-finish_set_active t path active origin request_id not_deletable x =
      Ext-send_ack s t origin request_id (some (codes "not_deletable")) x
  Ext-finish_set_active t path active origin request_id failed x =
      Ext-send_ack s t origin request_id (some (codes "apply_failed")) x
  Ext-finish_set_active t path active origin request_id already_in_state x =
      Ext-send_ack s t origin request_id none x
  Ext-finish_set_active t path active origin request_id ok x =
      Ext-announced t path (set_prim_active_broadcast path active) origin request_id (λ n. refl) x

  Ext-handle_set_active :
      (t : Session ops) (path : Str) (active : Bool) (origin request_id : ℕ) (o : Option ops.Stage)
      → Ext s t
      → Ext s (handle_set_active t path active origin request_id o)
  unfolding handle_set_active
  Ext-handle_set_active t path active origin request_id none x =
      Ext-send_ack s t origin request_id (some (codes "apply_failed")) x
  Ext-handle_set_active t path active origin request_id (some stage) x =
      let a = ops.set_active stage path active in
      let t0 = record t { set_active_in_progress = true } in
      let t' = authored t0 origin a in
      let t'' = record t' { set_active_in_progress = false } in
      Ext-finish_set_active t'' path active origin request_id a.result
        (Ext-same t' t'' refl refl refl (Ext-authored t0 origin a (Ext-same t t0 refl refl refl x)))

  Ext-reloaded :
      (t : Session ops) (o : Option (Authored ops.Stage Bool)) → Ext s t → Ext s (reloaded t o)
  unfolding reloaded
  Ext-reloaded t none x = x
  Ext-reloaded t (some a) x =
      let t0 = record t { reload_in_progress = true } in
      let t' = authored t0 0 a in
      Ext-same t' (record t' { reload_in_progress = false }) refl refl refl
        (Ext-authored t0 0 a (Ext-same t t0 refl refl refl x))

  Ext-reload_root_layer :
      (t : Session ops) (o : Option ops.Stage) → Ext s t → Ext s (reload_root_layer t o)
  unfolding reload_root_layer
  Ext-reload_root_layer t none x = x
  Ext-reload_root_layer t (some stage) x = Ext-reloaded t (ops.reload_root stage) x

  Ext-finish_commit :
      (t : Session ops) (reload_root : Bool) (r : ops.Stage × Option Str)
      → Ext s t
      → Ext s (finish_commit t reload_root r).0
  unfolding finish_commit
  Ext-finish_commit t reload_root (stage, some error) x =
      Ext-same t (record t { stage = some stage }) refl refl refl x
  Ext-finish_commit t reload_root (stage, none) x =
      let t' = record t { stage = some stage; dirty = false } in
      let x' = Ext-same t t' refl refl refl x in
      either_way (Ext s) reload_root (reload_root_layer t' (some stage)) t'
        (Ext-reload_root_layer t' (some stage) x') x'

  Ext-commit_layer :
      (t : Session ops) (reload_root : Bool) (stage : ops.Stage) (o : Option ops.Layer)
      → Ext s t
      → Ext s (commit_layer t reload_root stage o).0
  unfolding commit_layer
  Ext-commit_layer t reload_root stage none x = x
  Ext-commit_layer t reload_root stage (some layer) x =
      either_way (λ r. Ext s r.0) (ops.is_empty layer) (t, nothing_to_commit)
        (finish_commit t reload_root (ops.commit stage)) x
        (Ext-finish_commit t reload_root (ops.commit stage) x)

  Ext-commit_overrides :
      (t : Session ops) (reload_root : Bool) (o : Option ops.Stage)
      → Ext s t
      → Ext s (commit_overrides t reload_root o).0
  unfolding commit_overrides
  Ext-commit_overrides t reload_root none x = x
  Ext-commit_overrides t reload_root (some stage) x =
      Ext-commit_layer t reload_root stage (ops.session_layer stage) x

  Ext-save_layer : (t : Session ops) (o : Option ops.Layer) → Ext s t → Ext s (save_layer t o)
  unfolding save_layer
  Ext-save_layer t none x = x
  Ext-save_layer t (some layer) x =
      either_way (Ext s) (ops.save layer) t (record t { dirty = true }) x
        (Ext-same t (record t { dirty = true }) refl refl refl x)

  Ext-handle_flush : (t : Session ops) (o : Option ops.Stage) → Ext s t → Ext s (handle_flush t o)
  unfolding handle_flush
  Ext-handle_flush t none x = x
  Ext-handle_flush t (some stage) x =
      let t' = record t { dirty = false } in
      either_way (Ext s) t.dirty (save_layer t' (ops.session_layer stage)) t
        (Ext-save_layer t' (ops.session_layer stage) (Ext-same t t' refl refl refl x)) x

  -- Whatever the command, its handler takes steps of the protocol only.
  pub Ext-handle : (t : Session ops) (c : Command ops.Update) → Ext s t → Ext s (handle t c)
  unfolding handle handle_transform handle_correction
  Ext-handle t (transform u origin request_id base_seq) x =
      Ext-checked_transform t u origin request_id
        (check_update t.versions origin (ops.update_path u) base_seq) x
  Ext-handle t (join c) x = Ext-send_snapshot s t c t.stage x
  Ext-handle t (create_prim parent type origin request_id) x =
      Ext-handle_create t parent type origin request_id t.stage x
  Ext-handle t (set_prim_active path active origin request_id) x =
      Ext-handle_set_active t path active origin request_id t.stage x
  Ext-handle t commit x = Ext-commit_overrides t true t.stage x
  Ext-handle t reload x = Ext-reload_root_layer t t.stage x
  Ext-handle t flush x = Ext-handle_flush t t.stage x
  Ext-handle t (correction c path) x =
      let t' = record t {
        queued = update ℕ_discrete t.queued c (update Str-discrete (t.queued c) path false);
      } in
      Ext-send_correction s t' c path (Ext-same t t' refl refl refl x)
