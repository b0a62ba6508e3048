-- ===== src/Session/Answers.antt =====
-- Every request that the consumer of source/session/SessionManager.cpp runs is answered once.
pub mod Frames
pub mod Requests
use idtx_core.Base.{
  ℕ, ◌+◌, ◌≡◌, refl, sym, ap, ◌∙◌, Bool, true, false, not, ◌&&◌, ◌||◌, Option, none, some, List, [],
  ◌∷◌, ◌++◌, Str, ◌==◌, if◌then◌else◌, codes, update, ℕ_discrete, Str-discrete,
}
use idtx_core.Versions.{UpdateBaseStatus, current, stale, invalid_base, check_update, record_change}
use idtx_core.Session.Stage.{
  StageOps, Authored, PrimType, CreatedPrim, PrimSpec, SetActiveStatus, ok, invalid_path, not_found,
  not_deletable, already_in_state, failed,
}
use idtx_core.Session.{
  Session, Frame, Command, transform, join, create_prim, set_prim_active, commit, reload, flush,
  correction, ack, xform_broadcast, create_prim_broadcast, set_prim_active_broadcast,
  snapshot_complete, seq_of, bump,
}
use idtx_core.Session.Send.{
  send, note_sent, is_client, reaches, send_ack, broadcast, broadcast_to_all, send_correction,
}
use idtx_core.Session.Notices.{run_moments}
use idtx_core.Session.Snapshot.{layer_specs, layer_frames, snapshot, send_all, send_snapshot}
use idtx_core.Session.Handlers.{
  authored, finish_transform, apply_transform, checked_transform, handle_transform, announced,
  finish_create, handle_create, finish_set_active, handle_set_active, reloaded, reload_root_layer,
  finish_commit, CommitStatus, nothing_to_commit, commit_layer, commit_overrides, save_layer,
  handle_flush, handle_correction, handle,
}
use idtx_core.Session.Protocol.{Every}
use idtx_core.Session.Refines.Sends.{either_way}
use idtx_core.Session.Refines.Snapshot.{layer_frames-Every, send_all-snoc}
use idtx_core.Session.Answers.Frames.{
  acks, is_ack, Acked, Acked-send, Acked-same, Acked-broadcast, Acked-run_moments,
  Acked-send_correction,
}
use mathlib.Core.Path.{subst⁻¹}
use idtx_core.Session.Answers.Requests.{
  answer, Acked-authored, Acked-checked_transform, Acked-handle_create, Acked-handle_set_active,
}

-- The acknowledgements that a command is to be answered with.
abbrev pub answers : {ops : StageOps} → Session ops → Command ops.Update → List (ℕ × ℕ)
answers s (transform u origin request_id base_seq) = answer s origin request_id
answers s (join c) = []
answers s (create_prim parent type origin request_id) = answer s origin request_id
answers s (set_prim_active path active origin request_id) = answer s origin request_id
answers s commit = []
answers s reload = []
answers s flush = []
answers s (correction c path) = []

module _ {ops : StageOps} (s : Session ops) where
  Acked-reloaded :
      (t : Session ops) (o : Option (Authored ops.Stage Bool))
      → Acked s [] t
      → Acked s [] (reloaded t o)
  unfolding reloaded
  Acked-reloaded t none a = a
  Acked-reloaded t (some x) a =
      let t0 = record t { reload_in_progress = true } in
      let t' = authored t0 0 x in
      Acked-same s [] t' (record t' { reload_in_progress = false }) refl refl refl
        (Acked-authored s t0 0 x (Acked-same s [] t t0 refl refl refl a))

  Acked-reload_root_layer :
      (t : Session ops) (o : Option ops.Stage) → Acked s [] t → Acked s [] (reload_root_layer t o)
  unfolding reload_root_layer
  Acked-reload_root_layer t none a = a
  Acked-reload_root_layer t (some stage) a = Acked-reloaded t (ops.reload_root stage) a

  Acked-finish_commit :
      (t : Session ops) (reload_root : Bool) (r : ops.Stage × Option Str)
      → Acked s [] t
      → Acked s [] (finish_commit t reload_root r).0
  unfolding finish_commit
  Acked-finish_commit t reload_root (stage, some error) a =
      Acked-same s [] t (record t { stage = some stage }) refl refl refl a
  Acked-finish_commit t reload_root (stage, none) a =
      let t' = record t { stage = some stage; dirty = false } in
      let a' = Acked-same s [] t t' refl refl refl a in
      either_way (Acked s []) reload_root (reload_root_layer t' (some stage)) t'
        (Acked-reload_root_layer t' (some stage) a') a'

  Acked-commit_layer :
      (t : Session ops) (reload_root : Bool) (stage : ops.Stage) (o : Option ops.Layer)
      → Acked s [] t
      → Acked s [] (commit_layer t reload_root stage o).0
  unfolding commit_layer
  Acked-commit_layer t reload_root stage none a = a
  Acked-commit_layer t reload_root stage (some layer) a =
      either_way (λ (r : Session ops × CommitStatus). Acked s [] r.0) (ops.is_empty layer)
        (t, nothing_to_commit) (finish_commit t reload_root (ops.commit stage)) a
        (Acked-finish_commit t reload_root (ops.commit stage) a)

  pub Acked-commit_overrides :
      (t : Session ops) (reload_root : Bool) (o : Option ops.Stage)
      → Acked s [] t
      → Acked s [] (commit_overrides t reload_root o).0
  unfolding commit_overrides
  Acked-commit_overrides t reload_root none a = a
  Acked-commit_overrides t reload_root (some stage) a =
      Acked-commit_layer t reload_root stage (ops.session_layer stage) a

  Acked-save_layer :
      (t : Session ops) (o : Option ops.Layer) → Acked s [] t → Acked s [] (save_layer t o)
  unfolding save_layer
  Acked-save_layer t none a = a
  Acked-save_layer t (some layer) a =
      either_way (Acked s []) (ops.save layer) t (record t { dirty = true }) a
        (Acked-same s [] t (record t { dirty = true }) refl refl refl a)

  Acked-handle_flush :
      (t : Session ops) (o : Option ops.Stage) → Acked s [] t → Acked s [] (handle_flush t o)
  unfolding handle_flush
  Acked-handle_flush t none a = a
  Acked-handle_flush t (some stage) a =
      let t' = record t { dirty = false } in
      either_way (Acked s []) t.dirty (save_layer t' (ops.session_layer stage)) t
        (Acked-save_layer t' (ops.session_layer stage) (Acked-same s [] t t' refl refl refl a)) a

  Acked-send_all :
      (c : ℕ) (fs : List (Frame ops.Transform ops.Shape)) (t : Session ops)
      → Every (λ f. is_ack f ≡ false) fs
      → Acked s [] t
      → Acked s [] (send_all c fs t)
  unfolding send_all
  Acked-send_all c [] t h a = a
  Acked-send_all c (f ∷ fs) t h a =
      Acked-send_all c fs (send t c f) h.1 (Acked-send s [] t c f h.0 a)

  Acked-send_snapshot :
      (t : Session ops) (c : ℕ) (o : Option ops.Stage)
      → Acked s [] t
      → Acked s [] (send_snapshot t c o)
  unfolding send_snapshot
  Acked-send_snapshot t c none a = a
  Acked-send_snapshot t c (some stage) a =
      let seq = seq_of t in
      let specs = layer_specs ops (ops.session_layer stage) in
      let fs = layer_frames seq specs in
      let u = send (send_all c fs t) c (snapshot_complete seq) in
      let h =
        layer_frames-Every seq (λ f. is_ack f ≡ false) (λ p q r. refl) (λ p q. refl) (λ p. refl)
          specs in
      either_way (Acked s []) (is_client c t.clients) _ t
        (Acked-same s [] (send_all c (snapshot seq specs) t) _ refl refl refl (
          subst⁻¹ (Acked s []) (send_all-snoc c fs (snapshot_complete seq) t) (
            Acked-send s [] (send_all c fs t) c (snapshot_complete seq) refl
              (Acked-send_all c fs t h a))))
        a

  -- A command is answered with the acknowledgements that it is to be answered with.
  pub Acked-handle : (c : Command ops.Update) → Acked s (answers s c) (handle s c)
  unfolding handle handle_transform handle_correction
  Acked-handle c =
      let a : Acked s [] s = record { same_clients = refl; same_mode = refl; acked = refl } in
      elim c as (λ k. Acked s (answers s k) (handle s k)) [
        | transform u origin request_id base_seq ↦
            Acked-checked_transform s s u origin request_id
              (check_update s.versions origin (ops.update_path u) base_seq) a
        | join d ↦ Acked-send_snapshot s d s.stage a
        | create_prim parent type origin request_id ↦
            Acked-handle_create s s parent type origin request_id s.stage a
        | set_prim_active path active origin request_id ↦
            Acked-handle_set_active s s path active origin request_id s.stage a
        | commit ↦ Acked-commit_overrides s true s.stage a
        | reload ↦ Acked-reload_root_layer s s.stage a
        | flush ↦ Acked-handle_flush s s.stage a
        | correction d path ↦
            let s' = record s {
              queued = update ℕ_discrete s.queued d (update Str-discrete (s.queued d) path false);
            } in
            Acked-send_correction s [] s' d path (Acked-same s [] s s' refl refl refl a)
      ]

-- Whatever the state of a session, an update, a creation or a change of activity is answered with
-- one acknowledgement, of its request and to its sender, if this is a client of the session with a
-- number other than 0, and with none if it is not; no other command is answered; and no
-- command adds or removes a client.
pub answered_once :
    {ops : StageOps} (s : Session ops) (c : Command ops.Update)
    → (acks (handle s c).sent ≡ answers s c ++ acks s.sent) × ((handle s c).clients ≡ s.clients)
answered_once s c = ((Acked-handle s c).acked, (Acked-handle s c).same_clients)
