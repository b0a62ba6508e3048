-- ===== src/Session/Rest.antt =====
-- What the sending of frames by source/session/SessionManager.cpp leaves alone in a session.
use idtx_core.Base.{
  ℕ, ◌≡◌, refl, ◌∙◌, Bool, false, ◌&&◌, ◌||◌, Option, none, some, List, [], ◌∷◌, Str, ◌==◌,
  if◌then◌else◌,
}
use idtx_core.Versions.{SessionVersions, record_change}
use idtx_core.Session.Stage.{StageOps, Notice}
use idtx_core.Session.{
  Session, Frame, ack, xform_broadcast, set_prim_active_broadcast, frame_seq, seq_of, bump,
}
use idtx_core.Session.Send.{
  send, note_sent, is_client, reaches, send_ack, broadcast, broadcast_read,
  broadcast_resolved_transform, transform_of, correct, correct_read, correct_at, send_correction,
}
use idtx_core.Session.Notices.{
  announce, announce_all, announce_unmasked, is_masked, layer_of, with_version, reload_prims,
  affected_prims, on_objects_changed, run_moments,
}
use idtx_core.Session.Snapshot.{layer_specs, snapshot, send_all, send_snapshot}
use idtx_core.Session.Refines.Sends.{either_way}

-- A view of a session that does not see its stage, its versions and its frames.
module _ {ops : StageOps} {A : Type 0} (view : Session ops → A)
    (blind : (s : Session ops) (stage : Option ops.Stage) (seq : ℕ) (v : SessionVersions)
        (fs : List (ℕ × Frame ops.Transform ops.Shape))
      → view (record s { stage = stage; server_seq = seq; versions = v; sent = fs }) ≡ view s) where
  -- Either branch of a test is seen as `a`.
  branch :
      (a : A) (test : Bool) (t u : Session ops)
      → view t ≡ a
      → view u ≡ a
      → view (if test then t else u) ≡ a
  branch a test t u = either_way (λ w. view w ≡ a) test t u

  view-deliver :
      (t : Session ops) (c : ℕ) (f : Frame ops.Transform ops.Shape) (seq : ℕ)
      → view (note_sent (send t c f) c seq) ≡ view t
  view-deliver t c f seq =
      let u = note_sent (send t c f) c seq in blind t u.stage u.server_seq u.versions u.sent

  pub view-broadcast :
      (cs : List ℕ) (origin : Option ℕ) (f : Frame ops.Transform ops.Shape) (t : Session ops)
      → view (broadcast cs origin f t) ≡ view t
  unfolding broadcast
  view-broadcast [] origin f t = refl
  view-broadcast (c ∷ cs) none f t =
      view-broadcast cs none f (note_sent (send t c f) c (frame_seq f))
      ∙ view-deliver t c f (frame_seq f)
  view-broadcast (c ∷ cs) (some origin) f t =
      let t' = note_sent (send t c f) c (frame_seq f) in
      view-broadcast cs (some origin) f (if c == origin then t else t')
      ∙ branch (view t) (c == origin) t t' refl (view-deliver t c f (frame_seq f))

  view-broadcast_read :
      (t : Session ops) (path : Str) (origin seq : ℕ) (o : Option ops.Transform)
      → view (broadcast_read t path origin seq o) ≡ view t
  unfolding broadcast_read
  view-broadcast_read t path origin seq none = refl
  view-broadcast_read t path origin seq (some v) =
      view-broadcast t.clients (some origin) (xform_broadcast path v seq) t

  view-announce :
      (t : Session ops) (seq origin : ℕ) (path : Str) → view (announce t seq origin path) ≡ view t
  unfolding announce broadcast_resolved_transform
  view-announce t seq origin path =
      let t' = record t { versions = record_change t.versions path seq origin } in
      view-broadcast_read t' path origin seq (transform_of t' path)
      ∙ blind t t.stage t.server_seq t'.versions t.sent

  view-announce_all :
      (ps : List Str) (seq origin : ℕ) (t : Session ops)
      → view (announce_all ps seq origin t) ≡ view t
  unfolding announce_all
  view-announce_all [] seq origin t = refl
  view-announce_all (p ∷ ps) seq origin t =
      view-announce_all ps seq origin (announce t seq origin p) ∙ view-announce t seq origin p

  view-announce_unmasked :
      (layer : Option ops.Layer) (ps : List Str) (seq : ℕ) (t : Session ops)
      → view (announce_unmasked layer ps seq t) ≡ view t
  unfolding announce_unmasked
  view-announce_unmasked layer [] seq t = refl
  view-announce_unmasked layer (p ∷ ps) seq t =
      view-announce_unmasked layer ps seq (if is_masked ops layer p then t else announce t seq 0 p)
      ∙ branch (view t) (is_masked ops layer p) t (announce t seq 0 p) refl
          (view-announce t seq 0 p)

  view-bump : (t : Session ops) → view (bump t) ≡ view t
  view-bump t = blind t t.stage (bump t).server_seq t.versions t.sent

  view-with_version :
      (ps : List Str) (f : ℕ → Session ops → Session ops) (t : Session ops)
      → ((seq : ℕ) (u : Session ops) → view (f seq u) ≡ view u)
      → view (with_version ps f t) ≡ view t
  unfolding with_version
  view-with_version [] f t k = refl
  view-with_version (p ∷ ps) f t k = k (seq_of (bump t)) (bump t) ∙ view-bump t

  pub view-on_objects_changed :
      (t : Session ops) (n : Notice) → view (on_objects_changed t n) ≡ view t
  unfolding on_objects_changed
  view-on_objects_changed t n =
      branch (view t) (t.create_in_progress || t.set_active_in_progress) t _ refl (
        branch (view t) t.reload_in_progress _ _
          (view-with_version (reload_prims n) (announce_unmasked (layer_of t) (reload_prims n)) t
            (λ seq u. view-announce_unmasked (layer_of t) (reload_prims n) seq u))
          (view-with_version (affected_prims n)
            (λ seq. announce_all (affected_prims n) seq t.current_origin) t
            (λ seq u. view-announce_all (affected_prims n) seq t.current_origin u)))

  pub view-run_moments :
      (ms : List (ops.Stage × Notice)) (t : Session ops) → view (run_moments ms t) ≡ view t
  unfolding run_moments
  view-run_moments [] t = refl
  view-run_moments ((stage, n) ∷ ms) t =
      let t' = record t { stage = some stage } in
      view-run_moments ms (on_objects_changed t' n)
      ∙ (view-on_objects_changed t' n ∙ blind t t'.stage t.server_seq t.versions t.sent)

  pub view-send_ack :
      (t : Session ops) (c request_id : ℕ) (error : Option Str)
      → view (send_ack t c request_id error) ≡ view t
  unfolding send_ack
  view-send_ack t c request_id error =
      let u = note_sent (send t c (ack request_id error (seq_of t))) c (seq_of t) in
      branch (view t) (reaches t c) u t
        (view-deliver t c (ack request_id error (seq_of t)) (seq_of t)) refl

  view-correct :
      (t : Session ops) (c : ℕ) (path : Str) (frame : ℕ → Frame ops.Transform ops.Shape)
      → view (correct t c path frame) ≡ view t
  unfolding correct
  view-correct t c path frame =
      branch (view t) (is_client c t.clients) _ t (blind t t.stage _ _ _) refl

  view-correct_read :
      (t : Session ops) (c : ℕ) (path : Str) (o : Option ops.Transform)
      → view (correct_read t c path o) ≡ view t
  unfolding correct_read
  view-correct_read t c path none = refl
  view-correct_read t c path (some v) = view-correct t c path (xform_broadcast path v)

  view-correct_at :
      (t : Session ops) (c : ℕ) (path : Str) (o : Option ops.Stage)
      → view (correct_at t c path o) ≡ view t
  unfolding correct_at
  view-correct_at t c path none = refl
  view-correct_at t c path (some stage) = branch (view t) (c == 0) t _ refl (
      branch (view t) (ops.is_valid_path path && ops.is_inactive stage path) _ _
        (view-correct t c path (set_prim_active_broadcast path false))
        (view-correct_read t c path (ops.read_transform stage path)))

  pub view-send_correction :
      (t : Session ops) (c : ℕ) (path : Str) → view (send_correction t c path) ≡ view t
  unfolding send_correction
  view-send_correction t c path = view-correct_at t c path t.stage

  view-send_all :
      (c : ℕ) (fs : List (Frame ops.Transform ops.Shape)) (t : Session ops)
      → view (send_all c fs t) ≡ view t
  unfolding send_all
  view-send_all c [] t = refl
  view-send_all c (f ∷ fs) t =
      view-send_all c fs (send t c f) ∙ blind t t.stage t.server_seq t.versions (send t c f).sent

  pub view-send_snapshot :
      (t : Session ops) (c : ℕ) (o : Option ops.Stage) → view (send_snapshot t c o) ≡ view t
  unfolding send_snapshot
  view-send_snapshot t c none = refl
  view-send_snapshot t c (some stage) =
      let seq = seq_of t in
      let u = send_all c (snapshot seq (layer_specs ops (ops.session_layer stage))) t in
      branch (view t) (is_client c t.clients) (note_sent u c seq) t
        (blind u u.stage u.server_seq (note_sent u c seq).versions u.sent
          ∙ view-send_all c (snapshot seq (layer_specs ops (ops.session_layer stage))) t)
        refl
