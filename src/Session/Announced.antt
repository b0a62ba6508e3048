-- ===== src/Session/Announced.antt =====
-- What source/session/SessionManager.cpp does with a created prim and a prim that was (de)activated.
use idtx_core.Base.{
  ℕ, ◌+◌, ◌≡◌, refl, sym, ap, ◌∙◌, Bool, true, false, ◌||◌, Option, none, some, List, [], ◌∷◌, ◌++◌,
  Str, u64,
}
use mathlib.Core.Path.{subst⁻¹}
use mathlib.Core.List.{append_assoc}
use idtx_core.Versions.{record_sent, record_change}
use idtx_core.Session.Stage.{StageOps, Notice, Authored, PrimType, CreatedPrim, ok}
use idtx_core.Session.{
  Session, Frame, create_prim, set_prim_active, create_prim_broadcast, set_prim_active_broadcast,
  frame_seq, seq_of, bump,
}
use idtx_core.Session.Send.{send, note_sent, send_ack, broadcast, broadcast_to_all}
use idtx_core.Session.Notices.{on_objects_changed, run_moments}
use idtx_core.Session.Handlers.{
  authored, announced, finish_create, handle_create, finish_set_active, handle_set_active, handle,
}
use idtx_core.Session.Echo.{ack_frame, sent-send_ack, ack_frame-send_ack}
use idtx_core.Session.Outcomes.{IsUnchanged, unchanged, send_ack-IsUnchanged}

or-true : (b : Bool) → b || true ≡ true
or-true true = refl
or-true false = refl

-- A frame for each of the clients, the last one's first.
unfoldable pub to_each : {A : Type 0} → List ℕ → A → List (ℕ × A)
to_each [] f = []
to_each (c ∷ cs) f = to_each cs f ++ (c, f) ∷ []

module _ {ops : StageOps} where
  broadcast-IsUnchanged :
      (cs : List ℕ) (f : Frame ops.Transform ops.Shape) (s t : Session ops)
      → IsUnchanged s t
      → IsUnchanged s (broadcast cs none f t)
  unfolding broadcast record_sent
  broadcast-IsUnchanged [] f s t h = h
  broadcast-IsUnchanged (c ∷ cs) f s t h =
      broadcast-IsUnchanged cs f s (note_sent (send t c f) c (frame_seq f)) (record {
        same_stage = h.same_stage;
        same_clients = h.same_clients;
        same_server_seq = h.same_server_seq;
        same_prims = h.same_prims;
        same_dirty = h.same_dirty;
      })

  broadcast-sent :
      (cs : List ℕ) (f : Frame ops.Transform ops.Shape) (t : Session ops)
      → (broadcast cs none f t).sent ≡ to_each cs f ++ t.sent
  unfolding broadcast to_each
  broadcast-sent [] f t = refl
  broadcast-sent (c ∷ cs) f t =
      broadcast-sent cs f (note_sent (send t c f) c (frame_seq f))
      ∙ sym (append_assoc (to_each cs f) ((c, f) ∷ []) t.sent)

  -- Notices that come while a prim is created or (de)activated are passed over.
  run_moments-hidden :
      (ms : List (ops.Stage × Notice)) (t : Session ops)
      → t.create_in_progress || t.set_active_in_progress ≡ true
      → (stage : Option ops.Stage) × (run_moments ms t ≡ record t { stage = stage })
  unfolding run_moments on_objects_changed
  run_moments-hidden [] t h = (t.stage, refl)
  run_moments-hidden ((stage, n) ∷ ms) t h =
      let t' = record t { stage = some stage } in
      let hidden : on_objects_changed t' n ≡ t' = rw h in
      let (last, e) = run_moments-hidden ms t' h in (last, ap (run_moments ms) hidden ∙ e)

-- One version for the change, which is announced to all clients and acknowledged.
pub record AnnouncedOnce {ops : StageOps} (s t : Session ops) (path : Str)
    (frame : ℕ → Frame ops.Transform ops.Shape) (origin request_id : ℕ) : Type 0 where
  pub one_version : t.server_seq ≡ s.server_seq + 1
  pub recorded : t.versions.prims ≡ (record_change s.versions path (seq_of t) origin).prims
  pub unsaved : t.dirty ≡ true
  pub frames :
      t.sent
      ≡ ack_frame t origin request_id none ++ (to_each s.clients (frame (seq_of t)) ++ s.sent)

module _ {ops : StageOps} where
  announced-AnnouncedOnce :
      (s : Session ops) (path : Str) (frame : ℕ → Frame ops.Transform ops.Shape)
      (origin request_id : ℕ)
      → AnnouncedOnce s (announced s path frame origin request_id) path frame origin request_id
  unfolding announced broadcast_to_all
  announced-AnnouncedOnce s path frame origin request_id =
      let w = bump (record s { dirty = true }) in
      let seq = seq_of w in
      let w' = record w { versions = record_change w.versions path seq origin } in
      let v = broadcast w'.clients none (frame seq) w' in
      let before = broadcast-IsUnchanged w'.clients (frame seq) w' w' (unchanged w') in
      let after = send_ack-IsUnchanged v origin request_id none in
      let e : (send_ack v origin request_id none).server_seq ≡ s.server_seq + 1 =
        after.same_server_seq ∙ before.same_server_seq in
      let e_seq : seq ≡ seq_of (send_ack v origin request_id none) = sym (ap u64 e) in
      record {
        one_version = e;
        recorded =
            after.same_prims
            ∙ before.same_prims
            ∙ ap (λ n. (record_change s.versions path n origin).prims) e_seq;
        unsaved = after.same_dirty ∙ before.same_dirty;
        frames =
            sent-send_ack v origin request_id none
            ∙ ap (λ l. l ++ v.sent) (sym (ack_frame-send_ack v origin request_id none))
            ∙ ap (λ l. ack_frame (send_ack v origin request_id none) origin request_id none ++ l)
                (broadcast-sent w'.clients (frame seq) w'
                  ∙ ap (λ n. to_each s.clients (frame n) ++ s.sent) e_seq);
      }

  -- A session whose notices are hidden, after an authoring call.
  authored-hidden :
      {R : Type 0}
      → (s : Session ops) (origin : ℕ) (a : Authored ops.Stage R)
      → s.create_in_progress || s.set_active_in_progress ≡ true
      → authored s origin a ≡ record s { stage = some a.stage; current_origin = 0 }
  authored-hidden s origin a h =
      let (last, e) = run_moments-hidden a.moments (record s { current_origin = origin }) h in
      ap (λ (t : Session ops). record t { stage = some a.stage; current_origin = 0 }) e

  pub handle-created :
      (s : Session ops) (parent : Str) (type : PrimType) (origin request_id : ℕ) (stage : ops.Stage)
      (prim : CreatedPrim ops.Shape)
      → s.stage ≡ some stage
      → (ops.create stage parent type).result ≡ some prim
      → handle s (create_prim parent type origin request_id)
        ≡ announced
            (record s {
              stage = some (ops.create stage parent type).stage;
              current_origin = 0;
              create_in_progress = false;
            })
            prim.prim_path
            (create_prim_broadcast parent type prim)
            origin
            request_id
  unfolding handle handle_create finish_create
  handle-created s parent type origin request_id stage prim es er =
      let a = ops.create stage parent type in
      ap (handle_create s parent type origin request_id) es
      ∙ ap
          (λ (t : Session ops).
            finish_create (record t { create_in_progress = false }) parent type origin request_id
              a.result)
          (authored-hidden (record s { create_in_progress = true }) origin a refl)
      ∙ ap (finish_create _ parent type origin request_id) er

  pub handle-activated :
      (s : Session ops) (path : Str) (active : Bool) (origin request_id : ℕ) (stage : ops.Stage)
      → s.stage ≡ some stage
      → (ops.set_active stage path active).result ≡ ok
      → handle s (set_prim_active path active origin request_id)
        ≡ announced
            (record s {
              stage = some (ops.set_active stage path active).stage;
              current_origin = 0;
              set_active_in_progress = false;
            })
            path
            (set_prim_active_broadcast path active)
            origin
            request_id
  unfolding handle handle_set_active finish_set_active
  handle-activated s path active origin request_id stage es er =
      let a = ops.set_active stage path active in
      ap (handle_set_active s path active origin request_id) es
      ∙ ap
          (λ (t : Session ops).
            finish_set_active (record t { set_active_in_progress = false }) path active origin
              request_id a.result)
          (authored-hidden (record s { set_active_in_progress = true }) origin a
            (or-true s.create_in_progress))
      ∙ ap (finish_set_active _ path active origin request_id) er

  announced-hidden :
      (s t : Session ops) (path : Str) (frame : ℕ → Frame ops.Transform ops.Shape)
      (origin request_id : ℕ)
      → t.server_seq ≡ s.server_seq
      → t.versions ≡ s.versions
      → t.clients ≡ s.clients
      → t.sent ≡ s.sent
      → AnnouncedOnce s (announced t path frame origin request_id) path frame origin request_id
  announced-hidden s t path frame origin request_id en ev ec ef =
      let r = announced-AnnouncedOnce t path frame origin request_id in
      let seq = seq_of (announced t path frame origin request_id) in
      record {
        one_version = r.one_version ∙ ap (λ n. n + 1) en;
        recorded = r.recorded ∙ ap (λ v. (record_change v path seq origin).prims) ev;
        unsaved = r.unsaved;
        frames =
            r.frames
            ∙ ap
                (λ l.
                  ack_frame (announced t path frame origin request_id) origin request_id none ++ l)
                (ap (λ cs. to_each cs (frame seq) ++ t.sent) ec
                  ∙ ap (λ l. to_each s.clients (frame seq) ++ l) ef);
      }

  -- Whatever notices the authoring fires: a prim that the dispatcher created takes one version,
  -- which is recorded for its path and its origin; every client, the origin included, is sent the
  -- creation with that version, the origin then the acknowledgement without an error, if it is a
  -- client with a number other than 0, and nothing else is sent.
  pub created_once :
      (s : Session ops) (parent : Str) (type : PrimType) (origin request_id : ℕ) (stage : ops.Stage)
      (prim : CreatedPrim ops.Shape)
      → s.stage ≡ some stage
      → (ops.create stage parent type).result ≡ some prim
      → AnnouncedOnce s
          (handle s (create_prim parent type origin request_id))
          prim.prim_path
          (create_prim_broadcast parent type prim)
          origin
          request_id
  created_once s parent type origin request_id stage prim es er =
      let path = prim.prim_path in
      let frame = create_prim_broadcast parent type prim in
      subst⁻¹ (λ t. AnnouncedOnce s t path frame origin request_id)
        (handle-created s parent type origin request_id stage prim es er)
        (announced-hidden s _ path frame origin request_id refl refl refl refl)

  -- Whatever notices the authoring fires: a prim whose activity the dispatcher changed takes one
  -- version, which is recorded for its path and its origin; every client, the origin included, is
  -- sent the change with that version, the origin then the acknowledgement without an error, if it
  -- is a client with a number other than 0, and nothing else is sent.
  pub activated_once :
      (s : Session ops) (path : Str) (active : Bool) (origin request_id : ℕ) (stage : ops.Stage)
      → s.stage ≡ some stage
      → (ops.set_active stage path active).result ≡ ok
      → AnnouncedOnce s
          (handle s (set_prim_active path active origin request_id))
          path
          (set_prim_active_broadcast path active)
          origin
          request_id
  activated_once s path active origin request_id stage es er =
      let frame = set_prim_active_broadcast path active in
      subst⁻¹ (λ t. AnnouncedOnce s t path frame origin request_id)
        (handle-activated s path active origin request_id stage es er)
        (announced-hidden s _ path frame origin request_id refl refl refl refl)
