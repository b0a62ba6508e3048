-- ===== src/Session/Settled/Requests.antt =====
-- Transforms, creations and (de)activations in source/session/SessionManager.cpp clear their marks.
use idtx_core.Base.{ℕ, refl, ap, ◌∙◌, Bool, true, false, Option, none, some, Str, codes}
use idtx_core.Versions.{UpdateBaseStatus, current, stale, invalid_base, record_change}
use idtx_core.Session.Stage.{
  StageOps, PrimType, CreatedPrim, SetActiveStatus, ok, invalid_path, not_found, not_deletable,
  already_in_state, failed,
}
use idtx_core.Session.{
  Session, Frame, create_prim_broadcast, set_prim_active_broadcast, seq_of, bump,
}
use idtx_core.Session.Send.{send_ack, broadcast_to_all}
use idtx_core.Session.Handlers.{
  authored, finish_transform, apply_transform, checked_transform, announced, finish_create,
  handle_create, finish_set_active, handle_set_active,
}
use idtx_core.Session.Rest.{view-broadcast, view-send_correction}
use idtx_core.Session.Settled.{
  Marks, marks, IsSettled, marks-authored, send_ack-IsSettled, authored-IsSettled,
}

module _ {ops : StageOps} where
  finish_transform-IsSettled :
      (t : Session ops) (path : Str) (origin request_id : ℕ) (result : Bool)
      → IsSettled t
      → IsSettled (finish_transform t path origin request_id result)
  unfolding finish_transform IsSettled
  finish_transform-IsSettled t path origin request_id true h =
      send_ack-IsSettled (record t { dirty = true }) origin request_id none h
  finish_transform-IsSettled t path origin request_id false h =
      let error = some (codes "apply_failed") in
      view-send_correction marks (λ s st n v fs. refl) (send_ack t origin request_id error) origin
        path
      ∙ send_ack-IsSettled t origin request_id error h

  apply_transform-IsSettled :
      (t : Session ops) (u : ops.Update) (origin request_id : ℕ) (o : Option ops.Stage)
      → IsSettled t
      → IsSettled (apply_transform t u origin request_id o)
  unfolding apply_transform IsSettled
  apply_transform-IsSettled t u origin request_id none h =
      finish_transform-IsSettled (record t { current_origin = 0 }) (ops.update_path u) origin
        request_id false (ap (λ (m : Marks). record m { origin = 0 }) h)
  apply_transform-IsSettled t u origin request_id (some stage) h =
      let a = ops.apply stage u in
      finish_transform-IsSettled (authored t origin a) (ops.update_path u) origin request_id
        a.result (authored-IsSettled t origin a h)

  pub checked_transform-IsSettled :
      (t : Session ops) (u : ops.Update) (origin request_id : ℕ) (status : UpdateBaseStatus)
      → IsSettled t
      → IsSettled (checked_transform t u origin request_id status)
  unfolding checked_transform
  checked_transform-IsSettled t u origin request_id stale h =
      send_ack-IsSettled t origin request_id (some (codes "stale")) h
  checked_transform-IsSettled t u origin request_id invalid_base h =
      send_ack-IsSettled t origin request_id (some (codes "invalid_base")) h
  checked_transform-IsSettled t u origin request_id current h =
      apply_transform-IsSettled t u origin request_id t.stage h

  announced-IsSettled :
      (t : Session ops) (path : Str) (frame : ℕ → Frame ops.Transform ops.Shape)
      (origin request_id : ℕ)
      → IsSettled t
      → IsSettled (announced t path frame origin request_id)
  unfolding announced broadcast_to_all IsSettled
  announced-IsSettled t path frame origin request_id h =
      let t' = bump (record t { dirty = true }) in
      let seq = seq_of t' in
      let t'' = record t' { versions = record_change t'.versions path seq origin } in
      send_ack-IsSettled (broadcast_to_all t'' (frame seq)) origin request_id none
        (view-broadcast marks (λ s st n v fs. refl) t''.clients none (frame seq) t'' ∙ h)

  finish_create-IsSettled :
      (t : Session ops) (parent : Str) (type : PrimType) (origin request_id : ℕ)
      (o : Option (CreatedPrim ops.Shape))
      → IsSettled t
      → IsSettled (finish_create t parent type origin request_id o)
  unfolding finish_create
  finish_create-IsSettled t parent type origin request_id none h =
      send_ack-IsSettled t origin request_id (some (codes "invalid_parent")) h
  finish_create-IsSettled t parent type origin request_id (some prim) h =
      announced-IsSettled t prim.prim_path (create_prim_broadcast parent type prim) origin
        request_id h

  pub handle_create-IsSettled :
      (t : Session ops) (parent : Str) (type : PrimType) (origin request_id : ℕ)
      (o : Option ops.Stage)
      → IsSettled t
      → IsSettled (handle_create t parent type origin request_id o)
  unfolding handle_create IsSettled
  handle_create-IsSettled t parent type origin request_id none h =
      send_ack-IsSettled t origin request_id (some (codes "apply_failed")) h
  handle_create-IsSettled t parent type origin request_id (some stage) h =
      let a = ops.create stage parent type in
      let t' = authored (record t { create_in_progress = true }) origin a in
      finish_create-IsSettled (record t' { create_in_progress = false }) parent type origin
        request_id a.result
        (ap (λ (m : Marks). record m { creates = false })
            (marks-authored (record t { create_in_progress = true }) origin a)
          ∙ ap (λ (m : Marks). record m { creates = false; origin = 0 }) h)

  finish_set_active-IsSettled :
      (t : Session ops) (path : Str) (active : Bool) (origin request_id : ℕ)
      (status : SetActiveStatus)
      → IsSettled t
      → IsSettled (finish_set_active t path active origin request_id status)
  unfolding finish_set_active
  finish_set_active-IsSettled t path active origin request_id invalid_path h =
      send_ack-IsSettled t origin request_id (some (codes "unknown_prim")) h
  finish_set_active-IsSettled t path active origin request_id not_found h =
      send_ack-IsSettled t origin request_id (some (codes "unknown_prim")) h
  finish_set_active-IsSettled t path active origin request_id not_deletable h =
      send_ack-IsSettled t origin request_id (some (codes "not_deletable")) h
  finish_set_active-IsSettled t path active origin request_id failed h =
      send_ack-IsSettled t origin request_id (some (codes "apply_failed")) h
  finish_set_active-IsSettled t path active origin request_id already_in_state h =
      send_ack-IsSettled t origin request_id none h
  finish_set_active-IsSettled t path active origin request_id ok h =
      announced-IsSettled t path (set_prim_active_broadcast path active) origin request_id h

  pub handle_set_active-IsSettled :
      (t : Session ops) (path : Str) (active : Bool) (origin request_id : ℕ) (o : Option ops.Stage)
      → IsSettled t
      → IsSettled (handle_set_active t path active origin request_id o)
  unfolding handle_set_active IsSettled
  handle_set_active-IsSettled t path active origin request_id none h =
      send_ack-IsSettled t origin request_id (some (codes "apply_failed")) h
  handle_set_active-IsSettled t path active origin request_id (some stage) h =
      let a = ops.set_active stage path active in
      let t' = authored (record t { set_active_in_progress = true }) origin a in
      finish_set_active-IsSettled (record t' { set_active_in_progress = false }) path active origin
        request_id a.result
        (ap (λ (m : Marks). record m { sets_active = false })
            (marks-authored (record t { set_active_in_progress = true }) origin a)
          ∙ ap (λ (m : Marks). record m { sets_active = false; origin = 0 }) h)
