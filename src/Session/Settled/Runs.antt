-- ===== src/Session/Settled/Runs.antt =====
-- Whatever happens to a session of source/session/SessionManager.cpp, no mark is left.
use idtx_core.Base.{ℕ, refl, ap, ◌∙◌, Bool, true, false, Option, none, some, List, [], ◌∷◌, Str}
use idtx_core.Versions.{check_update}
use idtx_core.Session.Stage.{StageOps, Authored}
use idtx_core.Session.{
  Session, SessionMode, Command, transform, join, create_prim, set_prim_active, commit, reload,
  flush, correction,
}
use idtx_core.Session.Handlers.{
  CommitStatus, handle_transform, reloaded, reload_root_layer, finish_commit, nothing_to_commit,
  commit_layer, commit_overrides, save_layer, handle_flush, handle_correction, handle,
}
use idtx_core.Session.Registry.{
  AttachStatus, attached, single_edit_busy, attach_client, is_busy, detach_client, insert_client,
  new_session,
}
use idtx_core.Session.Run.{
  Action, command, attach, detach, greet, reject, ask_correction, act, run, reached,
}
use idtx_core.Session.Refines.Sends.{either_way}
use idtx_core.Session.Rest.{view-send_correction, view-send_snapshot}
use idtx_core.Session.Settled.{Marks, marks, IsSettled, marks-authored}
use idtx_core.Session.Settled.Requests.{
  checked_transform-IsSettled, handle_create-IsSettled, handle_set_active-IsSettled,
}

module _ {ops : StageOps} where
  reloaded-IsSettled :
      (t : Session ops) (o : Option (Authored ops.Stage Bool))
      → IsSettled t
      → IsSettled (reloaded t o)
  unfolding reloaded IsSettled
  reloaded-IsSettled t none h = h
  reloaded-IsSettled t (some a) h =
      ap (λ (m : Marks). record m { reloads = false })
        (marks-authored (record t { reload_in_progress = true }) 0 a)
      ∙ ap (λ (m : Marks). record m { reloads = false; origin = 0 }) h

  reload_root_layer-IsSettled :
      (t : Session ops) (o : Option ops.Stage) → IsSettled t → IsSettled (reload_root_layer t o)
  unfolding reload_root_layer
  reload_root_layer-IsSettled t none h = h
  reload_root_layer-IsSettled t (some stage) h = reloaded-IsSettled t (ops.reload_root stage) h

  finish_commit-IsSettled :
      (t : Session ops) (reload_root : Bool) (r : ops.Stage × Option Str)
      → IsSettled t
      → IsSettled (finish_commit t reload_root r).0
  unfolding finish_commit IsSettled
  finish_commit-IsSettled t reload_root (stage, some error) h = h
  finish_commit-IsSettled t reload_root (stage, none) h =
      let t' = record t { stage = some stage; dirty = false } in
      either_way IsSettled reload_root (reload_root_layer t' (some stage)) t'
        (reload_root_layer-IsSettled t' (some stage) h) h

  commit_layer-IsSettled :
      (t : Session ops) (reload_root : Bool) (stage : ops.Stage) (o : Option ops.Layer)
      → IsSettled t
      → IsSettled (commit_layer t reload_root stage o).0
  unfolding commit_layer
  commit_layer-IsSettled t reload_root stage none h = h
  commit_layer-IsSettled t reload_root stage (some layer) h =
      either_way (λ (r : Session ops × CommitStatus). IsSettled r.0) (ops.is_empty layer)
        (t, nothing_to_commit) (finish_commit t reload_root (ops.commit stage)) h
        (finish_commit-IsSettled t reload_root (ops.commit stage) h)

  commit_overrides-IsSettled :
      (t : Session ops) (reload_root : Bool) (o : Option ops.Stage)
      → IsSettled t
      → IsSettled (commit_overrides t reload_root o).0
  unfolding commit_overrides
  commit_overrides-IsSettled t reload_root none h = h
  commit_overrides-IsSettled t reload_root (some stage) h =
      commit_layer-IsSettled t reload_root stage (ops.session_layer stage) h

  save_layer-IsSettled :
      (t : Session ops) (o : Option ops.Layer) → IsSettled t → IsSettled (save_layer t o)
  unfolding save_layer IsSettled
  save_layer-IsSettled t none h = h
  save_layer-IsSettled t (some layer) h =
      either_way IsSettled (ops.save layer) t (record t { dirty = true }) h h

  handle_flush-IsSettled :
      (t : Session ops) (o : Option ops.Stage) → IsSettled t → IsSettled (handle_flush t o)
  unfolding handle_flush IsSettled
  handle_flush-IsSettled t none h = h
  handle_flush-IsSettled t (some stage) h =
      let t' = record t { dirty = false } in
      either_way IsSettled t.dirty (save_layer t' (ops.session_layer stage)) t
        (save_layer-IsSettled t' (ops.session_layer stage) h) h

  handle-IsSettled :
      (t : Session ops) (c : Command ops.Update) → IsSettled t → IsSettled (handle t c)
  unfolding handle handle_transform handle_correction IsSettled
  handle-IsSettled t (transform u origin request_id base_seq) h =
      checked_transform-IsSettled t u origin request_id
        (check_update t.versions origin (ops.update_path u) base_seq) h
  handle-IsSettled t (join c) h = view-send_snapshot marks (λ s st n v fs. refl) t c t.stage ∙ h
  handle-IsSettled t (create_prim parent type origin request_id) h =
      handle_create-IsSettled t parent type origin request_id t.stage h
  handle-IsSettled t (set_prim_active path active origin request_id) h =
      handle_set_active-IsSettled t path active origin request_id t.stage h
  handle-IsSettled t commit h = commit_overrides-IsSettled t true t.stage h
  handle-IsSettled t reload h = reload_root_layer-IsSettled t t.stage h
  handle-IsSettled t flush h = handle_flush-IsSettled t t.stage h
  handle-IsSettled t (correction c path) h =
      view-send_correction marks (λ s st n v fs. refl) _ c path ∙ h

  act-IsSettled : (t : Session ops) (a : Action ops.Update) → IsSettled t → IsSettled (act t a)
  unfolding act attach_client detach_client is_busy IsSettled
  act-IsSettled t (command c) h = handle-IsSettled t c h
  act-IsSettled t (attach c) h =
      either_way (λ (r : Session ops × AttachStatus). IsSettled r.0) (is_busy t)
        (t, single_edit_busy)
        (record t { clients = insert_client c t.clients; empty_since = none }, attached) h h
  act-IsSettled t (detach c now) h = h
  act-IsSettled t (greet c) h = h
  act-IsSettled t (reject c request_id error) h = h
  act-IsSettled t (ask_correction c path) h = h

  run-IsSettled :
      (t : Session ops) (as' : List (Action ops.Update)) → IsSettled t → IsSettled (run t as')
  unfolding run
  run-IsSettled t [] h = h
  run-IsSettled t (a ∷ as') h = run-IsSettled (act t a) as' (act-IsSettled t a h)

-- Whatever has happened to a session since its creation, between commands it hides no notices and
-- has no origin marked.
pub reached-IsSettled :
    (ops : StageOps) (stage : ops.Stage) (mode : SessionMode) (created : ℕ)
    (as' : List (Action ops.Update))
    → IsSettled (reached ops stage mode created as')
unfolding IsSettled new_session
reached-IsSettled ops stage mode created as' =
    run-IsSettled (new_session ops stage mode created) as' refl
