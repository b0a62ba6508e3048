-- ===== src/Session/Settled.antt =====
-- The marks of a running handler of source/session/SessionManager.cpp are cleared between commands.
pub mod Requests
pub mod Runs
use idtx_core.Base.{
  ℕ, ◌≡◌, refl, ap, ◌∙◌, Bool, true, false, Option, none, some, List, [], ◌∷◌, Str, codes,
}
use idtx_core.Versions.{UpdateBaseStatus, current, stale, invalid_base, check_update, record_change}
use idtx_core.Session.Stage.{
  StageOps, Authored, PrimType, CreatedPrim, SetActiveStatus, ok, invalid_path, not_found,
  not_deletable, already_in_state, failed,
}
use idtx_core.Session.{
  Session, SessionMode, Frame, Command, transform, join, create_prim, set_prim_active, commit,
  reload, flush, correction, create_prim_broadcast, set_prim_active_broadcast, seq_of, bump,
}
use idtx_core.Session.Send.{send_ack, broadcast_to_all}
use idtx_core.Session.Handlers.{
  CommitStatus, authored, finish_transform, apply_transform, checked_transform, handle_transform,
  announced, finish_create, handle_create, finish_set_active, handle_set_active, reloaded,
  reload_root_layer, finish_commit, nothing_to_commit, commit_layer, commit_overrides, save_layer,
  handle_flush, handle_correction, handle,
}
use idtx_core.Session.Registry.{
  AttachStatus, attached, single_edit_busy, attach_client, is_busy, detach_client, insert_client,
  new_session,
}
use idtx_core.Session.Run.{
  Action, command, attach, detach, greet, reject, ask_correction, act, run, reached,
}
use idtx_core.Session.Refines.Sends.{either_way}
use idtx_core.Session.Rest.{
  view-broadcast, view-run_moments, view-send_ack, view-send_correction, view-send_snapshot,
}

-- What a handler marks while it runs: which notices it hides, and whose update it applies.
pub record Marks : Type 0 where
  pub reloads : Bool
  pub creates : Bool
  pub sets_active : Bool
  origin : ℕ

abbrev pub off : Marks
off = record { reloads = false; creates = false; sets_active = false; origin = 0 }

module _ {ops : StageOps} where
  abbrev pub marks : Session ops → Marks
  marks s = record {
    reloads = s.reload_in_progress;
    creates = s.create_in_progress;
    sets_active = s.set_active_in_progress;
    origin = s.current_origin;
  }

  -- No handler is marked as running.
  unfoldable pub IsSettled : Session ops → Type 0
  IsSettled s = marks s ≡ off

  -- An authoring call leaves the marks as they were, but for the origin.
  pub marks-authored :
      {R : Type 0}
      → (t : Session ops) (origin : ℕ) (a : Authored ops.Stage R)
      → marks (authored t origin a) ≡ record (marks t) { origin = 0 }
  marks-authored t origin a =
      ap (λ (m : Marks). record m { origin = 0 })
        (view-run_moments marks (λ s st n v fs. refl) a.moments
          (record t { current_origin = origin }))

  pub send_ack-IsSettled :
      (t : Session ops) (c request_id : ℕ) (error : Option Str)
      → IsSettled t
      → IsSettled (send_ack t c request_id error)
  unfolding IsSettled
  send_ack-IsSettled t c request_id error h =
      view-send_ack marks (λ s st n v fs. refl) t c request_id error ∙ h

  pub authored-IsSettled :
      {R : Type 0}
      → (t : Session ops) (origin : ℕ) (a : Authored ops.Stage R) → IsSettled t
      → IsSettled (authored t origin a)
  unfolding IsSettled
  authored-IsSettled t origin a h =
      marks-authored t origin a ∙ ap (λ (m : Marks). record m { origin = 0 }) h
