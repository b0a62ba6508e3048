-- ===== src/Session/Tests.antt =====
-- Runs of source/session/SessionManager.cpp over a small stage, and the theorems at concrete sessions.
use idtx_core.Base.{
  ℕ, ◌≡◌, ◌≢◌, refl, true, none, some, List, [], ◌∷◌, ◌++◌, Str, Str-discrete, ℕ_discrete, codes,
  arith, u64, ltb, if◌then◌else◌,
}
use mathlib.Core.List.{Memᴰ}
use mathlib.Core.Path.{subst⁻¹}
use idtx_core.Versions.{
  current, stale, invalid_base, check_update, record_change, record_sent, latest_foreign,
}
use idtx_core.Session.Send.{send_ack, broadcast, broadcast_read, broadcast_resolved_transform}
use idtx_core.Session.Notices.{
  run_moments, on_objects_changed, affected_prims, insert_resynced, insert_xforms,
  is_xform_attribute, insert, with_version, announce_all, announce,
}
use idtx_core.Session.Stage.{cube}
use idtx_core.Session.Sample.{box, new_cube, small, moved}
use idtx_core.Session.{
  Session, Frame, collaborative_edit, transform, create_prim, flush, create_prim_broadcast, ack,
  xform_broadcast,
}
use idtx_core.Session.Registry.{new_session, attach_client, is_busy, insert_client}
use idtx_core.Session.Handlers.{
  handle, handle_transform, checked_transform, apply_transform, finish_transform, handle_flush,
  save_layer,
}
use idtx_core.Session.Protocol.{Every}
use idtx_core.Session.Run.{Action, command, attach, reached, run, act}
use idtx_core.Session.History.{highest}
use idtx_core.Session.Reports.{attribute_changed}
use idtx_core.Session.Outdated.{was_moved, old_base_refused}
use idtx_core.Session.Answers.{answers, answered_once}
use idtx_core.Session.Answers.Frames.{acks}
use idtx_core.Session.Stamps.{stamps, GoesDown, stamps_never_go_down}
use idtx_core.Session.Settled.{IsSettled}
use idtx_core.Session.Settled.Runs.{reached-IsSettled}
use idtx_core.Session.Echo.{ack_frame, own_update_not_echoed}
use idtx_core.Session.Outcomes.{reason, IsUnchanged, update_refused}
use idtx_core.Session.Announced.{AnnouncedOnce, created_once}

-- Connections 1 and 2 join, and 1 moves the box.
abbrev one_move : List (Action (Str × ℕ))
one_move = attach 1 ∷ attach 2 ∷ command (transform (box, 5) 1 7 0) ∷ []

abbrev after_move : Session small
after_move = reached small [] collaborative_edit 0 one_move

-- The box's move was announced to 2 as version 1, and acknowledged to 1.
one_move_sent :
    (after_move.server_seq ≡ 1)
    × (after_move.sent ≡ (1, ack 7 none 1) ∷ (2, xform_broadcast box 5 1) ∷ [])
    × (latest_foreign after_move.versions 2 box ≡ 1)
    × (check_update after_move.versions 1 box 0 ≡ current)
    × (check_update after_move.versions 2 box 0 ≡ stale)
unfolding run act attach_client is_busy insert_client new_session handle handle_transform
    checked_transform apply_transform finish_transform send_ack run_moments on_objects_changed
    affected_prims insert_resynced insert_xforms is_xform_attribute insert with_version announce_all
    announce broadcast_resolved_transform broadcast_read broadcast check_update u64 record_change
    record_sent latest_foreign Str-discrete ℕ_discrete
one_move_sent = (refl, refl, refl, refl, refl)

one_move_stage : after_move.stage ≡ some ((box, 5) ∷ [])
unfolding run act attach_client is_busy insert_client new_session handle handle_transform
    checked_transform apply_transform finish_transform send_ack run_moments on_objects_changed
    affected_prims insert_resynced insert_xforms is_xform_attribute insert with_version announce_all
    announce broadcast_resolved_transform broadcast_read broadcast check_update u64 record_change
    record_sent latest_foreign Str-discrete ℕ_discrete
one_move_stage = refl

after_flush : (run after_move (command flush ∷ [])).server_seq ≡ 1
unfolding run act attach_client is_busy insert_client new_session handle handle_transform
    checked_transform apply_transform finish_transform send_ack handle_flush save_layer run_moments
    on_objects_changed affected_prims insert_resynced insert_xforms is_xform_attribute insert
    with_version announce_all announce broadcast_resolved_transform broadcast_read broadcast
    check_update u64 record_change record_sent latest_foreign Str-discrete ℕ_discrete
after_flush = refl

-- The box's second move is version 2.
second_move_seq : (handle after_move (transform (box, 6) 1 8 0)).server_seq ≡ 2
unfolding run act attach_client is_busy insert_client new_session handle handle_transform
    checked_transform apply_transform finish_transform send_ack run_moments on_objects_changed
    affected_prims insert_resynced insert_xforms is_xform_attribute insert with_version announce_all
    announce broadcast_resolved_transform broadcast_read broadcast check_update u64 record_change
    record_sent latest_foreign Str-discrete ℕ_discrete
second_move_seq = refl

old_base_refused_example :
    check_update (run (handle after_move (transform (box, 6) 1 8 0)) []).versions 2 box 1 ≡ (
      if ltb (highest 2 (run (handle after_move (transform (box, 6) 1 8 0)) []).sent) 1
      then invalid_base
      else stale)
unfolding run Str-discrete ℕ_discrete
old_base_refused_example =
    old_base_refused small [] collaborative_edit 0 one_move [] (transform (box, 6) 1 8 0) 1 2 box 1
      (was_moved (box, 6) 8 0 ((box, 5) ∷ []) ((box, 6) ∷ (box, 5) ∷ []) (moved box) [] []
        one_move_stage one_move_sent.3 refl
        (attribute_changed (codes "xformOp:translate") refl (Memᴰ.head refl)))
      (omega arith) (omega arith) (omega (arith, one_move_sent.0)) (omega (arith, second_move_seq))

answered_once_example :
    (acks (handle after_move (transform (box, 6) 2 8 0)).sent
      ≡ answers after_move (transform (box, 6) 2 8 0) ++ acks after_move.sent)
    × ((handle after_move (transform (box, 6) 2 8 0)).clients ≡ after_move.clients)
answered_once_example = answered_once after_move (transform (box, 6) 2 8 0)

reached-IsSettled_example : IsSettled after_move
reached-IsSettled_example = reached-IsSettled small [] collaborative_edit 0 one_move

own_update_not_echoed_example :
    ((handle after_move (transform (box, 6) 1 8 0)).stage ≡ some ((box, 6) ∷ (box, 5) ∷ []))
    × ((handle after_move (transform (box, 6) 1 8 0)).dirty ≡ true)
    × ((new : List (ℕ × Frame ℕ ℕ)) × ((handle after_move (transform (box, 6) 1 8 0)).sent
          ≡ ack_frame (handle after_move (transform (box, 6) 1 8 0)) 1 8 none
            ++ (new ++ after_move.sent))
        × Every (λ p. p.0 ≢ 1) new)
own_update_not_echoed_example =
    own_update_not_echoed after_move (box, 6) 1 8 0 ((box, 5) ∷ [])
      (reached-IsSettled small [] collaborative_edit 0 one_move) one_move_stage one_move_sent.3 refl

update_refused_example :
    IsUnchanged after_move (handle after_move (transform (box, 6) 2 8 0))
    × ((handle after_move (transform (box, 6) 2 8 0)).sent
        ≡ ack_frame after_move 2 8 (some (reason (check_update after_move.versions 2 box 0)))
          ++ after_move.sent)
update_refused_example =
    update_refused after_move (box, 6) 2 8 0 (subst⁻¹ (λ r. r ≢ current) one_move_sent.4 (λ e. cc))

created_once_example :
    AnnouncedOnce after_move
      (handle after_move (create_prim [] cube 2 9))
      (codes "/Cube")
      (create_prim_broadcast [] cube new_cube)
      2
      9
created_once_example =
    created_once after_move [] cube 2 9 ((box, 5) ∷ []) new_cube one_move_stage refl

stamps_never_go_down_example : GoesDown after_move.server_seq (stamps 2 after_move.sent)
stamps_never_go_down_example =
    stamps_never_go_down small [] collaborative_edit 0 one_move 2 (omega (arith, one_move_sent.0))
