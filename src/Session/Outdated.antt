-- ===== src/Session/Outdated.antt =====
-- What a change of a prim by source/session/SessionManager.cpp means for the updates of the other
-- clients.
mod Steps
use mathlib.Core.Path.{subst, subst⁻¹}
use idtx_core.Base.{
  ℕ, ◌+◌, ◌^◌, ◌≤◌, ◌<◌, ◌≡◌, ◌≢◌, refl, sym, ap, ◌∙◌, Bool, false, ◌||◌, some, List, [], ◌∷◌, ◌++◌,
  Str, arith, ltb, if◌then◌else◌,
}
use idtx_core.Versions.{current, stale, invalid_base, check_update}
use idtx_core.Versions.History.{Event, foreign_seq, sent_seq, required_status}
use idtx_core.Versions.Refinement.{check_update-replay}
use idtx_core.Versions.Clients.{foreign_seq-front}
use idtx_core.Session.Stage.{StageOps, Notice, PrimType, CreatedPrim, ok}
use idtx_core.Session.{
  Session, SessionMode, Frame, Command, transform, create_prim, set_prim_active,
  create_prim_broadcast, set_prim_active_broadcast, frame_seq,
}
use idtx_core.Session.Notices.{run_moments}
use idtx_core.Session.Reports.{Reports, affected_prims-Reports}
use idtx_core.Session.Handlers.{
  authored, finish_transform, apply_transform, checked_transform, handle_transform, announced,
  handle,
}
use idtx_core.Session.Registry.{new_session}
use idtx_core.Session.Protocol.{here, Ext}
use idtx_core.Session.Refines.{Ext-same, Ext-finish_transform}
use idtx_core.Session.History.{
  highest, Moves-server_seq, Moves-versions, Moves-sent, Moves-IsOrdered,
}
use idtx_core.Session.Settled.{Marks, IsSettled}
use idtx_core.Session.Settled.Runs.{reached-IsSettled}
use idtx_core.Session.Announced.{handle-created, handle-activated}
use idtx_core.Session.Run.{Action, run, reached, Ext-run}
use idtx_core.Session.Versioning.{Moves-append, steps_of}
use idtx_core.Session.Outdated.Steps.{
  listening, hears, Outdated, later, announced-Outdated, run_moments-Outdated,
}

-- How a command changes a prim, so that the clients are told of it: it creates it, it takes it away
-- or brings it back, or it authors an update and a notice meanwhile reports the prim.
pub data Changes {ops : StageOps} (s : Session ops) (origin : ℕ) (path : Str)
    : Command ops.Update → Type 0 where
  was_created :
      (parent : Str) (type : PrimType) (request_id : ℕ) (stage : ops.Stage)
      (prim : CreatedPrim ops.Shape)
      → s.stage ≡ some stage
      → (ops.create stage parent type).result ≡ some prim
      → prim.prim_path ≡ path
      → Changes s origin path (create_prim parent type origin request_id)
  was_activated :
      (active : Bool) (request_id : ℕ) (stage : ops.Stage)
      → s.stage ≡ some stage
      → (ops.set_active stage path active).result ≡ ok
      → Changes s origin path (set_prim_active path active origin request_id)
  was_moved :
      (u : ops.Update) (request_id base_seq : ℕ) (stage moment : ops.Stage) (n : Notice)
      (before after : List (ops.Stage × Notice))
      → s.stage ≡ some stage
      → check_update s.versions origin (ops.update_path u) base_seq ≡ current
      → (ops.apply stage u).moments ≡ before ++ (moment, n) ∷ after
      → Reports n path
      → Changes s origin path (transform u origin request_id base_seq)

bounded :
    {ops : StageOps} {t u : Session ops} → Ext t u → u.server_seq < 2 ^ 64 → t.server_seq < 2 ^ 64
bounded (es, m) lt = omega (arith, Moves-server_seq m)

settled-hears :
    {ops : StageOps} (s : Session ops) (origin : ℕ)
    → IsSettled s
    → listening (record s { current_origin = origin }) ≡ hears origin
unfolding IsSettled
settled-hears s origin h =
    ap
      (λ (m : Marks). record {
        passes_over = m.creates || m.sets_active;
        reloads = m.reloads;
        origin = origin;
      })
      h

-- An update on a current base, from its authoring on.
handle-moved :
    {ops : StageOps} (s : Session ops) (u : ops.Update) (origin request_id base_seq : ℕ)
    (stage : ops.Stage)
    → s.stage ≡ some stage
    → check_update s.versions origin (ops.update_path u) base_seq ≡ current
    → handle s (transform u origin request_id base_seq)
      ≡ finish_transform
          (authored s origin (ops.apply stage u))
          (ops.update_path u)
          origin
          request_id
          (ops.apply stage u).result
unfolding handle handle_transform checked_transform apply_transform
handle-moved s u origin request_id base_seq stage es ec = rw (ec, es)

module _ {ops : StageOps} (s : Session ops) (sender : ℕ) (path : Str) (base : ℕ) where
  announced-after :
      (t : Session ops) (at : Str)
      → at ≡ path
      → (frame : ℕ → Frame ops.Transform ops.Shape) (origin request_id : ℕ) (last : Session ops)
      → last ≡ announced t at frame origin request_id
      → ((n : ℕ) → frame_seq (frame n) ≡ n)
      → origin ≢ sender
      → base ≤ s.server_seq
      → last.server_seq < 2 ^ 64
      → Ext s t
      → Outdated s sender path base last
  announced-after t at same frame origin request_id last e law ne le lt x =
      let e' : last ≡ announced t path frame origin request_id =
        e ∙ ap (λ p. announced t p frame origin request_id) same in
      subst⁻¹ (Outdated s sender path base) e' (
        announced-Outdated s sender path base t frame origin request_id law ne le
          (subst (λ (v : Session ops). v.server_seq < 2 ^ 64) e' lt) x)

  -- After a command that changes the prim on behalf of somebody else.
  handle-Outdated :
      (origin : ℕ) (c : Command ops.Update)
      → Changes s origin path c
      → IsSettled s
      → origin ≢ sender
      → base ≤ s.server_seq
      → (handle s c).server_seq < 2 ^ 64
      → Outdated s sender path base (handle s c)
  handle-Outdated origin _ (was_created parent type request_id stage prim es er ep) h ne le lt =
      let made = record s {
        stage = some (ops.create stage parent type).stage;
        current_origin = 0;
        create_in_progress = false;
      } in
      let frame = create_prim_broadcast parent type prim in
      announced-after made prim.prim_path ep frame origin request_id _
        (handle-created s parent type origin request_id stage prim es er) (λ n. refl) ne le lt
        (Ext-same s s made refl refl refl ([], here))
  handle-Outdated origin _ (was_activated active request_id stage es er) h ne le lt =
      let made = record s {
        stage = some (ops.set_active stage path active).stage;
        current_origin = 0;
        set_active_in_progress = false;
      } in
      announced-after made path refl (set_prim_active_broadcast path active) origin request_id _
        (handle-activated s path active origin request_id stage es er) (λ n. refl) ne le lt
        (Ext-same s s made refl refl refl ([], here))
  handle-Outdated origin _
        (was_moved u request_id base_seq stage moment n before after es ec em reports) h ne le lt =
      let a = ops.apply stage u in
      let t = record s { current_origin = origin } in
      let t' = run_moments a.moments t in
      let last =
        finish_transform (authored s origin a) (ops.update_path u) origin request_id a.result in
      let e : handle s (transform u origin request_id base_seq) ≡ last =
        handle-moved s u origin request_id base_seq stage es ec in
      let rest : Ext t' last =
        Ext-finish_transform t' (authored s origin a) (ops.update_path u) origin request_id a.result
          (Ext-same t' t' (authored s origin a) refl refl refl ([], here)) in
      let small : t'.server_seq < 2 ^ 64 =
        bounded rest (subst (λ (v : Session ops). v.server_seq < 2 ^ 64) e lt) in
      subst⁻¹ (Outdated s sender path base) e (
        later s sender path base t' last rest (
          subst⁻¹ (λ ms. Outdated s sender path base (run_moments ms t)) em
            (run_moments-Outdated s sender path base before after moment n origin t
              (settled-hears s origin h) (affected_prims-Reports n path reports) ne le
              (subst (λ ms. (run_moments ms t).server_seq < 2 ^ 64) em small)
              (Ext-same s s t refl refl refl ([], here)))))

-- What `required_status` says where somebody else's change is newer than the base.
required_status-outdated :
    (h : List Event) (sender : ℕ) (path : Str) (base : ℕ)
    → base < foreign_seq sender path h
    → required_status h sender path base
      ≡ (if ltb (sent_seq sender h) base then invalid_base else stale)
unfolding required_status
required_status-outdated h sender path base lt = ground arith

-- However a session got where it is, and whatever happens to it later, short of 2 ^ 64 versions:
-- after a command changed a prim on behalf of somebody else than a sender with a number other than
-- 0, by creating it, by taking it away or bringing it back, or by an update with a current base in
-- whose authoring a notice reported the prim as composed anew or a transform attribute of it as
-- composed anew or changed, the sender's updates of that prim on a version from before the command
-- are refused: as invalid if no frame that was sent to it had that version or a later one, as stale
-- otherwise.
pub old_base_refused :
    (ops : StageOps) (stage : ops.Stage) (mode : SessionMode) (start : ℕ)
    (as' after : List (Action ops.Update)) (c : Command ops.Update) (origin sender : ℕ) (path : Str)
    (base : ℕ)
    → Changes (reached ops stage mode start as') origin path c
    → sender ≢ 0
    → origin ≢ sender
    → base ≤ (reached ops stage mode start as').server_seq
    → (run (handle (reached ops stage mode start as') c) after).server_seq < 2 ^ 64
    → check_update
        (run (handle (reached ops stage mode start as') c) after).versions
        sender
        path
        base
      ≡ (if ltb (highest sender (run (handle (reached ops stage mode start as') c) after).sent) base
          then invalid_base
          else stale)
unfolding new_session
old_base_refused ops stage mode start as' after c origin sender path base ch nz ne le lt =
    let s = reached ops stage mode start as' in
    let t = handle s c in
    let u = run t after in
    let rest : Ext t u = Ext-run t t after ([], here) in
    let (h, m) = steps_of ops stage mode start as' in
    let (es, n, newer_es) = later s sender path base t u rest (
      handle-Outdated s sender path base origin c ch (reached-IsSettled ops stage mode start as') ne
        le (bounded rest lt)) in
    let all = Moves-append m n in
    let outdated : base < foreign_seq sender path (es ++ h) =
      omega (arith, foreign_seq-front es h sender path, newer_es) in
    ap (λ v. check_update v sender path base) (Moves-versions all refl)
    ∙ check_update-replay (es ++ h) sender path base nz (Moves-IsOrdered all lt)
    ∙ required_status-outdated (es ++ h) sender path base outdated
    ∙ ap (λ k. if ltb k base then invalid_base else stale) (sym (Moves-sent all refl sender))
