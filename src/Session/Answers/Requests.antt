-- ===== src/Session/Answers/Requests.antt =====
-- Transforms, creations and (de)activations in source/session/SessionManager.cpp send one
-- acknowledgement each.
use idtx_core.Base.{
  ℕ, ◌≡◌, refl, ap, ◌∙◌, Bool, true, false, not, ◌&&◌, Option, none, some, List, [], ◌∷◌, Str, ◌==◌,
  if◌then◌else◌, codes,
}
use mathlib.Core.Path.{subst}
use idtx_core.Versions.{UpdateBaseStatus, current, stale, invalid_base, record_change}
use idtx_core.Session.Stage.{
  StageOps, Authored, PrimType, CreatedPrim, SetActiveStatus, ok, invalid_path, not_found,
  not_deletable, already_in_state, failed,
}
use idtx_core.Session.{
  Session, Frame, ack, create_prim_broadcast, set_prim_active_broadcast, seq_of, bump,
}
use idtx_core.Session.Send.{
  send, note_sent, is_client, reaches, send_ack, broadcast, broadcast_to_all,
}
use idtx_core.Session.Notices.{run_moments}
use idtx_core.Session.Handlers.{
  authored, finish_transform, apply_transform, checked_transform, announced, finish_create,
  handle_create, finish_set_active, handle_set_active,
}
use idtx_core.Session.Answers.Frames.{
  acks, is_ack, Acked, Acked-same, Acked-broadcast, Acked-run_moments, Acked-send_correction,
}

-- The acknowledgement that a request is to get.
abbrev pub answer : {ops : StageOps} → Session ops → (origin request_id : ℕ) → List (ℕ × ℕ)
answer s origin request_id = if reaches s origin then (origin, request_id) ∷ [] else []

module _ {ops : StageOps} (s : Session ops) where
  -- One more acknowledgement, or none.
  Acked-if :
      (test : Bool) (t u : Session ops) (new : ℕ × ℕ)
      → Acked s [] t
      → u.clients ≡ t.clients
      → u.mode ≡ t.mode
      → acks u.sent ≡ new ∷ acks t.sent
      → Acked s (if test then new ∷ [] else []) (if test then u else t)
  Acked-if true t u new a ec em es = record {
    same_clients = ec ∙ a.same_clients;
    same_mode = em ∙ a.same_mode;
    acked = es ∙ ap (λ l. new ∷ l) a.acked;
  }
  Acked-if false t u new a ec em es = a

  Acked-send_ack :
      (t : Session ops) (origin request_id : ℕ) (error : Option Str)
      → Acked s [] t
      → Acked s (answer s origin request_id) (send_ack t origin request_id error)
  unfolding send_ack acks
  Acked-send_ack t origin request_id error a =
      let u = note_sent (send t origin (ack request_id error (seq_of t))) origin (seq_of t) in
      subst
        (λ cs.
          Acked s
            (if not (origin == 0) && is_client origin cs then (origin, request_id) ∷ [] else [])
            (send_ack t origin request_id error))
        a.same_clients (Acked-if (reaches t origin) t u (origin, request_id) a refl refl refl)

  pub Acked-authored :
      {R : Type 0}
      → (t : Session ops) (origin : ℕ) (x : Authored ops.Stage R) → Acked s [] t
      → Acked s [] (authored t origin x)
  Acked-authored t origin x a =
      let t' = record t { current_origin = origin } in
      let t'' = run_moments x.moments t' in
      Acked-same s [] t'' (authored t origin x) refl refl refl
        (Acked-run_moments s [] x.moments t' (Acked-same s [] t t' refl refl refl a))

  Acked-finish_transform :
      (t : Session ops) (path : Str) (origin request_id : ℕ) (result : Bool)
      → Acked s [] t
      → Acked s (answer s origin request_id) (finish_transform t path origin request_id result)
  unfolding finish_transform
  Acked-finish_transform t path origin request_id true a =
      let t' = record t { dirty = true } in
      Acked-send_ack t' origin request_id none (Acked-same s [] t t' refl refl refl a)
  Acked-finish_transform t path origin request_id false a =
      let error = some (codes "apply_failed") in
      Acked-send_correction s (answer s origin request_id) (send_ack t origin request_id error)
        origin path (Acked-send_ack t origin request_id error a)

  Acked-apply_transform :
      (t : Session ops) (u : ops.Update) (origin request_id : ℕ) (o : Option ops.Stage)
      → Acked s [] t
      → Acked s (answer s origin request_id) (apply_transform t u origin request_id o)
  unfolding apply_transform
  Acked-apply_transform t u origin request_id none a =
      let t' = record t { current_origin = 0 } in
      Acked-finish_transform t' (ops.update_path u) origin request_id false
        (Acked-same s [] t t' refl refl refl a)
  Acked-apply_transform t u origin request_id (some stage) a =
      let x = ops.apply stage u in
      Acked-finish_transform (authored t origin x) (ops.update_path u) origin request_id x.result
        (Acked-authored t origin x a)

  pub Acked-checked_transform :
      (t : Session ops) (u : ops.Update) (origin request_id : ℕ) (status : UpdateBaseStatus)
      → Acked s [] t
      → Acked s (answer s origin request_id) (checked_transform t u origin request_id status)
  unfolding checked_transform
  Acked-checked_transform t u origin request_id stale a =
      Acked-send_ack t origin request_id (some (codes "stale")) a
  Acked-checked_transform t u origin request_id invalid_base a =
      Acked-send_ack t origin request_id (some (codes "invalid_base")) a
  Acked-checked_transform t u origin request_id current a =
      Acked-apply_transform t u origin request_id t.stage a

  Acked-announced :
      (t : Session ops) (path : Str) (frame : ℕ → Frame ops.Transform ops.Shape)
      (origin request_id : ℕ)
      → ((n : ℕ) → is_ack (frame n) ≡ false)
      → Acked s [] t
      → Acked s (answer s origin request_id) (announced t path frame origin request_id)
  unfolding announced broadcast_to_all
  Acked-announced t path frame origin request_id h a =
      let t' = bump (record t { dirty = true }) in
      let seq = seq_of t' in
      let t'' = record t' { versions = record_change t'.versions path seq origin } in
      Acked-send_ack (broadcast t''.clients none (frame seq) t'') origin request_id none (
        Acked-broadcast s [] t''.clients none (frame seq) t'' (h seq)
          (Acked-same s [] t t'' refl refl refl a))

  Acked-finish_create :
      (t : Session ops) (parent : Str) (type : PrimType) (origin request_id : ℕ)
      (o : Option (CreatedPrim ops.Shape))
      → Acked s [] t
      → Acked s (answer s origin request_id) (finish_create t parent type origin request_id o)
  unfolding finish_create
  Acked-finish_create t parent type origin request_id none a =
      Acked-send_ack t origin request_id (some (codes "invalid_parent")) a
  Acked-finish_create t parent type origin request_id (some prim) a =
      Acked-announced t prim.prim_path (create_prim_broadcast parent type prim) origin request_id
        (λ n. refl) a

  pub Acked-handle_create :
      (t : Session ops) (parent : Str) (type : PrimType) (origin request_id : ℕ)
      (o : Option ops.Stage)
      → Acked s [] t
      → Acked s (answer s origin request_id) (handle_create t parent type origin request_id o)
  unfolding handle_create
  Acked-handle_create t parent type origin request_id none a =
      Acked-send_ack t origin request_id (some (codes "apply_failed")) a
  Acked-handle_create t parent type origin request_id (some stage) a =
      let x = ops.create stage parent type in
      let t0 = record t { create_in_progress = true } in
      let t' = authored t0 origin x in
      let t'' = record t' { create_in_progress = false } in
      Acked-finish_create t'' parent type origin request_id x.result (
        Acked-same s [] t' t'' refl refl refl
          (Acked-authored t0 origin x (Acked-same s [] t t0 refl refl refl a)))

  Acked-finish_set_active :
      (t : Session ops) (path : Str) (active : Bool) (origin request_id : ℕ)
      (status : SetActiveStatus)
      → Acked s [] t
      → Acked s
          (answer s origin request_id)
          (finish_set_active t path active origin request_id status)
  unfolding finish_set_active
  Acked-finish_set_active t path active origin request_id invalid_path a =
      Acked-send_ack t origin request_id (some (codes "unknown_prim")) a
  Acked-finish_set_active t path active origin request_id not_found a =
      Acked-send_ack t origin request_id (some (codes "unknown_prim")) a
  Acked-finish_set_active t path active origin request_id not_deletable a =
      Acked-send_ack t origin request_id (some (codes "not_deletable")) a
  Acked-finish_set_active t path active origin request_id failed a =
      Acked-send_ack t origin request_id (some (codes "apply_failed")) a
  Acked-finish_set_active t path active origin request_id already_in_state a =
      Acked-send_ack t origin request_id none a
  Acked-finish_set_active t path active origin request_id ok a =
      Acked-announced t path (set_prim_active_broadcast path active) origin request_id (λ n. refl) a

  pub Acked-handle_set_active :
      (t : Session ops) (path : Str) (active : Bool) (origin request_id : ℕ) (o : Option ops.Stage)
      → Acked s [] t
      → Acked s (answer s origin request_id) (handle_set_active t path active origin request_id o)
  unfolding handle_set_active
  Acked-handle_set_active t path active origin request_id none a =
      Acked-send_ack t origin request_id (some (codes "apply_failed")) a
  Acked-handle_set_active t path active origin request_id (some stage) a =
      let x = ops.set_active stage path active in
      let t0 = record t { set_active_in_progress = true } in
      let t' = authored t0 origin x in
      let t'' = record t' { set_active_in_progress = false } in
      Acked-finish_set_active t'' path active origin request_id x.result (
        Acked-same s [] t' t'' refl refl refl
          (Acked-authored t0 origin x (Acked-same s [] t t0 refl refl refl a)))
