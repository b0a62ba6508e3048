-- ===== src/Session/Run.antt =====
-- Everything that happens to a session: its consumer (source/session/SessionManager.cpp) runs a
-- command, a client comes or goes, an io thread (source/controller/WebSocketController.cpp) answers
-- a client by itself or asks for a correction.
use idtx_core.Base.{ℕ, refl, true, none, some, List, [], ◌∷◌, Str, Str-discrete, ℕ_discrete, update}
use idtx_core.Session.Stage.{StageOps}
use idtx_core.Session.{Session, Command, SessionMode, handshake, ack}
use idtx_core.Session.Send.{send}
use idtx_core.Session.Handlers.{handle}
use idtx_core.Session.Registry.{
  AttachStatus, attached, single_edit_busy, insert_client, attach_client, detach_client, is_busy,
  new_session,
}
use idtx_core.Session.Protocol.{Ext, unversioned}
use idtx_core.Session.Refines.{Ext-same, Ext-handle}
use idtx_core.Session.Refines.Sends.{either_way}

pub data Action (Update : Type 0) : Type 0 where
  command : Command Update → Action Update
  attach : (connection : ℕ) → Action Update
  detach : (connection now : ℕ) → Action Update
  greet : (connection : ℕ) → Action Update
  reject : (connection request_id : ℕ) → Str → Action Update
  ask_correction : (connection : ℕ) → Str → Action Update

module _ {ops : StageOps} where
  -- `request->queued.exchange(true)`
  abbrev pub mark_queued : Session ops → ℕ → Str → Session ops
  mark_queued s c path = record s {
    queued = update ℕ_discrete s.queued c (update Str-discrete (s.queued c) path true);
  }

  unfoldable pub act : Session ops → Action ops.Update → Session ops
  act s (command c) = handle s c
  act s (attach c) = (attach_client s c).0
  act s (detach c now) = detach_client s c now
  act s (greet c) = send s c handshake
  act s (reject c request_id error) = send s c (ack request_id (some error) 0)
  act s (ask_correction c path) = mark_queued s c path

  unfoldable pub run : Session ops → List (Action ops.Update) → Session ops
  run s [] = s
  run s (a ∷ as') = run (act s a) as'

-- A session after all that has happened to it.
abbrev pub reached :
    (ops : StageOps) → ops.Stage → SessionMode → ℕ → List (Action ops.Update) → Session ops
reached ops stage mode created as' = run (new_session ops stage mode created) as'

module _ {ops : StageOps} (s : Session ops) where
  Ext-act : (t : Session ops) (a : Action ops.Update) → Ext s t → Ext s (act t a)
  unfolding act attach_client detach_client is_busy
  Ext-act t (command c) x = Ext-handle s t c x
  Ext-act t (attach c) x =
      let t' = record t { clients = insert_client c t.clients; empty_since = none } in
      either_way (λ (r : Session ops × AttachStatus). Ext s r.0) (is_busy t) (t, single_edit_busy)
        (t', attached) x (Ext-same s t t' refl refl refl x)
  Ext-act t (detach c now) x = Ext-same s t (act t (detach c now)) refl refl refl x
  Ext-act t (greet c) (es, m) = (es, unversioned m c handshake refl)
  Ext-act t (reject c request_id error) (es, m) =
      (es, unversioned m c (ack request_id (some error) 0) refl)
  Ext-act t (ask_correction c path) x = Ext-same s t (mark_queued t c path) refl refl refl x

  -- Whatever happens to a session, it takes steps of the protocol only.
  pub Ext-run : (t : Session ops) (as' : List (Action ops.Update)) → Ext s t → Ext s (run t as')
  unfolding run
  Ext-run t [] x = x
  Ext-run t (a ∷ as') x = Ext-run (act t a) as' (Ext-act t a x)
