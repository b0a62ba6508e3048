-- ===== src/Session/Outcomes.antt =====
-- What the handlers of source/session/SessionManager.cpp do with a refused update.
use idtx_core.Base.{ℕ, ◌≡◌, ◌≢◌, refl, Option, some, [], ◌++◌, Str, codes}
use mathlib.Core.Path.{subst⁻¹}
use idtx_core.Versions.{UpdateBaseStatus, current, stale, invalid_base, check_update, record_sent}
use idtx_core.Session.Stage.{StageOps}
use idtx_core.Session.{Session, transform}
use idtx_core.Session.Send.{reaches, send_ack}
use idtx_core.Session.Handlers.{checked_transform, handle_transform, handle}
use idtx_core.Session.Refines.Sends.{either_way}
use idtx_core.Session.Echo.{ack_frame, sent-send_ack}

-- The reason in the acknowledgement of an update that is refused.
abbrev pub reason : UpdateBaseStatus → Str
reason stale = codes "stale"
reason invalid_base = codes "invalid_base"
reason current = []

module _ {ops : StageOps} where
  -- All but the frames and the record of what was sent is as it was.
  pub record IsUnchanged (s t : Session ops) : Type 0 where
    pub same_stage : t.stage ≡ s.stage
    pub same_clients : t.clients ≡ s.clients
    pub same_server_seq : t.server_seq ≡ s.server_seq
    pub same_prims : t.versions.prims ≡ s.versions.prims
    pub same_dirty : t.dirty ≡ s.dirty

  pub unchanged : (s : Session ops) → IsUnchanged s s
  unchanged s = record {
    same_stage = refl;
    same_clients = refl;
    same_server_seq = refl;
    same_prims = refl;
    same_dirty = refl;
  }

  pub send_ack-IsUnchanged :
      (s : Session ops) (origin request_id : ℕ) (error : Option Str)
      → IsUnchanged s (send_ack s origin request_id error)
  unfolding send_ack record_sent
  send_ack-IsUnchanged s origin request_id error =
      either_way (IsUnchanged s) (reaches s origin) _ s
        (record {
          same_stage = refl;
          same_clients = refl;
          same_server_seq = refl;
          same_prims = refl;
          same_dirty = refl;
        })
        (record {
          same_stage = refl;
          same_clients = refl;
          same_server_seq = refl;
          same_prims = refl;
          same_dirty = refl;
        })

  checked_transform-refused :
      (s : Session ops) (u : ops.Update) (origin request_id : ℕ) (status : UpdateBaseStatus)
      → status ≢ current
      → checked_transform s u origin request_id status
        ≡ send_ack s origin request_id (some (reason status))
  unfolding checked_transform
  checked_transform-refused s u origin request_id stale ne = refl
  checked_transform-refused s u origin request_id invalid_base ne = refl
  checked_transform-refused s u origin request_id current ne = elim (ne refl) [ ]

  -- An update whose base is not current changes neither the stage, the clients, the counter of
  -- versions, the versions of the prims nor the mark of unsaved changes; it is answered with the
  -- reason, if its sender is a client with a number other than 0, and nothing else is sent.
  pub update_refused :
      (s : Session ops) (u : ops.Update) (origin request_id base_seq : ℕ)
      → check_update s.versions origin (ops.update_path u) base_seq ≢ current
      → IsUnchanged s (handle s (transform u origin request_id base_seq))
        × ((handle s (transform u origin request_id base_seq)).sent
            ≡ ack_frame s origin request_id
                (some (reason (check_update s.versions origin (ops.update_path u) base_seq)))
              ++ s.sent)
  unfolding handle handle_transform
  update_refused s u origin request_id base_seq ne =
      let status = check_update s.versions origin (ops.update_path u) base_seq in
      let error = some (reason status) in
      subst⁻¹
        (λ (t : Session ops).
          IsUnchanged s t × (t.sent ≡ ack_frame s origin request_id error ++ s.sent))
        (checked_transform-refused s u origin request_id status ne)
        (send_ack-IsUnchanged s origin request_id error, sent-send_ack s origin request_id error)
