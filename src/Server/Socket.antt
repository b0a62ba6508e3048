-- ===== src/Server/Socket.antt =====
-- The handlers of source/controller/WebSocketController.cpp from the look-up of the session on, and
-- the submissions of source/session/SessionManager.cpp that they call. The result of the look-up is
-- an argument, and so is what the scheduler answers.
use idtx_core.Base.{
  ℕ, Bool, false, Option, none, some, List, [], ◌∷◌, Str, Str-discrete, codes, update, ℕ_discrete,
  if◌then◌else◌,
}
use idtx_core.Bytes.{is_empty}
use idtx_core.Session.Stage.{StageOps, PrimType}
use idtx_core.Session.{
  Session, Frame, transform, create_prim, set_prim_active, correction, join, handshake, ack,
}
use idtx_core.Session.Run.{mark_queued}
use idtx_core.Session.Registry.{
  attach_client, detach_client, AttachStatus, attached, unknown_session, single_edit_busy,
}
use idtx_core.Server.{
  AdmissionStatus, admitted, full, stopping, SubmitStatus, accepted, queue_full, Entry,
  push_priority, submit_to, with_session,
}

unfoldable pub rejection_reason : SubmitStatus → Str
rejection_reason queue_full = codes "queue_full"
rejection_reason _ = codes "session_closing"

-- What a client sends; a handshake, a message that only the server sends, and an empty one are
-- ignored alike, as are texts and bytes that do not parse.
pub data Message (Update : Type 0) : Type 0 where
  xform_update : Update → (request_id base_seq : ℕ) → Message Update
  create_prim_request : Str → PrimType → (request_id : ℕ) → Message Update
  set_prim_active_request : Str → (active : Bool) → (request_id : ℕ) → Message Update
  ignored : Message Update

-- What the io threads send by themselves, the last one first.
abbrev pub Frames : StageOps → Type 0
Frames ops = List (ℕ × Frame ops.Transform ops.Shape)

abbrev pub rejection : {T S : Type 0} → ℕ → ℕ → SubmitStatus → ℕ × Frame T S
rejection c request_id status = (c, ack request_id (some (rejection_reason status)) 0)

module _ {ops : StageOps} where
  abbrev pub submit_transform_command :
      Option (Entry ops)
      → AdmissionStatus
      → ops.Update
      → (origin request_id base_seq : ℕ) → Option (Entry ops) × SubmitStatus
  submit_transform_command o a u origin request_id base_seq =
      submit_to o a (transform u origin request_id base_seq)

  abbrev pub submit_create_prim_command :
      Option (Entry ops)
      → AdmissionStatus
      → Str
      → PrimType
      → (origin request_id : ℕ) → Option (Entry ops) × SubmitStatus
  submit_create_prim_command o a parent type origin request_id =
      submit_to o a (create_prim parent type origin request_id)

  abbrev pub submit_set_prim_active_command :
      Option (Entry ops)
      → AdmissionStatus
      → Str
      → (active : Bool) → (origin request_id : ℕ) → Option (Entry ops) × SubmitStatus
  submit_set_prim_active_command o a path active origin request_id =
      submit_to o a (set_prim_active path active origin request_id)

  abbrev pub submit_join_snapshot_command :
      Option (Entry ops) → AdmissionStatus → ℕ → Option (Entry ops) × SubmitStatus
  submit_join_snapshot_command o a c = submit_to o a (join c)

  unfoldable pub unmark : Session ops → ℕ → Str → Session ops
  unmark s c path = record s {
    queued = update ℕ_discrete s.queued c (update Str-discrete (s.queued c) path false);
  }

  -- A correction that is not accepted is not marked.
  unfoldable pub submit_marked : Entry ops → ℕ → Str → AdmissionStatus → Entry ops
  submit_marked e c path admitted = push_priority e admitted (correction c path)
  submit_marked e c path full = with_session e (unmark e.session c path)
  submit_marked e c path stopping = with_session e (unmark e.session c path)

  -- `SubmitCorrectionCommand`
  unfoldable pub submit_correction_command :
      Option (Entry ops) → ℕ → Str → AdmissionStatus → Option (Entry ops)
  submit_correction_command none c path a = none
  submit_correction_command (some e) c path a =
      if e.session.queued c path
      then some e
      else some (submit_marked (with_session e (mark_queued e.session c path)) c path a)

  -- `SubmitCorrection`
  unfoldable pub submit_correction :
      Option (Entry ops) → ℕ → Str → AdmissionStatus → Option (Entry ops)
  submit_correction o c path a = if is_empty path then o else submit_correction_command o c path a

  -- The rest of `OnMessage` once an update has been submitted: an answer to one that was not
  -- accepted, and a correction if the queue was full.
  unfoldable pub after_update :
      ℕ
      → Str
      → ℕ
      → AdmissionStatus
      → Option (Entry ops) × SubmitStatus
      → Option (Entry ops) × Frames ops
  after_update c path request_id b (o, accepted) = (o, [])
  after_update c path request_id b (o, queue_full) =
      (submit_correction o c path b, rejection c request_id queue_full ∷ [])
  after_update c path request_id b (o, status) = (o, rejection c request_id status ∷ [])

  -- The same for the other two requests, which need no correction.
  unfoldable pub after_request :
      ℕ → ℕ → Option (Entry ops) × SubmitStatus → Option (Entry ops) × Frames ops
  after_request c request_id (o, accepted) = (o, [])
  after_request c request_id (o, status) = (o, rejection c request_id status ∷ [])

  -- `OnMessage` of the connection `c`
  unfoldable pub on_message :
      Option (Entry ops)
      → ℕ
      → Message ops.Update
      → (answer correction_answer : AdmissionStatus) → Option (Entry ops) × Frames ops
  on_message o c (xform_update u request_id base_seq) a b =
      after_update c (ops.update_path u) request_id b
        (submit_transform_command o a u c request_id base_seq)
  on_message o c (create_prim_request parent type request_id) a b =
      after_request c request_id (submit_create_prim_command o a parent type c request_id)
  on_message o c (set_prim_active_request path active request_id) a b =
      after_request c request_id (submit_set_prim_active_command o a path active c request_id)
  on_message o c ignored a b = (o, [])

  -- `OnOpen`: the frames that are sent, and the reason for closing the connection, if it is closed.
  unfoldable pub after_join :
      ℕ → Option (Entry ops) × SubmitStatus → Option (Entry ops) × Option Str
  after_join c (o, accepted) = (o, none)
  after_join c (o, status) = (o, some (rejection_reason status))

  unfoldable pub after_attach :
      Entry ops
      → ℕ
      → AdmissionStatus
      → Session ops × AttachStatus
      → Option (Entry ops) × (Frames ops × Option Str)
  after_attach e c a (s, attached) =
      let (o, close) = after_join c (submit_join_snapshot_command (some (with_session e s)) a c) in
      (o, ((c, handshake) ∷ [], close))
  after_attach e c a (s, single_edit_busy) = (some e, ([], some (codes "single_edit_busy")))
  after_attach e c a (s, unknown_session) = (some e, ([], some (codes "session no longer exists")))

  unfoldable pub on_open :
      Option (Entry ops) → ℕ → AdmissionStatus → Option (Entry ops) × (Frames ops × Option Str)
  on_open none c a = (none, ([], some (codes "session no longer exists")))
  on_open (some e) c a = after_attach e c a (attach_client e.session c)

  -- `OnClose` of a connection that was attached, at the time `now`
  unfoldable pub on_close : Option (Entry ops) → ℕ → ℕ → Option (Entry ops)
  on_close none c now = none
  on_close (some e) c now = some (with_session e (detach_client e.session c now))
