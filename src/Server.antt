-- ===== src/Server.antt =====
-- The sessions of the server and the threads that submit commands to them: the submission of
-- commands and the table of sessions (source/session/SessionManager.cpp), and the websocket handlers
-- (source/controller/WebSocketController.cpp).
pub mod Socket
pub mod Tally
pub mod Talk
pub mod Clients
pub mod Messages
pub mod Even
pub mod Requests
pub mod Editors
pub mod Table
mod Tests
use idtx_core.Base.{
  ℕ, Bool, false, not, ◌&&◌, if◌then◌else◌, Option, none, some, List, [], ◌∷◌, ◌++◌, Str,
}
use idtx_core.Session.Stage.{StageOps}
use idtx_core.Session.{Session, Command}
use idtx_core.Session.Handlers.{handle, commit_overrides}

-- `CommandAdmissionStatus`, the answer of the scheduler
pub data AdmissionStatus : Type 0 where
  admitted full stopping : AdmissionStatus

pub data SubmitStatus : Type 0 where
  accepted queue_full session_closing unknown : SubmitStatus

unfoldable pub to_submit_status : AdmissionStatus → SubmitStatus
to_submit_status admitted = accepted
to_submit_status full = queue_full
to_submit_status stopping = session_closing

-- A session with what surrounds it, and with the commands in the two mailboxes of its scheduler, the
-- oldest first.
pub record Entry (ops : StageOps) : Type 0 where
  pub id : Str
  pub usd_file : Str
  pub auto_commit : Bool
  pub session : Session ops
  pub normal : List (Command ops.Update)
  pub priority : List (Command ops.Update)

-- Whether the session layer of the stage is there and not empty.
unfoldable pub has_layer : (ops : StageOps) → Option ops.Layer → Bool
has_layer ops none = false
has_layer ops (some layer) = not (ops.is_empty layer)

unfoldable pub has_overrides : (ops : StageOps) → Option ops.Stage → Bool
has_overrides ops none = false
has_overrides ops (some stage) = has_layer ops (ops.session_layer stage)

module _ {ops : StageOps} where
  unfoldable pub push : Entry ops → AdmissionStatus → Command ops.Update → Entry ops
  push e admitted c = record e { normal = e.normal ++ c ∷ [] }
  push e full c = e
  push e stopping c = e

  unfoldable pub push_priority : Entry ops → AdmissionStatus → Command ops.Update → Entry ops
  push_priority e admitted c = record e { priority = e.priority ++ c ∷ [] }
  push_priority e full c = e
  push_priority e stopping c = e

  -- `Submit`; the scheduler's answer is given.
  abbrev pub submit : Entry ops → AdmissionStatus → Command ops.Update → Entry ops × SubmitStatus
  submit e a c = (push e a c, to_submit_status a)

  -- `Submit` to the session that `Get` has found
  unfoldable pub submit_to :
      Option (Entry ops) → AdmissionStatus → Command ops.Update → Option (Entry ops) × SubmitStatus
  submit_to none a c = (none, unknown)
  submit_to (some e) a c = (some (push e a c), to_submit_status a)

  abbrev pub with_session : Entry ops → Session ops → Entry ops
  with_session e s = record e { session = s }

  -- The consumer takes the next command, urgent ones first, and handles it.
  unfoldable pub consume_normal : Entry ops → List (Command ops.Update) → Entry ops
  consume_normal e [] = e
  consume_normal e (c ∷ cs) = record e { session = handle e.session c; normal = cs }

  unfoldable pub consume_from : Entry ops → List (Command ops.Update) → Entry ops
  consume_from e [] = consume_normal e e.normal
  consume_from e (c ∷ cs) = record e { session = handle e.session c; priority = cs }

  abbrev pub consume : Entry ops → Entry ops
  consume e = consume_from e e.priority

  -- `WaitIdle` after `CloseAdmission`: all that is left is handled.
  unfoldable pub drain : Session ops → List (Command ops.Update) → Session ops
  drain s [] = s
  drain s (c ∷ cs) = drain (handle s c) cs

  -- `TeardownSession` up to the release of the stage
  unfoldable pub teardown_session : Entry ops → Session ops
  teardown_session e =
      let s = drain e.session (e.priority ++ e.normal) in
      let committed = (commit_overrides s false s.stage).0 in
      let s' = if e.auto_commit && has_overrides ops s.stage then committed else s in
      record s' { stage = none }
