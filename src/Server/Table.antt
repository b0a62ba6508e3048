-- ===== src/Server/Table.antt =====
-- The table of sessions of source/session/SessionManager.cpp. It is the list of its entries; the ids
-- are different, as random UUIDs are. What runs under the table's mutex is one step.
use idtx_core.Base.{
  ℕ, ◌+◌, Bool, true, false, not, Option, none, some, List, [], ◌∷◌, Str, leb, if◌then◌else◌,
}
use idtx_core.Bytes.{same}
use idtx_core.Session.Stage.{StageOps}
use idtx_core.Session.{Session, SessionMode, Command, reload, flush}
use idtx_core.Session.Registry.{
  is_busy, is_idle, attach_client, new_session, AttachStatus, unknown_session,
}
use idtx_core.Server.{
  Entry, AdmissionStatus, SubmitStatus, accepted, submit_to, teardown_session, with_session,
}

pub record Manager (ops : StageOps) : Type 0 where
  pub sessions : List (Entry ops)
  pub idle_timeout : ℕ  -- m_idle_timeout_
  pub next_connection_id : ℕ  -- of the websocket controller
  pub torn_down : List (Session ops)  -- the sessions that were torn down, the last one first

-- How `Create` gets at the file and its stage.
pub data Opening (Stage : Type 0) : Type 0 where
  not_resolved no_root_layer no_sidecar no_stage : Opening Stage
  opened : Stage → Opening Stage

pub data CreateStatus : Type 0 where
  created file_not_found stage_open_failed : CreateStatus

abbrev pub is_accepted : SubmitStatus → Bool
is_accepted accepted = true
is_accepted _ = false

-- Whether the session is the one to be left out.
abbrev pub is_id : Option Str → Str → Bool
is_id none id = false
is_id (some skip) id = same id skip

module _ {ops : StageOps} where
  -- `Get`
  unfoldable pub get : Str → List (Entry ops) → Option (Entry ops)
  get id [] = none
  get id (e ∷ es) = if same e.id id then some e else get id es

  -- The session object of the entry is changed.
  unfoldable pub put : Entry ops → List (Entry ops) → List (Entry ops)
  put e [] = []
  put e (d ∷ es) = let rest = put e es in if same d.id e.id then e ∷ es else d ∷ rest

  unfoldable pub put_back : Option (Entry ops) → List (Entry ops) → List (Entry ops)
  put_back none es = es
  put_back (some e) es = put e es

  abbrev pub is_some : Option (Entry ops) → Bool
  is_some none = false
  is_some (some e) = true

  abbrev pub exists : Str → List (Entry ops) → Bool
  exists id es = is_some (get id es)

  unfoldable pub erase : Str → List (Entry ops) → List (Entry ops)
  erase id [] = []
  erase id (e ∷ es) = let rest = erase id es in if same e.id id then es else e ∷ rest

  unfoldable pub create :
      Manager ops
      → (id usd_file : Str) → SessionMode
      → (auto_commit : Bool) → (now : ℕ) → Opening ops.Stage
      → Manager ops × CreateStatus
  create m id file mode auto now not_resolved = (m, file_not_found)
  create m id file mode auto now no_root_layer = (m, stage_open_failed)
  create m id file mode auto now no_sidecar = (m, stage_open_failed)
  create m id file mode auto now no_stage = (m, stage_open_failed)
  create m id file mode auto now (opened stage) =
      let e : Entry ops = record {
        id = id;
        usd_file = file;
        auto_commit = auto;
        session = new_session ops stage mode now;
        normal = [];
        priority = [];
      } in
      (record m { sessions = e ∷ m.sessions }, created)

  unfoldable pub destroy_found : Manager ops → Str → Option (Entry ops) → Manager ops × Bool
  destroy_found m id none = (m, false)
  destroy_found m id (some e) = (
    record m { sessions = erase id m.sessions; torn_down = teardown_session e ∷ m.torn_down },
    true,
  )

  abbrev pub destroy : Manager ops → Str → Manager ops × Bool
  destroy m id = destroy_found m id (get id m.sessions)

  unfoldable pub find_by_usd_file : Str → List (Entry ops) → List (Entry ops)
  find_by_usd_file file [] = []
  find_by_usd_file file (e ∷ es) =
      let rest = find_by_usd_file file es in if same e.usd_file file then e ∷ rest else rest

  -- A submission to a session that was found before: the table's entry is changed.
  unfoldable pub submit_at :
      List (Entry ops)
      → Str
      → AdmissionStatus
      → Command ops.Update
      → List (Entry ops) × SubmitStatus
  submit_at es id a x = let (o, status) = submit_to (get id es) a x in (put_back o es, status)

  -- The loop of `SubmitReloadSessionsCommand` over the sessions that were found, with the number of
  -- those that accepted; the scheduler of each session gives its answer.
  unfoldable pub reload_found :
      List (Entry ops)
      → List (Entry ops)
      → Option Str
      → (Str → AdmissionStatus)
      → List (Entry ops) × ℕ
  reload_found es [] skip answers = (es, 0)
  reload_found es (d ∷ ds) skip answers =
      let (next, status) = submit_at es d.id (answers d.id) reload in
      let skipped = reload_found es ds skip answers in
      let (last, n) = reload_found next ds skip answers in
      if is_id skip d.id then skipped else (last, (if is_accepted status then 1 else 0) + n)

  unfoldable pub submit_reload_sessions_command :
      List (Entry ops) → Str → Option Str → (Str → AdmissionStatus) → List (Entry ops) × ℕ
  submit_reload_sessions_command es file skip answers =
      reload_found es (find_by_usd_file file es) skip answers

  -- The loop of `SubmitFlushDirtySessionsCommand`
  unfoldable pub flush_found :
      List (Entry ops) → List (Entry ops) → (Str → AdmissionStatus) → List (Entry ops) × ℕ
  flush_found es [] answers = (es, 0)
  flush_found es (d ∷ ds) answers =
      let (next, status) = submit_at es d.id (answers d.id) flush in
      let clean = flush_found es ds answers in
      let (last, n) = flush_found next ds answers in
      if d.session.dirty then (last, (if is_accepted status then 1 else 0) + n) else clean

  abbrev pub submit_flush_dirty_sessions_command :
      List (Entry ops) → (Str → AdmissionStatus) → List (Entry ops) × ℕ
  submit_flush_dirty_sessions_command es answers = flush_found es es answers

  -- The loop of `ReapIdleSessions`: what stays, and what is reaped.
  unfoldable pub sweep : (timeout now : ℕ) → List (Entry ops) → List (Entry ops) × List (Entry ops)
  sweep timeout now [] = ([], [])
  sweep timeout now (e ∷ es) =
      let (kept, reaped) = sweep timeout now es in
      if is_idle e.session timeout now then (kept, e ∷ reaped) else (e ∷ kept, reaped)

  unfoldable pub teardown_all : List (Entry ops) → List (Session ops) → List (Session ops)
  teardown_all [] done = done
  teardown_all (e ∷ es) done = teardown_all es (teardown_session e ∷ done)

  unfoldable pub reap_idle_sessions : Manager ops → (now : ℕ) → Manager ops
  reap_idle_sessions m now =
      let (kept, reaped) = sweep m.idle_timeout now m.sessions in
      if leb m.idle_timeout 0
      then m
      else record m { sessions = kept; torn_down = teardown_all reaped m.torn_down }

  -- `AttachClient`
  unfoldable pub attach_to :
      List (Entry ops) → Option (Entry ops) → ℕ → List (Entry ops) × AttachStatus
  attach_to es none c = (es, unknown_session)
  attach_to es (some e) c =
      let (s, status) = attach_client e.session c in (put (with_session e s) es, status)

  abbrev pub is_single_edit_busy : Option (Entry ops) → Bool
  is_single_edit_busy none = false
  is_single_edit_busy (some e) = is_busy e.session

  -- `OnAccept`: a connection that is let in takes the next number.
  unfoldable pub on_accept : Manager ops → Option Str → Manager ops × Option ℕ
  on_accept m none = (m, none)
  on_accept m (some sid) =
      if not (exists sid m.sessions)
      then (m, none)
      else if is_single_edit_busy (get sid m.sessions)
      then (m, none)
      else (record m { next_connection_id = m.next_connection_id + 1 }, some m.next_connection_id)
