-- ===== src/Session/Registry.antt =====
-- A session's clients: `AttachClient` and `DetachClient` of source/session/SessionManager.cpp, from
-- the look-up of the session on, and the idle test of its reaper.
use idtx_core.Base.{
  ℕ, ◌+◌, Bool, true, false, not, ◌&&◌, none, some, List, [], ◌∷◌, ◌==◌, leb, if◌then◌else◌,
}
use idtx_core.Versions.{no_versions}
use idtx_core.Session.Stage.{StageOps}
use idtx_core.Session.{
  Session, SessionMode, single_edit, single_runtime, collaborative_edit, collaborative_runtime,
}
use idtx_core.Session.Send.{is_client}

pub data AttachStatus : Type 0 where
  attached unknown_session single_edit_busy : AttachStatus

abbrev pub is_single_edit : SessionMode → Bool
is_single_edit single_edit = true
is_single_edit single_runtime = false
is_single_edit collaborative_edit = false
is_single_edit collaborative_runtime = false

abbrev pub has_clients : List ℕ → Bool
has_clients [] = false
has_clients (c ∷ cs) = true

unfoldable pub insert_client : ℕ → List ℕ → List ℕ
insert_client c cs = if is_client c cs then cs else c ∷ cs

unfoldable pub erase_client : ℕ → List ℕ → List ℕ
erase_client c [] = []
erase_client c (d ∷ ds) = let rest = erase_client c ds in if c == d then rest else d ∷ rest

module _ {ops : StageOps} where
  -- `IsSingleEditBusy` of a session that was found
  unfoldable pub is_busy : Session ops → Bool
  is_busy s = is_single_edit s.mode && has_clients s.clients

  unfoldable pub attach_client : Session ops → ℕ → Session ops × AttachStatus
  unfolding is_busy
  attach_client s c =
      if is_busy s
      then (s, single_edit_busy)
      else (record s { clients = insert_client c s.clients; empty_since = none }, attached)

  unfoldable pub detach_client : Session ops → ℕ → ℕ → Session ops
  detach_client s c now =
      let left = erase_client c s.clients in
      record s {
        clients = left;
        empty_since = if has_clients left then s.empty_since else some now;
      }

  -- The reaper's test; `timeout` is m_idle_timeout_ in the unit of the clock.
  unfoldable pub is_idle : Session ops → (timeout now : ℕ) → Bool
  is_idle s timeout now =
      not (has_clients s.clients)
      && elim s.empty_since [ none ↦ false | some since ↦ leb (since + timeout) now ]

-- What `Create` starts a session from; `now` is the time of its creation.
unfoldable pub new_session : (ops : StageOps) → ops.Stage → SessionMode → ℕ → Session ops
new_session ops stage mode now = record {
  stage = some stage;
  mode = mode;
  clients = [];
  empty_since = some now;
  current_origin = 0;
  reload_in_progress = false;
  create_in_progress = false;
  set_active_in_progress = false;
  server_seq = 0;
  versions = no_versions;
  dirty = false;
  queued = λ _. λ _. false;
  sent = [];
}
