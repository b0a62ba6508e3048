-- ===== src/Server/Talk.antt =====
-- What happens to a session while clients talk to it, from the io threads (OnOpen, OnMessage and
-- OnClose of source/controller/WebSocketController.cpp), the consumer and the other submissions of
-- source/session/SessionManager.cpp.
use idtx_core.Base.{ℕ, Bool, true, not, Option, none, some, List, [], ◌∷◌, ◌++◌, ◌==◌}
use idtx_core.Session.Stage.{StageOps}
use idtx_core.Session.{commit, reload, flush}
use idtx_core.Server.{Entry, AdmissionStatus, submit_to, consume, teardown_session}
use idtx_core.Server.Socket.{
  Message, xform_update, create_prim_request, set_prim_active_request, ignored, Frames, on_message,
  on_open, on_close,
}

pub data Event (Update : Type 0) : Type 0 where
  opens : (connection : ℕ) → AdmissionStatus → Event Update
  says :
      (connection : ℕ)
      → Message Update
      → (answer correction_answer : AdmissionStatus) → Event Update
  closes : (connection now : ℕ) → Event Update
  commits reloads flushes : AdmissionStatus → Event Update
  consumes tears_down : Event Update

-- The session as long as it is in the table, and what it had sent when it was torn down; what the io
-- threads have sent, and the requests that have come in, the last one first.
pub record Talk (ops : StageOps) : Type 0 where
  pub live : Option (Entry ops)
  pub gone : Frames ops
  pub direct : Frames ops
  pub received : List (ℕ × ℕ)

-- The request in a message.
abbrev pub requests : {Update : Type 0} → ℕ → Message Update → List (ℕ × ℕ)
requests c (xform_update u request_id base_seq) = (c, request_id) ∷ []
requests c (create_prim_request parent type request_id) = (c, request_id) ∷ []
requests c (set_prim_active_request path active request_id) = (c, request_id) ∷ []
requests c ignored = []

module _ {ops : StageOps} where
  unfoldable pub consume_live : Option (Entry ops) → Option (Entry ops)
  consume_live none = none
  consume_live (some e) = some (consume e)

  unfoldable pub tear_down : Talk ops → Option (Entry ops) → Talk ops
  tear_down t none = t
  tear_down t (some e) = record t { live = none; gone = (teardown_session e).sent ++ t.gone }

  unfoldable pub happen : Talk ops → Event ops.Update → Talk ops
  happen t (opens c a) =
      let r = on_open t.live c a in record t { live = r.0; direct = r.1.0 ++ t.direct }
  happen t (says c m a b) =
      let r = on_message t.live c m a b in
      record t { live = r.0; direct = r.1 ++ t.direct; received = requests c m ++ t.received }
  happen t (closes c now) = record t { live = on_close t.live c now }
  happen t consumes = record t { live = consume_live t.live }
  happen t (commits a) = record t { live = (submit_to t.live a commit).0 }
  happen t (reloads a) = record t { live = (submit_to t.live a reload).0 }
  happen t (flushes a) = record t { live = (submit_to t.live a flush).0 }
  happen t tears_down = tear_down t t.live

  unfoldable pub happens : Talk ops → List (Event ops.Update) → Talk ops
  happens t [] = t
  happens t (e ∷ es) = happens (happen t e) es

-- The connection does not close.
abbrev pub keeps_open : {Update : Type 0} → ℕ → Event Update → Bool
keeps_open c (closes d now) = not (c == d)
keeps_open c (opens d a) = true
keeps_open c (says d m a b) = true
keeps_open c consumes = true
keeps_open c (commits a) = true
keeps_open c (reloads a) = true
keeps_open c (flushes a) = true
keeps_open c tears_down = true
