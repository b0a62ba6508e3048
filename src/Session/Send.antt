-- ===== src/Session/Send.antt =====
-- How SessionManager.cpp of source/session sends frames, and records what it sent.
use idtx_core.Base.{
  ℕ, Bool, false, not, ◌&&◌, ◌||◌, Option, none, some, List, [], ◌∷◌, Str, ◌==◌, if◌then◌else◌,
}
use idtx_core.Versions.{record_sent, record_correction}
use idtx_core.Session.Stage.{StageOps}
use idtx_core.Session.{
  Session, Frame, xform_broadcast, set_prim_active_broadcast, ack, frame_seq, seq_of, bump,
}

-- `clients.find(id) != clients.end()`
abbrev pub is_client : ℕ → List ℕ → Bool
is_client c [] = false
is_client c (d ∷ ds) = c == d || is_client c ds

module _ {ops : StageOps} where
  -- `conn->send_binary(payload)`
  abbrev pub send : Session ops → ℕ → Frame ops.Transform ops.Shape → Session ops
  send s c f = record s { sent = (c, f) ∷ s.sent }

  abbrev pub note_sent : Session ops → ℕ → ℕ → Session ops
  note_sent s c seq = record s { versions = record_sent s.versions c seq }

  -- Whether `SendToConnection` finds the connection.
  abbrev pub reaches : Session ops → ℕ → Bool
  reaches s c = not (c == 0) && is_client c s.clients

  -- `SendToConnection`, and `RecordSent` where it returns true; an error of `none` is `ok`.
  unfoldable pub send_ack : Session ops → ℕ → ℕ → Option Str → Session ops
  send_ack s c request_id error =
      let seq = seq_of s in
      if reaches s c then note_sent (send s c (ack request_id error seq)) c seq else s

  -- A frame to each of the clients but `origin`, where one is given.
  unfoldable pub broadcast :
      List ℕ → Option ℕ → Frame ops.Transform ops.Shape → Session ops → Session ops
  broadcast [] origin f s = s
  broadcast (c ∷ cs) none f s = broadcast cs none f (note_sent (send s c f) c (frame_seq f))
  broadcast (c ∷ cs) (some origin) f s =
      broadcast cs (some origin) f
        (if c == origin then s else note_sent (send s c f) c (frame_seq f))

  unfoldable pub broadcast_to_all : Session ops → Frame ops.Transform ops.Shape → Session ops
  broadcast_to_all s f = broadcast s.clients none f s

  abbrev pub transform_of : Session ops → Str → Option ops.Transform
  transform_of s path = elim s.stage [ none ↦ none | some stage ↦ ops.read_transform stage path ]

  -- The part of `BroadcastResolvedTransform` behind the reading of the stage.
  unfoldable pub broadcast_read : Session ops → Str → ℕ → ℕ → Option ops.Transform → Session ops
  broadcast_read s path origin seq none = s
  broadcast_read s path origin seq (some t) =
      broadcast s.clients (some origin) (xform_broadcast path t seq) s

  unfoldable pub broadcast_resolved_transform : Session ops → Str → ℕ → ℕ → Session ops
  broadcast_resolved_transform s path origin seq =
      broadcast_read s path origin seq (transform_of s path)

  -- The version is taken with the connection at hand; the frame is made of it.
  unfoldable pub correct : Session ops → ℕ → Str → (ℕ → Frame ops.Transform ops.Shape) → Session ops
  correct s c path frame =
      let s' = bump s in
      let seq = seq_of s' in
      if is_client c s.clients
      then record (send s' c (frame seq)) { versions = record_correction s.versions c path seq }
      else s

  unfoldable pub correct_read : Session ops → ℕ → Str → Option ops.Transform → Session ops
  correct_read s c path none = s
  correct_read s c path (some t) = correct s c path (xform_broadcast path t)

  unfoldable pub correct_at : Session ops → ℕ → Str → Option ops.Stage → Session ops
  correct_at s c path none = s
  correct_at s c path (some stage) =
      if c == 0
      then s
      else if ops.is_valid_path path && ops.is_inactive stage path
      then correct s c path (set_prim_active_broadcast path false)
      else correct_read s c path (ops.read_transform stage path)

  unfoldable pub send_correction : Session ops → ℕ → Str → Session ops
  send_correction s c path = correct_at s c path s.stage
