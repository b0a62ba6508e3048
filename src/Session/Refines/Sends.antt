-- ===== src/Session/Refines/Sends.antt =====
-- What source/session/SessionManager.cpp sends, it sends by steps of the protocol.
use idtx_core.Base.{
  ℕ, ◌≡◌, refl, ◌∙◌, Bool, true, false, ◌&&◌, Option, none, some, List, [], ◌∷◌, Str, ◌==◌,
  if◌then◌else◌,
}
use idtx_core.Versions.{record_change}
use idtx_core.Versions.History.{sent, changed, corrected}
use idtx_core.Session.Stage.{StageOps}
use idtx_core.Session.{
  Session, Frame, ack, xform_broadcast, set_prim_active_broadcast, frame_seq, seq_of, bump,
}
use idtx_core.Session.Send.{
  send, note_sent, is_client, reaches, send_ack, broadcast, broadcast_to_all, correct, correct_read,
  correct_at, send_correction,
}
use idtx_core.Session.Protocol.{
  IsQuiet, HaveSeq, Moves, here, quiet, step, deliver, deliver_all, change, Ext,
}
use idtx_core.Session.Protocol

-- What holds of both branches holds of the whole.
pub either_way {ℓ} :
    {A : Type 0} → (P : A → Type ℓ) (test : Bool) (a b : A) → P a → P b → P (if test then a else b)
either_way P true a b pa pb = pa
either_way P false a b pa pb = pb

-- A broadcast leaves the counter alone.
pub broadcast-server_seq :
    {ops : StageOps} (cs : List ℕ) (origin : Option ℕ) (f : Frame ops.Transform ops.Shape)
    (t : Session ops)
    → (broadcast cs origin f t).server_seq ≡ t.server_seq
unfolding broadcast
broadcast-server_seq [] origin f t = refl
broadcast-server_seq (c ∷ cs) none f t =
    broadcast-server_seq cs none f (note_sent (send t c f) c (frame_seq f))
broadcast-server_seq (c ∷ cs) (some origin) f t =
    let t' = note_sent (send t c f) c (frame_seq f) in
    broadcast-server_seq cs (some origin) f (if c == origin then t else t')
    ∙ either_way (λ u. u.server_seq ≡ t.server_seq) (c == origin) t t' refl refl

module _ {ops : StageOps} (s : Session ops) where
  pub Ext-quiet : (t u : Session ops) → IsQuiet t u → Ext s t → Ext s u
  Ext-quiet t u q (es, m) = (es, quiet m u q)

  pub Ext-step : (t : Session ops) → Ext s t → Ext s (bump t)
  Ext-step t (es, m) = (es, step m)

  Ext-deliver :
      (t : Session ops) (c : ℕ) (f : Frame ops.Transform ops.Shape)
      → frame_seq f ≡ seq_of t
      → Ext s t
      → Ext s (note_sent (send t c f) c (frame_seq f))
  Ext-deliver t c f e (es, m) = (sent c (frame_seq f) ∷ es, deliver m c f e)

  pub Ext-send_ack :
      (t : Session ops) (c request_id : ℕ) (error : Option Str)
      → Ext s t
      → Ext s (send_ack t c request_id error)
  unfolding send_ack
  Ext-send_ack t c request_id error x =
      either_way (Ext s) (reaches t c) _ t
        (Ext-deliver t c (ack request_id error (seq_of t)) refl x) x

  pub Ext-broadcast :
      (cs : List ℕ) (origin : Option ℕ) (f : Frame ops.Transform ops.Shape) (t : Session ops)
      → frame_seq f ≡ seq_of t
      → Ext s t
      → Ext s (broadcast cs origin f t)
  unfolding broadcast
  Ext-broadcast [] origin f t e x = x
  Ext-broadcast (c ∷ cs) none f t e x =
      Ext-broadcast cs none f (note_sent (send t c f) c (frame_seq f)) e (Ext-deliver t c f e x)
  Ext-broadcast (c ∷ cs) (some origin) f t e x =
      either_way (λ u. Ext s (broadcast cs (some origin) f u)) (c == origin) t
        (note_sent (send t c f) c (frame_seq f)) (Ext-broadcast cs (some origin) f t e x)
        (Ext-broadcast cs (some origin) f (note_sent (send t c f) c (frame_seq f)) e
          (Ext-deliver t c f e x))

  pub Ext-broadcast_to_all :
      (t : Session ops) (f : Frame ops.Transform ops.Shape)
      → frame_seq f ≡ seq_of t
      → Ext s t
      → Ext s (broadcast_to_all t f)
  unfolding broadcast_to_all
  Ext-broadcast_to_all t f e x = Ext-broadcast t.clients none f t e x

  pub Ext-change :
      (t : Session ops) (path : Str) (seq writer : ℕ)
      → seq ≡ seq_of t
      → Ext s t
      → Ext s (record t { versions = record_change t.versions path seq writer })
  Ext-change t path seq writer e (es, m) =
      (changed path seq writer ∷ es, change m path seq writer e)

  Ext-correct :
      (t : Session ops) (c : ℕ) (path : Str) (frame : ℕ → Frame ops.Transform ops.Shape)
      → ((n : ℕ) → frame_seq (frame n) ≡ n)
      → Ext s t
      → Ext s (correct t c path frame)
  unfolding correct
  Ext-correct t c path frame e (es, m) =
      either_way (Ext s) (is_client c t.clients) _ t
        (
          corrected c path (seq_of (bump t)) ∷ es,
          Protocol.correct m c path (frame (seq_of (bump t))) (e (seq_of (bump t))),
        )
        (es, m)

  Ext-correct_read :
      (t : Session ops) (c : ℕ) (path : Str) (o : Option ops.Transform)
      → Ext s t
      → Ext s (correct_read t c path o)
  unfolding correct_read
  Ext-correct_read t c path none x = x
  Ext-correct_read t c path (some v) x = Ext-correct t c path (xform_broadcast path v) (λ n. refl) x

  Ext-correct_at :
      (t : Session ops) (c : ℕ) (path : Str) (o : Option ops.Stage)
      → Ext s t
      → Ext s (correct_at t c path o)
  unfolding correct_at
  Ext-correct_at t c path none x = x
  Ext-correct_at t c path (some stage) x = either_way (Ext s) (c == 0) t _ x (
      either_way (Ext s) (ops.is_valid_path path && ops.is_inactive stage path) _ _
        (Ext-correct t c path (set_prim_active_broadcast path false) (λ n. refl) x)
        (Ext-correct_read t c path (ops.read_transform stage path) x))

  pub Ext-send_correction :
      (t : Session ops) (c : ℕ) (path : Str) → Ext s t → Ext s (send_correction t c path)
  unfolding send_correction
  Ext-send_correction t c path x = Ext-correct_at t c path t.stage x
