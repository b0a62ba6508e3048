-- ===== src/Session/Answers/Frames.antt =====
-- Every request that the consumer of source/session/SessionManager.cpp runs is answered once.
use idtx_core.Base.{
  ℕ, ◌≡◌, refl, ap, ◌∙◌, Bool, true, false, ◌&&◌, ◌||◌, Option, none, some, List, [], ◌∷◌, ◌++◌,
  Str, ◌==◌,
}
use idtx_core.Versions.{record_change}
use idtx_core.Session.Stage.{StageOps, Notice}
use idtx_core.Session.{
  Session, Frame, handshake, ack, xform_broadcast, create_prim_broadcast, set_prim_active_broadcast,
  snapshot_complete, frame_seq, seq_of, bump,
}
use idtx_core.Session.Send.{
  send, note_sent, is_client, broadcast, broadcast_read, broadcast_resolved_transform, transform_of,
  correct, correct_read, correct_at, send_correction,
}
use idtx_core.Session.Notices.{
  announce, announce_all, announce_unmasked, is_masked, layer_of, with_version, reload_prims,
  affected_prims, on_objects_changed, run_moments,
}
use idtx_core.Session.Refines.Sends.{either_way}

-- The acknowledgements, with the connections that they went to.
unfoldable pub acks : {T S : Type 0} → List (ℕ × Frame T S) → List (ℕ × ℕ)
acks [] = []
acks ((c, ack request_id error seq) ∷ fs) = (c, request_id) ∷ acks fs
acks ((c, handshake) ∷ fs) = acks fs
acks ((c, xform_broadcast path t seq) ∷ fs) = acks fs
acks ((c, create_prim_broadcast parent type prim seq) ∷ fs) = acks fs
acks ((c, set_prim_active_broadcast path active seq) ∷ fs) = acks fs
acks ((c, snapshot_complete seq) ∷ fs) = acks fs

abbrev pub is_ack : {T S : Type 0} → Frame T S → Bool
is_ack (ack request_id error seq) = true
is_ack handshake = false
is_ack (xform_broadcast path t seq) = false
is_ack (create_prim_broadcast parent type prim seq) = false
is_ack (set_prim_active_broadcast path active seq) = false
is_ack (snapshot_complete seq) = false

-- The clients and the mode are the same, and the acknowledgements sent are those of the list.
pub record Acked {ops : StageOps} (s : Session ops) (new : List (ℕ × ℕ)) (t : Session ops)
    : Type 0 where
  pub same_clients : t.clients ≡ s.clients
  pub same_mode : t.mode ≡ s.mode
  pub acked : acks t.sent ≡ new ++ acks s.sent

acks-no_ack :
    {T S : Type 0} (c : ℕ) (f : Frame T S) (fs : List (ℕ × Frame T S))
    → is_ack f ≡ false
    → acks ((c, f) ∷ fs) ≡ acks fs
unfolding acks
acks-no_ack c (ack request_id error seq) fs h = cc
acks-no_ack c handshake fs h = refl
acks-no_ack c (xform_broadcast path t seq) fs h = refl
acks-no_ack c (create_prim_broadcast parent type prim seq) fs h = refl
acks-no_ack c (set_prim_active_broadcast path active seq) fs h = refl
acks-no_ack c (snapshot_complete seq) fs h = refl

module _ {ops : StageOps} (s : Session ops) (new : List (ℕ × ℕ)) where
  pub Acked-send :
      (t : Session ops) (c : ℕ) (f : Frame ops.Transform ops.Shape)
      → is_ack f ≡ false
      → Acked s new t
      → Acked s new (send t c f)
  Acked-send t c f h a = record {
    same_clients = a.same_clients;
    same_mode = a.same_mode;
    acked = acks-no_ack c f t.sent h ∙ a.acked;
  }

  -- A state with the same clients, mode and frames.
  pub Acked-same :
      (t u : Session ops)
      → u.clients ≡ t.clients
      → u.mode ≡ t.mode
      → u.sent ≡ t.sent
      → Acked s new t
      → Acked s new u
  Acked-same t u ec em es a = record {
    same_clients = ec ∙ a.same_clients;
    same_mode = em ∙ a.same_mode;
    acked = ap acks es ∙ a.acked;
  }

  Acked-note_sent : (t : Session ops) (c seq : ℕ) → Acked s new t → Acked s new (note_sent t c seq)
  Acked-note_sent t c seq a = Acked-same t (note_sent t c seq) refl refl refl a

  pub Acked-broadcast :
      (cs : List ℕ) (origin : Option ℕ) (f : Frame ops.Transform ops.Shape) (t : Session ops)
      → is_ack f ≡ false
      → Acked s new t
      → Acked s new (broadcast cs origin f t)
  unfolding broadcast
  Acked-broadcast [] origin f t h a = a
  Acked-broadcast (c ∷ cs) none f t h a =
      Acked-broadcast cs none f (note_sent (send t c f) c (frame_seq f)) h
        (Acked-note_sent (send t c f) c (frame_seq f) (Acked-send t c f h a))
  Acked-broadcast (c ∷ cs) (some origin) f t h a =
      let t' = note_sent (send t c f) c (frame_seq f) in
      either_way (λ u. Acked s new (broadcast cs (some origin) f u)) (c == origin) t t'
        (Acked-broadcast cs (some origin) f t h a)
        (Acked-broadcast cs (some origin) f t' h
          (Acked-note_sent (send t c f) c (frame_seq f) (Acked-send t c f h a)))

  Acked-broadcast_read :
      (t : Session ops) (path : Str) (origin seq : ℕ) (o : Option ops.Transform)
      → Acked s new t
      → Acked s new (broadcast_read t path origin seq o)
  unfolding broadcast_read
  Acked-broadcast_read t path origin seq none a = a
  Acked-broadcast_read t path origin seq (some v) a =
      Acked-broadcast t.clients (some origin) (xform_broadcast path v seq) t refl a

  Acked-announce :
      (t : Session ops) (seq origin : ℕ) (path : Str)
      → Acked s new t
      → Acked s new (announce t seq origin path)
  unfolding announce broadcast_resolved_transform
  Acked-announce t seq origin path a =
      let t' = record t { versions = record_change t.versions path seq origin } in
      Acked-broadcast_read t' path origin seq (transform_of t' path)
        (Acked-same t t' refl refl refl a)

  Acked-announce_all :
      (ps : List Str) (seq origin : ℕ) (t : Session ops)
      → Acked s new t
      → Acked s new (announce_all ps seq origin t)
  unfolding announce_all
  Acked-announce_all [] seq origin t a = a
  Acked-announce_all (p ∷ ps) seq origin t a =
      Acked-announce_all ps seq origin (announce t seq origin p) (Acked-announce t seq origin p a)

  Acked-announce_unmasked :
      (layer : Option ops.Layer) (ps : List Str) (seq : ℕ) (t : Session ops)
      → Acked s new t
      → Acked s new (announce_unmasked layer ps seq t)
  unfolding announce_unmasked
  Acked-announce_unmasked layer [] seq t a = a
  Acked-announce_unmasked layer (p ∷ ps) seq t a =
      either_way (λ u. Acked s new (announce_unmasked layer ps seq u)) (is_masked ops layer p) t
        (announce t seq 0 p) (Acked-announce_unmasked layer ps seq t a)
        (Acked-announce_unmasked layer ps seq (announce t seq 0 p) (Acked-announce t seq 0 p a))

  Acked-with_version :
      (ps : List Str) (f : ℕ → Session ops → Session ops) (t : Session ops)
      → ((seq : ℕ) (u : Session ops) → Acked s new u → Acked s new (f seq u))
      → Acked s new t
      → Acked s new (with_version ps f t)
  unfolding with_version
  Acked-with_version [] f t k a = a
  Acked-with_version (p ∷ ps) f t k a =
      k (seq_of (bump t)) (bump t) (Acked-same t (bump t) refl refl refl a)

  Acked-on_objects_changed :
      (t : Session ops) (n : Notice) → Acked s new t → Acked s new (on_objects_changed t n)
  unfolding on_objects_changed
  Acked-on_objects_changed t n a =
      either_way (Acked s new) (t.create_in_progress || t.set_active_in_progress) t _ a (
        either_way (Acked s new) t.reload_in_progress _ _
          (Acked-with_version (reload_prims n) (announce_unmasked (layer_of t) (reload_prims n)) t
            (λ seq u. Acked-announce_unmasked (layer_of t) (reload_prims n) seq u) a)
          (Acked-with_version (affected_prims n)
            (λ seq. announce_all (affected_prims n) seq t.current_origin) t
            (λ seq u. Acked-announce_all (affected_prims n) seq t.current_origin u) a))

  pub Acked-run_moments :
      (ms : List (ops.Stage × Notice)) (t : Session ops)
      → Acked s new t
      → Acked s new (run_moments ms t)
  unfolding run_moments
  Acked-run_moments [] t a = a
  Acked-run_moments ((stage, n) ∷ ms) t a =
      let t' = record t { stage = some stage } in
      Acked-run_moments ms (on_objects_changed t' n)
        (Acked-on_objects_changed t' n (Acked-same t t' refl refl refl a))

  Acked-correct :
      (t : Session ops) (c : ℕ) (path : Str) (frame : ℕ → Frame ops.Transform ops.Shape)
      → ((n : ℕ) → is_ack (frame n) ≡ false)
      → Acked s new t
      → Acked s new (correct t c path frame)
  unfolding correct
  Acked-correct t c path frame h a =
      let seq = seq_of (bump t) in
      either_way (Acked s new) (is_client c t.clients) _ t
        (Acked-same (send t c (frame seq)) _ refl refl refl (Acked-send t c (frame seq) (h seq) a))
        a

  Acked-correct_read :
      (t : Session ops) (c : ℕ) (path : Str) (o : Option ops.Transform)
      → Acked s new t
      → Acked s new (correct_read t c path o)
  unfolding correct_read
  Acked-correct_read t c path none a = a
  Acked-correct_read t c path (some v) a =
      Acked-correct t c path (xform_broadcast path v) (λ n. refl) a

  Acked-correct_at :
      (t : Session ops) (c : ℕ) (path : Str) (o : Option ops.Stage)
      → Acked s new t
      → Acked s new (correct_at t c path o)
  unfolding correct_at
  Acked-correct_at t c path none a = a
  Acked-correct_at t c path (some stage) a = either_way (Acked s new) (c == 0) t _ a (
      either_way (Acked s new) (ops.is_valid_path path && ops.is_inactive stage path) _ _
        (Acked-correct t c path (set_prim_active_broadcast path false) (λ n. refl) a)
        (Acked-correct_read t c path (ops.read_transform stage path) a))

  pub Acked-send_correction :
      (t : Session ops) (c : ℕ) (path : Str)
      → Acked s new t
      → Acked s new (send_correction t c path)
  unfolding send_correction
  Acked-send_correction t c path a = Acked-correct_at t c path t.stage a
