-- ===== src/Session/Protocol.antt =====
-- The steps that the consumer of source/session/SessionManager.cpp is made of, as far as versions
-- and frames are concerned.
use idtx_core.Base.{ℕ, ◌≡◌, List, [], ◌∷◌, Str}
use idtx_core.Versions.{record_change, record_correction}
use idtx_core.Versions.History.{Event, changed, sent, corrected}
use idtx_core.Session.Stage.{StageOps}
use idtx_core.Session.{Session, Frame, frame_seq, seq_of, bump}
use idtx_core.Session.Send.{send, note_sent}
use idtx_core.Session.Snapshot.{send_all}

-- Nothing is sent, recorded or counted.
pub record IsQuiet {ops : StageOps} (s t : Session ops) : Type 0 where
  pub same_seq : t.server_seq ≡ s.server_seq
  pub same_versions : t.versions ≡ s.versions
  pub same_sent : t.sent ≡ s.sent

abbrev pub Every : {A : Type 0} → (A → Type 0) → List A → Type 0
Every P [] = Unit {0}
Every P (x ∷ xs) = P x × Every P xs

-- Every frame of the list has the version.
abbrev pub HaveSeq : {T S : Type 0} → ℕ → List (Frame T S) → Type 0
HaveSeq seq = Every (λ f. frame_seq f ≡ seq)

-- From `s`, the calls of `SessionVersions` listed, newest first, lead to the last session.
pub data Moves {ops : StageOps} (s : Session ops) : List Event → Session ops → Type 0 where
  here : Moves s [] s
  quiet :
      {es : List Event} {t : Session ops}
      → Moves s es t
      → (u : Session ops) → IsQuiet t u
      → Moves s es u
  step : {es : List Event} {t : Session ops} → Moves s es t → Moves s es (bump t)
  unversioned :
      {es : List Event} {t : Session ops}
      → Moves s es t
      → (c : ℕ) (f : Frame ops.Transform ops.Shape) → frame_seq f ≡ 0
      → Moves s es (send t c f)
  deliver :
      {es : List Event} {t : Session ops}
      → Moves s es t
      → (c : ℕ) (f : Frame ops.Transform ops.Shape) → frame_seq f ≡ seq_of t
      → Moves s (sent c (frame_seq f) ∷ es) (note_sent (send t c f) c (frame_seq f))
  deliver_all :
      {es : List Event} {t : Session ops}
      → Moves s es t
      → (c : ℕ) (fs : List (Frame ops.Transform ops.Shape)) (last : Frame ops.Transform ops.Shape)
      → HaveSeq (frame_seq last) fs
      → frame_seq last ≡ seq_of t
      → Moves s
          (sent c (frame_seq last) ∷ es)
          (note_sent (send (send_all c fs t) c last) c (frame_seq last))
  change :
      {es : List Event} {t : Session ops}
      → Moves s es t
      → (path : Str) (seq writer : ℕ) → seq ≡ seq_of t
      → Moves s
          (changed path seq writer ∷ es)
          (record t { versions = record_change t.versions path seq writer })
  correct :
      {es : List Event} {t : Session ops}
      → Moves s es t
      → (c : ℕ) (path : Str) (f : Frame ops.Transform ops.Shape) → frame_seq f ≡ seq_of (bump t)
      → Moves s (corrected c path (seq_of (bump t)) ∷ es) (record (send (bump t) c f) {
        versions = record_correction t.versions c path (seq_of (bump t));
      })

-- The steps, with the calls left out.
abbrev pub Ext : {ops : StageOps} → Session ops → Session ops → Type 0
Ext s t = (es : List Event) × Moves s es t
