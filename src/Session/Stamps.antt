-- ===== src/Session/Stamps.antt =====
-- The order of the versions in the frames of a session of source/session.
use idtx_core.Base.{
  ℕ, ◌+◌, ◌^◌, ◌≤◌, ◌<◌, ◌≡◌, refl, ◌∙◌, not, ◌&&◌, List, [], ◌∷◌, ◌==◌, if◌then◌else◌, arith,
  u64_small,
}
use mathlib.Core.Path.{subst, subst⁻¹}
use idtx_core.Versions.History.{Event}
use idtx_core.Session.Stage.{StageOps}
use idtx_core.Session.{Session, SessionMode, Frame, frame_seq}
use idtx_core.Session.Send.{send}
use idtx_core.Session.Snapshot.{send_all}
use idtx_core.Session.Registry.{new_session}
use idtx_core.Session.Protocol.{
  HaveSeq, Moves, here, quiet, step, unversioned, deliver, deliver_all, change, correct,
}
use idtx_core.Session.History.{send_all-versions}
use idtx_core.Session.Refines.Sends.{either_way}
use idtx_core.Session.Run.{Action, reached, Ext-run}

-- The versions in the frames sent to a connection, without the zeros, the last one first.
unfoldable pub stamps : {T S : Type 0} → ℕ → List (ℕ × Frame T S) → List ℕ
stamps c [] = []
stamps c ((d, f) ∷ fs) =
    let rest = stamps c fs in if not (frame_seq f == 0) && d == c then frame_seq f ∷ rest else rest

-- The list goes down from a bound, or stays.
abbrev pub GoesDown : ℕ → List ℕ → Type 0
GoesDown n [] = Unit {0}
GoesDown n (x ∷ xs) = (x ≤ n) × GoesDown x xs

GoesDown-raise : (n m : ℕ) (xs : List ℕ) → n ≤ m → GoesDown n xs → GoesDown m xs
GoesDown-raise n m [] le h = tt
GoesDown-raise n m (x ∷ xs) le h = (omega (arith, h.0), h.1)

module _ {T S : Type 0} (c : ℕ) where
  stamps-unversioned :
      (d : ℕ) (f : Frame T S) (fs : List (ℕ × Frame T S))
      → frame_seq f ≡ 0
      → stamps c ((d, f) ∷ fs) ≡ stamps c fs
  unfolding stamps
  stamps-unversioned d f fs e = rw e

  GoesDown-send :
      (n d : ℕ) (f : Frame T S) (fs : List (ℕ × Frame T S))
      → frame_seq f ≡ n
      → GoesDown n (stamps c fs)
      → GoesDown n (stamps c ((d, f) ∷ fs))
  unfolding stamps
  GoesDown-send n d f fs e h =
      either_way (GoesDown n) (not (frame_seq f == 0) && d == c) (frame_seq f ∷ stamps c fs)
        (stamps c fs) (omega (arith, e), subst⁻¹ (λ k. GoesDown k (stamps c fs)) e h) h

module _ {ops : StageOps} (c : ℕ) where
  GoesDown-send_all :
      (n d : ℕ) (fs : List (Frame ops.Transform ops.Shape)) (t : Session ops)
      → HaveSeq n fs
      → GoesDown n (stamps c t.sent)
      → GoesDown n (stamps c (send_all d fs t).sent)
  unfolding send_all
  GoesDown-send_all n d [] t e h = h
  GoesDown-send_all n d (f ∷ fs) t e h =
      GoesDown-send_all n d fs (send t d f) e.1 (GoesDown-send c n d f t.sent e.0 h)

  GoesDown-Moves :
      {s : Session ops} {es : List Event} {t : Session ops}
      → Moves s es t
      → s.sent ≡ []
      → t.server_seq < 2 ^ 64
      → GoesDown t.server_seq (stamps c t.sent)
  unfolding stamps
  GoesDown-Moves {s = s} here e lt = subst⁻¹ (λ fs. GoesDown s.server_seq (stamps c fs)) e tt
  GoesDown-Moves (quiet {t = t} m u q) e lt =
      subst⁻¹ (λ fs. GoesDown u.server_seq (stamps c fs)) q.same_sent
        (subst⁻¹ (λ n. GoesDown n (stamps c t.sent)) q.same_seq
          (GoesDown-Moves m e (omega (arith, q.same_seq))))
  GoesDown-Moves (step {t = t} m) e lt =
      GoesDown-raise t.server_seq (t.server_seq + 1) (stamps c t.sent) (omega arith)
        (GoesDown-Moves m e (omega arith))
  GoesDown-Moves (unversioned {t = t} m d f z) e lt =
      subst⁻¹ (GoesDown t.server_seq) (stamps-unversioned c d f t.sent z) (GoesDown-Moves m e lt)
  GoesDown-Moves (deliver {t = t} m d f q) e lt =
      GoesDown-send c t.server_seq d f t.sent (q ∙ u64_small t.server_seq lt)
        (GoesDown-Moves m e lt)
  GoesDown-Moves (deliver_all {t = t} m d fs last h q) e lt =
      let e_last : frame_seq last ≡ t.server_seq =
        q ∙ u64_small t.server_seq (omega (arith, (send_all-versions d fs t).1)) in
      subst⁻¹ (λ k. GoesDown k (stamps c ((d, last) ∷ (send_all d fs t).sent)))
        (send_all-versions d fs t).1
        (GoesDown-send c t.server_seq d last (send_all d fs t).sent e_last (
          GoesDown-send_all t.server_seq d fs t (subst (λ k. HaveSeq k fs) e_last h)
            (GoesDown-Moves m e (omega (arith, (send_all-versions d fs t).1)))))
  GoesDown-Moves (change m path seq writer q) e lt = GoesDown-Moves m e lt
  GoesDown-Moves (correct {t = t} m d path f q) e lt =
      GoesDown-send c (t.server_seq + 1) d f t.sent (q ∙ u64_small (t.server_seq + 1) lt) (
        GoesDown-raise t.server_seq (t.server_seq + 1) (stamps c t.sent) (omega arith)
          (GoesDown-Moves m e (omega arith)))

-- Whatever happens to a session, short of 2 ^ 64 versions: leaving aside the frames without a
-- version, the versions in the frames that a connection is sent never go down, and none of them is
-- above the session's version.
pub stamps_never_go_down :
    (ops : StageOps) (stage : ops.Stage) (mode : SessionMode) (created : ℕ)
    (as' : List (Action ops.Update)) (connection : ℕ)
    → (reached ops stage mode created as').server_seq < 2 ^ 64
    → GoesDown
        (reached ops stage mode created as').server_seq
        (stamps connection (reached ops stage mode created as').sent)
unfolding new_session
stamps_never_go_down ops stage mode created as' connection lt =
    let start = new_session ops stage mode created in
    let (h, m) = Ext-run start start as' ([], here) in GoesDown-Moves connection m refl lt
