-- ===== src/Session/History.antt =====
-- What the steps of the protocol leave behind in a session of source/session, from its creation on.
use idtx_core.Base.{
  ℕ, ◌^◌, ◌≤◌, ◌<◌, ◌≡◌, ◌≢◌, refl, sym, ap, ◌∙◌, max, ite, if_pos, if_neg, List, [], ◌∷◌, Str,
  ℕ_discrete, arith, u64, u64_small,
}
use idtx_core.Versions.{no_versions}
use idtx_core.Versions.History.{Event, apply, replay, sent_seq, change_seq, IsOrdered}
use idtx_core.Session.Stage.{StageOps}
use idtx_core.Session.{Session, Frame, frame_seq}
use idtx_core.Session.Send.{send}
use idtx_core.Session.Snapshot.{send_all}
use idtx_core.Session.Protocol.{
  HaveSeq, Moves, here, quiet, step, unversioned, deliver, deliver_all, change, correct,
}

-- The highest version in the frames that were sent to a connection.
unfoldable pub highest : {T S : Type 0} → ℕ → List (ℕ × Frame T S) → ℕ
highest c [] = 0
highest c ((d, f) ∷ fs) = ite (ℕ_discrete d c) (max (highest c fs) (frame_seq f)) (highest c fs)

u64-le : (n : ℕ) → u64 n ≤ n
unfolding u64
u64-le n = omega arith

max_twice : (a b : ℕ) → max (max a b) b ≡ max a b
max_twice a b = omega arith

module _ {ops : StageOps} where
  pub send_all-versions :
      (c : ℕ) (fs : List (Frame ops.Transform ops.Shape)) (t : Session ops)
      → ((send_all c fs t).versions ≡ t.versions) × ((send_all c fs t).server_seq ≡ t.server_seq)
  unfolding send_all
  send_all-versions c [] t = (refl, refl)
  send_all-versions c (f ∷ fs) t = send_all-versions c fs (send t c f)

  highest-send :
      (c d : ℕ) (f : Frame ops.Transform ops.Shape) (t : Session ops)
      → d ≡ c
      → highest c (send t d f).sent ≡ max (highest c t.sent) (frame_seq f)
  unfolding highest
  highest-send c d f t e = if_pos (ℕ_discrete d c) e _ _

  highest-send_other :
      (c d : ℕ) (f : Frame ops.Transform ops.Shape) (t : Session ops)
      → d ≢ c
      → highest c (send t d f).sent ≡ highest c t.sent
  unfolding highest
  highest-send_other c d f t ne = if_neg (ℕ_discrete d c) ne _ _

  highest-send_all :
      (c d : ℕ) (fs : List (Frame ops.Transform ops.Shape)) (t : Session ops) (q : ℕ)
      → HaveSeq q fs
      → d ≡ c
      → max (highest c (send_all d fs t).sent) q ≡ max (highest c t.sent) q
  unfolding send_all
  highest-send_all c d [] t q h e = refl
  highest-send_all c d (f ∷ fs) t q h e =
      highest-send_all c d fs (send t d f) q h.1 e
      ∙ rw (highest-send c d f t e, h.0) (max_twice (highest c t.sent) q)

  highest-send_all_other :
      (c d : ℕ) (fs : List (Frame ops.Transform ops.Shape)) (t : Session ops)
      → d ≢ c
      → highest c (send_all d fs t).sent ≡ highest c t.sent
  unfolding send_all
  highest-send_all_other c d [] t ne = refl
  highest-send_all_other c d (f ∷ fs) t ne =
      highest-send_all_other c d fs (send t d f) ne ∙ highest-send_other c d f t ne

module _ {ops : StageOps} {s : Session ops} where
  -- The bookkeeping is that of the calls.
  pub Moves-versions :
      {es : List Event} {t : Session ops}
      → Moves s es t
      → s.versions ≡ no_versions
      → t.versions ≡ replay es
  unfolding replay apply
  Moves-versions here e = e
  Moves-versions (quiet m u q) e = q.same_versions ∙ Moves-versions m e
  Moves-versions (step m) e = Moves-versions m e
  Moves-versions (unversioned m c f z) e = Moves-versions m e
  Moves-versions (deliver m c f le) e = rw (Moves-versions m e)
  Moves-versions (deliver_all {es = es} {t = t} m c fs last h le) e =
      rw ((send_all-versions c fs t).0, Moves-versions m e)
  Moves-versions (change m path seq writer q) e = rw (Moves-versions m e)
  Moves-versions (correct m c path f q) e = rw (Moves-versions m e)

  -- The calls name the frames that were sent.
  pub Moves-sent :
      {es : List Event} {t : Session ops}
      → Moves s es t
      → s.sent ≡ []
      → (c : ℕ) → highest c t.sent ≡ sent_seq c es
  unfolding highest sent_seq
  Moves-sent here e c = rw e
  Moves-sent (quiet m u q) e c = ap (highest c) q.same_sent ∙ Moves-sent m e c
  Moves-sent (step m) e c = Moves-sent m e c
  Moves-sent (unversioned m d f z) e c = ground (arith, Moves-sent m e c)
  Moves-sent (deliver m d f le) e c = ground (arith, Moves-sent m e c)
  Moves-sent (deliver_all {t = t} m d fs last h le) e c = elim (ℕ_discrete d c) [
    | yes p ↦
        if_pos (ℕ_discrete d c) p _ _
        ∙ highest-send_all c d fs t (frame_seq last) h p
        ∙ ap (λ n. max n (frame_seq last)) (Moves-sent m e c)
        ∙ sym (if_pos (ℕ_discrete d c) p _ _)
    | no ne ↦
        if_neg (ℕ_discrete d c) ne _ _
        ∙ highest-send_all_other c d fs t ne
        ∙ Moves-sent m e c
        ∙ sym (if_neg (ℕ_discrete d c) ne _ _)
  ]
  Moves-sent (change m path seq writer q) e c = Moves-sent m e c
  Moves-sent (correct m d path f q) e c = ground (arith, Moves-sent m e c)

  -- No change has a version above the counter.
  pub Moves-change_seq :
      {es : List Event} {t : Session ops}
      → Moves s es t
      → (path : Str) → change_seq path es ≤ t.server_seq
  unfolding change_seq
  Moves-change_seq here path = omega arith
  Moves-change_seq (quiet m u q) path = omega (arith, Moves-change_seq m path, q.same_seq)
  Moves-change_seq (step m) path = omega (arith, Moves-change_seq m path)
  Moves-change_seq (unversioned m d f z) path = Moves-change_seq m path
  Moves-change_seq (deliver m d f le) path = Moves-change_seq m path
  Moves-change_seq (deliver_all {t = t} m d fs last h le) path =
      omega (arith, Moves-change_seq m path, (send_all-versions d fs t).1)
  Moves-change_seq (change {t = t} m p seq writer q) path =
      ground (arith, Moves-change_seq m path, u64-le t.server_seq)
  Moves-change_seq (correct m d p f q) path = omega (arith, Moves-change_seq m path)

  -- The changes were recorded in the order of their versions.
  pub Moves-IsOrdered :
      {es : List Event} {t : Session ops} → Moves s es t → t.server_seq < 2 ^ 64 → IsOrdered es
  Moves-IsOrdered here lt = tt
  Moves-IsOrdered (quiet m u q) lt = Moves-IsOrdered m (omega (arith, q.same_seq))
  Moves-IsOrdered (step m) lt = Moves-IsOrdered m (omega arith)
  Moves-IsOrdered (unversioned m d f z) lt = Moves-IsOrdered m lt
  Moves-IsOrdered (deliver m d f le) lt = Moves-IsOrdered m lt
  Moves-IsOrdered (deliver_all {t = t} m d fs last h le) lt =
      Moves-IsOrdered m (omega (arith, (send_all-versions d fs t).1))
  Moves-IsOrdered (change {t = t} m p seq writer q) lt =
      (omega (arith, q, u64_small t.server_seq lt, Moves-change_seq m p), Moves-IsOrdered m lt)
  Moves-IsOrdered (correct m d p f q) lt = Moves-IsOrdered m (omega arith)

  -- Versions are only added.
  pub Moves-server_seq :
      {es : List Event} {t : Session ops} → Moves s es t → s.server_seq ≤ t.server_seq
  Moves-server_seq here = omega arith
  Moves-server_seq (quiet m u q) = omega (arith, Moves-server_seq m, q.same_seq)
  Moves-server_seq (step m) = omega (arith, Moves-server_seq m)
  Moves-server_seq (unversioned m d f z) = Moves-server_seq m
  Moves-server_seq (deliver m d f le) = Moves-server_seq m
  Moves-server_seq (deliver_all {t = t} m d fs last h le) =
      omega (arith, Moves-server_seq m, (send_all-versions d fs t).1)
  Moves-server_seq (change m p seq writer q) = Moves-server_seq m
  Moves-server_seq (correct m d p f q) = omega (arith, Moves-server_seq m)
