-- ===== src/Session/Versioning.antt =====
-- What the consumer of source/session/SessionManager.cpp and the bookkeeping of
-- source/session/SessionVersions.cpp mean together for a client's update.
use idtx_core.Base.{ℕ, ◌<◌, ◌≡◌, ◌↔◌, refl, sym, ap, ◌∙◌, List, [], ◌++◌, Str}
use mathlib.Core.Path.{subst, subst⁻¹}
use idtx_core.Versions.{invalid_base, check_update, max_sent}
use idtx_core.Versions.History.{Event}
use idtx_core.Versions.Refinement.{max_sent-replay}
use idtx_core.Versions.Clients.{check_update-eq-invalid_base}
use idtx_core.Session.Stage.{StageOps}
use idtx_core.Session.{Session, SessionMode}
use idtx_core.Session.Registry.{new_session}
use idtx_core.Session.Run.{Action, reached, Ext-run}
use idtx_core.Session.Protocol.{
  Moves, here, quiet, step, unversioned, deliver, deliver_all, change, correct,
}
use idtx_core.Session.History.{highest, Moves-versions, Moves-sent}

module _ {ops : StageOps} where
  pub Moves-append :
      {s t u : Session ops} {es fs : List Event}
      → Moves s es t
      → Moves t fs u
      → Moves s (fs ++ es) u
  Moves-append m here = m
  Moves-append m (quiet n u q) = quiet (Moves-append m n) u q
  Moves-append m (step n) = step (Moves-append m n)
  Moves-append m (unversioned n c f z) = unversioned (Moves-append m n) c f z
  Moves-append m (deliver n c f le) = deliver (Moves-append m n) c f le
  Moves-append m (deliver_all n c fs last h le) = deliver_all (Moves-append m n) c fs last h le
  Moves-append m (change n path seq writer e) = change (Moves-append m n) path seq writer e
  Moves-append m (correct n c path f e) = correct (Moves-append m n) c path f e

module _ (ops : StageOps) (stage : ops.Stage) (mode : SessionMode) (created : ℕ) where
  -- The protocol's steps that a session has taken since its creation.
  pub steps_of :
      (as' : List (Action ops.Update))
      → (h : List Event) × Moves
          (new_session ops stage mode created)
          h
          (reached ops stage mode created as')
  steps_of as' =
      Ext-run (new_session ops stage mode created) (new_session ops stage mode created) as'
        ([], here)

  -- However a session got where it is, the base of an update is refused as invalid exactly if no
  -- frame that was sent to the client had that version or a later one.
  base_invalid_iff_not_sent :
      (as' : List (Action ops.Update)) (sender : ℕ) (path : Str) (base : ℕ)
      → (check_update (reached ops stage mode created as').versions sender path base ≡ invalid_base)
        ↔ (highest sender (reached ops stage mode created as').sent < base)
  unfolding new_session
  base_invalid_iff_not_sent as' sender path base =
      let t = reached ops stage mode created as' in
      let (h, m) = steps_of as' in
      let e : max_sent t.versions sender ≡ highest sender t.sent =
        ap (λ v. max_sent v sender) (Moves-versions m refl)
        ∙ max_sent-replay sender h
        ∙ sym (Moves-sent m refl sender) in
      let iff = check_update-eq-invalid_base t.versions sender path base in
      (λ p. subst (λ n. n < base) e (iff.0 p), λ p. iff.1 (subst⁻¹ (λ n. n < base) e p))
