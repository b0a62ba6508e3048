-- ===== src/Server/Even.antt =====
-- What of a client's requests is left to be counted by the steps of a session other than
-- `OnMessage` (source/session/SessionManager.cpp, source/controller/WebSocketController.cpp).
use idtx_core.Base.{
  ℕ, ◌+◌, ◌≡◌, refl, ap, ◌∙◌, true, false, not, ◌&&◌, Option, none, some, List, [], ◌∷◌, ◌++◌, Str,
  ◌==◌, arith, and-true, and-intro, by_test,
}
use mathlib.Core.Path.{subst⁻¹}
use idtx_core.Session.Stage.{StageOps}
use idtx_core.Session.{Session, Command, join}
use idtx_core.Session.Send.{is_client, reaches}
use idtx_core.Session.Registry.{
  AttachStatus, attached, unknown_session, single_edit_busy, attach_client, detach_client, is_busy,
}
use idtx_core.Session.Answers.{Acked-commit_overrides}
use idtx_core.Session.Answers.Frames.{acks, Acked}
use idtx_core.Server.{
  AdmissionStatus, SubmitStatus, accepted, queue_full, session_closing, unknown, Entry, submit_to,
  consume_normal, consume_from, drain, has_overrides, teardown_session, with_session,
}
use idtx_core.Server.Socket.{Frames, after_join, after_attach, on_open, on_close}
use idtx_core.Server.Tally.{
  tally, asks, waiting, waiting-append, reaches-handle, tally-handle, tally-drain,
}
use idtx_core.Server.Talk.{consume_live}
use idtx_core.Server.Clients.{is_client-insert, is_client-erase}
use idtx_core.Server.Messages.{There, counted, refused, submit_to-There, submit_to-counted}

refused-none : (c r : ℕ) (status : SubmitStatus) → refused c r status [] ≡ 0
refused-none c r accepted = refl
refused-none c r queue_full = refl
refused-none c r session_closing = refl
refused-none c r unknown = refl

none_asked :
    (c r n m : ℕ) (status : SubmitStatus) (l : List (ℕ × ℕ))
    → l ≡ []
    → n + refused c r status l ≡ m + tally c r l
    → n ≡ m
none_asked c r n m status l e k =
    omega (arith, k, ap (tally c r) e, ap (refused c r status) e, refused-none c r status)

module _ {ops : StageOps} (c : ℕ) where
  -- The connection is still there, and there is nothing to be counted anew.
  abbrev pub Even : Option (Entry ops) → Option (Entry ops) → Type 0
  Even o o' = There c o' × ((r : ℕ) → counted c r o' ≡ counted c r o)

  pub submit-Even :
      (o : Option (Entry ops)) (a : AdmissionStatus) (x : Command ops.Update)
      → asks x ≡ []
      → There c o
      → Even o (submit_to o a x).0
  submit-Even o a x e h = (
    submit_to-There c o a x h,
    λ r. none_asked c r _ _ (submit_to o a x).1 (asks x) e (submit_to-counted c o a x r),
  )

  consume_normal-Even :
      (e : Entry ops) (xs : List (Command ops.Update))
      → e.normal ≡ xs
      → There c (some e)
      → Even (some e) (some (consume_normal e xs))
  unfolding consume_normal
  consume_normal-Even e [] p h = (h, λ r. refl)
  consume_normal-Even e (x ∷ xs) p h = (
    reaches-handle e.session c x ∙ h,
    λ r. omega (arith, tally-handle e.session c r x h, ap (waiting c r) p),
  )

  consume_from-Even :
      (e : Entry ops) (xs : List (Command ops.Update))
      → e.priority ≡ xs
      → There c (some e)
      → Even (some e) (some (consume_from e xs))
  unfolding consume_from
  consume_from-Even e [] p h = consume_normal-Even e e.normal refl h
  consume_from-Even e (x ∷ xs) p h = (
    reaches-handle e.session c x ∙ h,
    λ r. omega (arith, tally-handle e.session c r x h, ap (waiting c r) p),
  )

  pub consume-Even : (o : Option (Entry ops)) → There c o → Even o (consume_live o)
  unfolding consume_live
  consume-Even none h = (tt, λ r. refl)
  consume-Even (some e) h = consume_from-Even e e.priority refl h

  -- A session that is torn down has acknowledged what was in its queues.
  pub teardown_session-counted :
      (e : Entry ops) (r : ℕ)
      → There c (some e)
      → tally c r (acks (teardown_session e).sent) ≡ counted c r (some e)
  unfolding teardown_session
  teardown_session-counted e r h =
      let xs = e.priority ++ e.normal in
      let s = drain e.session xs in
      let drained : tally c r (acks s.sent) ≡ counted c r (some e) =
        omega (arith, tally-drain e.session c r xs h, waiting-append c r e.priority e.normal) in
      let same : Acked s [] s = record { same_clients = refl; same_mode = refl; acked = refl } in
      by_test (λ (u : Session ops). tally c r (acks u.sent) ≡ counted c r (some e))
        (e.auto_commit && has_overrides ops s.stage) _ s
        (λ t. ap (tally c r) (Acked-commit_overrides s s false s.stage same).acked ∙ drained)
        (λ t. drained)

  pub on_close-Even :
      (o : Option (Entry ops)) (d now : ℕ)
      → (c == d) ≡ false
      → There c o
      → Even o (on_close o d now)
  unfolding on_close detach_client
  on_close-Even none d now ne h = (tt, λ r. refl)
  on_close-Even (some e) d now ne h =
      let (nonzero, found) = and-true (not (c == 0)) (is_client c e.session.clients) h in
      (and-intro nonzero (is_client-erase c d e.session.clients ne ∙ found), λ r. refl)

  attach_client-keeps :
      (s : Session ops) (d : ℕ)
      → reaches s c ≡ true
      → (reaches (attach_client s d).0 c ≡ true) × ((attach_client s d).0.sent ≡ s.sent)
  unfolding attach_client
  attach_client-keeps s d h =
      let (nonzero, found) = and-true (not (c == 0)) (is_client c s.clients) h in
      by_test (λ (p : Session ops × AttachStatus). (reaches p.0 c ≡ true) × (p.0.sent ≡ s.sent))
        (is_busy s) _ _ (λ t. (h, refl))
        (λ t. (and-intro nonzero (is_client-insert c d s.clients found), refl))

  after_join-same : (d : ℕ) (p : Option (Entry ops) × SubmitStatus) → (after_join d p).0 ≡ p.0
  unfolding after_join
  after_join-same d (o, accepted) = refl
  after_join-same d (o, queue_full) = refl
  after_join-same d (o, session_closing) = refl
  after_join-same d (o, unknown) = refl

  -- A connection that opens is sent no acknowledgement.
  abbrev pub Quiet : Option (Entry ops) → Option (Entry ops) × (Frames ops × Option Str) → Type 0
  Quiet o p = There c p.0 × ((r : ℕ) → counted c r p.0 + tally c r (acks p.1.0) ≡ counted c r o)

  after_attach-Quiet :
      (e : Entry ops) (d : ℕ) (a : AdmissionStatus) (p : Session ops × AttachStatus)
      → There c (some e)
      → reaches p.0 c ≡ true
      → p.0.sent ≡ e.session.sent
      → Quiet (some e) (after_attach e d a p)
  unfolding after_attach acks
  after_attach-Quiet e d a (s, attached) h k q =
      let o = some (with_session e s) in
      let joined = submit_to o a (join d) in
      let (there, even) = submit-Even o a (join d) refl k in
      (
        subst⁻¹ (There c) (after_join-same d joined) there,
        λ r. omega (
          arith,
          ap (counted c r) (after_join-same d joined),
          even r,
          ap (λ fs. tally c r (acks fs)) q,
        ),
      )
  after_attach-Quiet e d a (s, single_edit_busy) h k q = (h, λ r. omega arith)
  after_attach-Quiet e d a (s, unknown_session) h k q = (h, λ r. omega arith)

  pub on_open-Quiet :
      (o : Option (Entry ops)) (d : ℕ) (a : AdmissionStatus) → There c o → Quiet o (on_open o d a)
  unfolding on_open acks
  on_open-Quiet none d a h = (tt, λ r. refl)
  on_open-Quiet (some e) d a h =
      let (k, q) = attach_client-keeps e.session d h in
      after_attach-Quiet e d a (attach_client e.session d) h k q
