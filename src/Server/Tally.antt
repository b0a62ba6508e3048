-- ===== src/Server/Tally.antt =====
-- Counting the requests of a connection, and the acknowledgements that it is sent, in source/session
-- and source/controller.
use idtx_core.Base.{
  ℕ, ◌+◌, ◌≡◌, refl, sym, ap, ◌∙◌, true, false, not, ◌&&◌, List, [], ◌∷◌, ◌++◌, ◌==◌, ==_iff,
  if◌then◌else◌, arith, Bool-cases, inl, inr,
}
use mathlib.Core.Path.{subst}
use idtx_core.Session.Stage.{StageOps}
use idtx_core.Session.{
  Session, Command, transform, join, create_prim, set_prim_active, commit, reload, flush,
  correction,
}
use idtx_core.Session.Send.{is_client, reaches}
use idtx_core.Session.Handlers.{handle}
use idtx_core.Session.Answers.{answers, answered_once}
use idtx_core.Session.Answers.Frames.{acks}
use idtx_core.Session.Answers.Requests.{answer}
use idtx_core.Server.{drain}

-- How often the connection and the number of the request stand in the list.
abbrev pub tally : ℕ → ℕ → List (ℕ × ℕ) → ℕ
tally c r [] = 0
tally c r ((d, q) ∷ l) = (if c == d && r == q then 1 else 0) + tally c r l

pub tally-append : (c r : ℕ) (l m : List (ℕ × ℕ)) → tally c r (l ++ m) ≡ tally c r l + tally c r m
tally-append c r [] m = omega arith
tally-append c r (x ∷ l) m = omega (arith, tally-append c r l m)

-- The request that a command is to answer, with its sender.
abbrev pub asks : {Update : Type 0} → Command Update → List (ℕ × ℕ)
asks (transform u origin request_id base_seq) = (origin, request_id) ∷ []
asks (create_prim parent type origin request_id) = (origin, request_id) ∷ []
asks (set_prim_active path active origin request_id) = (origin, request_id) ∷ []
asks (join c) = []
asks commit = []
asks reload = []
asks flush = []
asks (correction c path) = []

-- The requests that wait in a queue.
abbrev pub waiting : {Update : Type 0} → ℕ → ℕ → List (Command Update) → ℕ
waiting c r [] = 0
waiting c r (x ∷ xs) = tally c r (asks x) + waiting c r xs

pub waiting-append :
    {Update : Type 0}
    → (c r : ℕ) (xs ys : List (Command Update))
    → waiting c r (xs ++ ys) ≡ waiting c r xs + waiting c r ys
waiting-append c r [] ys = omega arith
waiting-append c r (x ∷ xs) ys = omega (arith, waiting-append c r xs ys)

other_sender : (c d r q : ℕ) → (c == d) ≡ false → tally c r ((d, q) ∷ []) ≡ 0
other_sender c d r q e = rw e refl

module _ {ops : StageOps} where
  tally-answer :
      (s : Session ops) (c r origin request_id : ℕ)
      → reaches s c ≡ true
      → tally c r (answer s origin request_id) ≡ tally c r ((origin, request_id) ∷ [])
  tally-answer s c r origin request_id h = elim (Bool-cases (reaches s origin)) [
    | inl e ↦ rw e refl
    | inr e ↦ elim (Bool-cases (c == origin)) [
      | inl same ↦ let found = subst (λ d. reaches s d ≡ true) ((==_iff c origin).0 same) h in cc
      | inr other ↦ rw e (sym (other_sender c origin r request_id other))
    ]
  ]

  tally-answers :
      (s : Session ops) (c r : ℕ) (x : Command ops.Update)
      → reaches s c ≡ true
      → tally c r (answers s x) ≡ tally c r (asks x)
  tally-answers s c r x h = elim x as (λ k. tally c r (answers s k) ≡ tally c r (asks k)) [
    | transform u origin request_id base_seq ↦ tally-answer s c r origin request_id h
    | join d ↦ refl
    | create_prim parent type origin request_id ↦ tally-answer s c r origin request_id h
    | set_prim_active path active origin request_id ↦ tally-answer s c r origin request_id h
    | commit ↦ refl
    | reload ↦ refl
    | flush ↦ refl
    | correction d path ↦ refl
  ]

  pub reaches-handle :
      (s : Session ops) (c : ℕ) (x : Command ops.Update) → reaches (handle s x) c ≡ reaches s c
  reaches-handle s c x = ap (λ cs. not (c == 0) && is_client c cs) (answered_once s x).1

  -- A command that is handled has its request acknowledged.
  pub tally-handle :
      (s : Session ops) (c r : ℕ) (x : Command ops.Update)
      → reaches s c ≡ true
      → tally c r (acks (handle s x).sent) ≡ tally c r (asks x) + tally c r (acks s.sent)
  tally-handle s c r x h = omega (
    arith,
    ap (tally c r) (answered_once s x).0,
    tally-append c r (answers s x) (acks s.sent),
    tally-answers s c r x h,
  )

  reaches-drain :
      (s : Session ops) (c : ℕ) (xs : List (Command ops.Update))
      → reaches (drain s xs) c ≡ reaches s c
  unfolding drain
  reaches-drain s c [] = refl
  reaches-drain s c (x ∷ xs) = reaches-drain (handle s x) c xs ∙ reaches-handle s c x

  pub tally-drain :
      (s : Session ops) (c r : ℕ) (xs : List (Command ops.Update))
      → reaches s c ≡ true
      → tally c r (acks (drain s xs).sent) ≡ waiting c r xs + tally c r (acks s.sent)
  unfolding drain
  tally-drain s c r [] h = omega arith
  tally-drain s c r (x ∷ xs) h =
      omega
        (arith, tally-drain (handle s x) c r xs (reaches-handle s c x ∙ h), tally-handle s c r x h)
