-- ===== src/Server/Requests.antt =====
-- Every request that reaches source/controller/WebSocketController.cpp is acknowledged once.
use idtx_core.Base.{
  ℕ, ◌+◌, ◌≡◌, refl, ap, Bool, true, false, not, Option, none, some, List, [], ◌∷◌, ◌==◌, arith,
  and-true, all,
}
use mathlib.Core.Path.{subst}
use idtx_core.Session.Stage.{StageOps}
use idtx_core.Session.{commit, reload, flush}
use idtx_core.Session.Send.{reaches}
use idtx_core.Session.Answers.Frames.{acks}
use idtx_core.Server.{Entry, teardown_session}
use idtx_core.Server.Socket.{Frames, on_message, on_open, on_close}
use idtx_core.Server.Tally.{tally, tally-append, waiting}
use idtx_core.Server.Talk.{
  Event, opens, says, closes, consumes, commits, reloads, flushes, tears_down, Talk, requests,
  consume_live, tear_down, happen, happens, keeps_open,
}
use idtx_core.Server.Clients.{acks-append}
use idtx_core.Server.Messages.{There, counted, on_message-counted}
use idtx_core.Server.Even.{
  Even, submit-Even, consume-Even, teardown_session-counted, on_close-Even, on_open-Quiet,
}

not-true : (b : Bool) → not b ≡ true → b ≡ false
not-true false e = refl
not-true true e = cc

module _ {ops : StageOps} (c : ℕ) where
  -- The connection is there as long as the session is, and what it has asked for is acknowledged or
  -- in the queues.
  pub record Balanced (t : Talk ops) : Type 0 where
    pub there : There c t.live
    pub balance :
        (r : ℕ)
        → tally c r t.received
          ≡ counted c r t.live + tally c r (acks t.gone) + tally c r (acks t.direct)

  Balanced-live :
      (t : Talk ops) (o : Option (Entry ops))
      → Balanced t
      → Even c t.live o
      → Balanced (record t { live = o })
  Balanced-live t o b (h, e) = record { there = h; balance = λ r. omega (arith, b.balance r, e r) }

  tear_down-Balanced :
      (t : Talk ops) (o : Option (Entry ops)) → t.live ≡ o → Balanced t → Balanced (tear_down t o)
  unfolding tear_down
  tear_down-Balanced t none p b = b
  tear_down-Balanced t (some e) p b = record {
    there = tt;
    balance = λ r. omega (
      arith,
      b.balance r,
      ap (counted c r) p,
      teardown_session-counted c e r (subst (There c) p b.there),
      ap (tally c r) (acks-append (teardown_session e).sent t.gone),
      tally-append c r (acks (teardown_session e).sent) (acks t.gone),
    );
  }

  happen-Balanced :
      (t : Talk ops) (e : Event ops.Update)
      → keeps_open c e ≡ true
      → Balanced t
      → Balanced (happen t e)
  unfolding happen
  happen-Balanced t (opens d a) k b =
      let (h, q) = on_open-Quiet c t.live d a b.there in
      let fs = (on_open t.live d a).1.0 in
      record {
        there = h;
        balance = λ r. omega (
          arith,
          b.balance r,
          q r,
          ap (tally c r) (acks-append fs t.direct),
          tally-append c r (acks fs) (acks t.direct),
        );
      }
  happen-Balanced t (says d m a a') k b =
      let (h, q) = on_message-counted c t.live d m a a' b.there in
      let fs = (on_message t.live d m a a').1 in
      record {
        there = h;
        balance = λ r. omega (
          arith,
          b.balance r,
          q r,
          ap (tally c r) (acks-append fs t.direct),
          tally-append c r (acks fs) (acks t.direct),
          tally-append c r (requests d m) t.received,
        );
      }
  happen-Balanced t (closes d now) k b =
      Balanced-live t (on_close t.live d now) b
        (on_close-Even c t.live d now (not-true (c == d) k) b.there)
  happen-Balanced t consumes k b =
      Balanced-live t (consume_live t.live) b (consume-Even c t.live b.there)
  happen-Balanced t (commits a) k b =
      Balanced-live t _ b (submit-Even c t.live a commit refl b.there)
  happen-Balanced t (reloads a) k b =
      Balanced-live t _ b (submit-Even c t.live a reload refl b.there)
  happen-Balanced t (flushes a) k b =
      Balanced-live t _ b (submit-Even c t.live a flush refl b.there)
  happen-Balanced t tears_down k b = tear_down-Balanced t t.live refl b

  happens-Balanced :
      (t : Talk ops) (es : List (Event ops.Update))
      → all (keeps_open c) es ≡ true
      → Balanced t
      → Balanced (happens t es)
  unfolding happens
  happens-Balanced t [] k b = b
  happens-Balanced t (e ∷ es) k b =
      let (k0, k1) = and-true (keeps_open c e) (all (keeps_open c) es) k in
      happens-Balanced (happen t e) es k1 (happen-Balanced t e k0 b)

-- The session, with nothing sent or received yet.
abbrev pub talk_of : {ops : StageOps} → Entry ops → Talk ops
talk_of e = record { live = some e; gone = []; direct = []; received = [] }

abbrev pub frames_of : {ops : StageOps} → Option (Entry ops) → Frames ops
frames_of none = []
frames_of (some e) = e.session.sent

-- How often a request of the connection has been acknowledged, by whichever thread.
abbrev pub acknowledged : {ops : StageOps} → ℕ → ℕ → Talk ops → ℕ
acknowledged c r t =
    tally c r (acks (frames_of t.live)) + tally c r (acks t.gone) + tally c r (acks t.direct)

-- How often it waits in the queues.
abbrev pub pending : {ops : StageOps} → ℕ → ℕ → Option (Entry ops) → ℕ
pending c r none = 0
pending c r (some e) = waiting c r e.normal + waiting c r e.priority

counted-split :
    {ops : StageOps} (c r : ℕ) (o : Option (Entry ops))
    → counted c r o ≡ tally c r (acks (frames_of o)) + pending c r o
unfolding acks
counted-split c r none = refl
counted-split c r (some e) = refl

-- Whatever happens to a session that a connection is a client of, with its queues empty and nothing
-- sent at first, as long as this connection does not close: each request that it has sent has been
-- acknowledged as often as it was sent, but for those that wait in the queues. This holds for
-- requests that the scheduler admits and that it does not, and also while the session is torn down
-- and after that.
pub requests_acked :
    {ops : StageOps} (e : Entry ops) (c : ℕ) (es : List (Event ops.Update)) (r : ℕ)
    → reaches e.session c ≡ true
    → e.session.sent ≡ []
    → e.normal ≡ []
    → e.priority ≡ []
    → all (keeps_open c) es ≡ true
    → tally c r (happens (talk_of e) es).received
      ≡ acknowledged c r (happens (talk_of e) es) + pending c r (happens (talk_of e) es).live
unfolding acks
requests_acked e c es r h s n p k =
    let start : Balanced c (talk_of e) = record {
      there = h;
      balance = λ q.
          omega (arith, ap (λ fs. tally c q (acks fs)) s, ap (waiting c q) n, ap (waiting c q) p);
    } in
    let t = happens (talk_of e) es in
    let b = happens-Balanced c (talk_of e) es k start in
    omega (arith, b.balance r, counted-split c r t.live)
