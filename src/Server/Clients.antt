-- ===== src/Server/Clients.antt =====
-- A session's clients when others come and go (source/session/SessionManager.cpp), and the
-- acknowledgements in frames that follow each other.
use idtx_core.Base.{
  ℕ, ◌≡◌, refl, sym, ap, ◌∙◌, Bool, true, false, ◌||◌, List, [], ◌∷◌, ◌++◌, ◌==◌, ==_iff, by_test,
}
use mathlib.Core.Path.{subst}
use idtx_core.Session.{
  Frame, handshake, ack, xform_broadcast, create_prim_broadcast, set_prim_active_broadcast,
  snapshot_complete,
}
use idtx_core.Session.Send.{is_client}
use idtx_core.Session.Registry.{insert_client, erase_client}
use idtx_core.Session.Answers.Frames.{acks}

pub acks-append :
    {T S : Type 0} → (fs gs : List (ℕ × Frame T S)) → acks (fs ++ gs) ≡ acks fs ++ acks gs
unfolding acks
acks-append [] gs = refl
acks-append ((c, ack request_id error seq) ∷ fs) gs =
    ap (λ l. (c, request_id) ∷ l) (acks-append fs gs)
acks-append ((c, handshake) ∷ fs) gs = acks-append fs gs
acks-append ((c, xform_broadcast path t seq) ∷ fs) gs = acks-append fs gs
acks-append ((c, create_prim_broadcast parent type prim seq) ∷ fs) gs = acks-append fs gs
acks-append ((c, set_prim_active_broadcast path active seq) ∷ fs) gs = acks-append fs gs
acks-append ((c, snapshot_complete seq) ∷ fs) gs = acks-append fs gs

pub is_client-insert :
    (c d : ℕ) (cs : List ℕ) → is_client c cs ≡ true → is_client c (insert_client d cs) ≡ true
unfolding insert_client
is_client-insert c d cs h =
    by_test (λ l. is_client c l ≡ true) (is_client d cs) cs (d ∷ cs) (λ e. h)
      (λ e. later (c == d) _ h)
  where
    later : (a b : Bool) → b ≡ true → a || b ≡ true
    later true b e = refl
    later false b e = e

pub is_client-erase :
    (c d : ℕ) (cs : List ℕ) → (c == d) ≡ false → is_client c (erase_client d cs) ≡ is_client c cs
unfolding erase_client
is_client-erase c d [] ne = refl
is_client-erase c d (x ∷ xs) ne =
    let ih = is_client-erase c d xs ne in
    by_test (λ l. is_client c l ≡ c == x || is_client c xs) (d == x) _ _
      (λ e.
        let other : (c == x) ≡ false = subst (λ y. (c == y) ≡ false) ((==_iff d x).0 e) ne in
        ih ∙ sym (ap (λ b. b || is_client c xs) other))
      (λ e. ap (λ b. c == x || b) ih)
