-- ===== src/Server/Editors.antt =====
-- A session in the mode single_edit has one client at most, in source/session/SessionManager.cpp.
use idtx_core.Base.{
  ℕ, ◌≤◌, ◌≡◌, ap, Bool, true, false, ◌&&◌, Option, none, some, List, [], ◌∷◌, Str, ◌==◌, arith,
  by_test, length,
}
use mathlib.Core.Path.{subst, subst⁻¹}
use idtx_core.Bytes.{is_empty}
use idtx_core.Session.Stage.{StageOps}
use idtx_core.Session.{
  Session, SessionMode, single_edit, Command, join, commit, reload, flush, transform, create_prim,
  set_prim_active,
}
use idtx_core.Session.Handlers.{handle}
use idtx_core.Session.Registry.{
  AttachStatus, attached, unknown_session, single_edit_busy, insert_client, erase_client,
  has_clients, attach_client, detach_client, is_busy, is_single_edit,
}
use idtx_core.Session.Run.{mark_queued}
use idtx_core.Session.Answers.{Acked-handle}
use idtx_core.Server.{
  AdmissionStatus, admitted, full, stopping, SubmitStatus, accepted, queue_full, session_closing,
  unknown, Entry, push, push_priority, submit_to, consume_normal, consume_from, with_session,
}
use idtx_core.Server.Socket.{
  Message, xform_update, create_prim_request, set_prim_active_request, ignored, unmark,
  submit_marked, submit_correction_command, submit_correction, after_update, after_request,
  on_message, after_join, after_attach, on_open, on_close,
}
use idtx_core.Server.Talk.{
  Event, opens, says, closes, consumes, commits, reloads, flushes, tears_down, Talk, consume_live,
  tear_down, happen, happens,
}

-- In the mode single_edit there is no more than one client.
abbrev Alone : SessionMode → List ℕ → Type 0
Alone mode cs = is_single_edit mode ≡ true → length cs ≤ 1

erase_client_le : (c : ℕ) (cs : List ℕ) → length (erase_client c cs) ≤ length cs
unfolding erase_client
erase_client_le c [] = omega arith
erase_client_le c (d ∷ ds) =
    let ih = erase_client_le c ds in
    by_test (λ (l : List ℕ). length l ≤ length (d ∷ ds)) (c == d) _ _ (λ e. omega (arith, ih))
      (λ e. omega (arith, ih))

insert_client-nobody :
    (c : ℕ) (cs : List ℕ) → has_clients cs ≡ false → length (insert_client c cs) ≤ 1
unfolding insert_client
insert_client-nobody c [] e = omega arith
insert_client-nobody c (d ∷ ds) e = cc

not_busy : (single busy : Bool) → single && busy ≡ false → single ≡ true → busy ≡ false
not_busy true busy e h = e
not_busy false busy e h = cc

module _ {ops : StageOps} where
  abbrev pub IsAlone : Session ops → Type 0
  IsAlone s = Alone s.mode s.clients

  abbrev Kept : Option (Entry ops) → Type 0
  Kept none = Unit
  Kept (some e) = IsAlone e.session

  handle-IsAlone : (s : Session ops) (x : Command ops.Update) → IsAlone s → IsAlone (handle s x)
  handle-IsAlone s x h =
      let a = Acked-handle s x in
      subst⁻¹ (λ m. Alone m (handle s x).clients) a.same_mode
        (subst⁻¹ (Alone s.mode) a.same_clients h)

  attach_client-IsAlone : (s : Session ops) (c : ℕ) → IsAlone s → IsAlone (attach_client s c).0
  unfolding attach_client is_busy
  attach_client-IsAlone s c h =
      by_test (λ (p : Session ops × AttachStatus). IsAlone p.0)
        (is_single_edit s.mode && has_clients s.clients) _ _ (λ t. h)
        (λ t single. insert_client-nobody c s.clients (not_busy _ _ t single))

  submit_to-Kept :
      (o : Option (Entry ops)) (a : AdmissionStatus) (x : Command ops.Update)
      → Kept o
      → Kept (submit_to o a x).0
  unfolding submit_to push
  submit_to-Kept none a x h = h
  submit_to-Kept (some e) admitted x h = h
  submit_to-Kept (some e) full x h = h
  submit_to-Kept (some e) stopping x h = h

  submit_marked-Kept :
      (e : Entry ops) (d : ℕ) (path : Str) (b : AdmissionStatus)
      → Kept (some e)
      → Kept (some (submit_marked e d path b))
  unfolding submit_marked push_priority unmark
  submit_marked-Kept e d path admitted h = h
  submit_marked-Kept e d path full h = h
  submit_marked-Kept e d path stopping h = h

  submit_correction-Kept :
      (o : Option (Entry ops)) (d : ℕ) (path : Str) (b : AdmissionStatus)
      → Kept o
      → Kept (submit_correction o d path b)
  unfolding submit_correction submit_correction_command
  submit_correction-Kept none d path b h = by_test Kept (is_empty path) _ _ (λ t. h) (λ t. h)
  submit_correction-Kept (some e) d path b h =
      by_test Kept (is_empty path) _ _ (λ t. h)
        (λ t.
          by_test Kept (e.session.queued d path) _ _ (λ t. h)
            (λ t. submit_marked-Kept (with_session e (mark_queued e.session d path)) d path b h))

  after_update-Kept :
      (d : ℕ) (path : Str) (request_id : ℕ) (b : AdmissionStatus)
      (p : Option (Entry ops) × SubmitStatus)
      → Kept p.0
      → Kept (after_update d path request_id b p).0
  unfolding after_update
  after_update-Kept d path request_id b (o, accepted) h = h
  after_update-Kept d path request_id b (o, queue_full) h = submit_correction-Kept o d path b h
  after_update-Kept d path request_id b (o, session_closing) h = h
  after_update-Kept d path request_id b (o, unknown) h = h

  after_request-Kept :
      (d request_id : ℕ) (p : Option (Entry ops) × SubmitStatus)
      → Kept p.0
      → Kept (after_request d request_id p).0
  unfolding after_request
  after_request-Kept d request_id (o, accepted) h = h
  after_request-Kept d request_id (o, queue_full) h = h
  after_request-Kept d request_id (o, session_closing) h = h
  after_request-Kept d request_id (o, unknown) h = h

  on_message-Kept :
      (o : Option (Entry ops)) (d : ℕ) (m : Message ops.Update) (a b : AdmissionStatus)
      → Kept o
      → Kept (on_message o d m a b).0
  unfolding on_message
  on_message-Kept o d (xform_update u q base) a b h =
      let x = transform u d q base in
      after_update-Kept d (ops.update_path u) q b (submit_to o a x) (submit_to-Kept o a x h)
  on_message-Kept o d (create_prim_request parent type q) a b h =
      let x = create_prim parent type d q in
      after_request-Kept d q (submit_to o a x) (submit_to-Kept o a x h)
  on_message-Kept o d (set_prim_active_request path active q) a b h =
      let x = set_prim_active path active d q in
      after_request-Kept d q (submit_to o a x) (submit_to-Kept o a x h)
  on_message-Kept o d ignored a b h = h

  after_join-Kept :
      (d : ℕ) (p : Option (Entry ops) × SubmitStatus) → Kept p.0 → Kept (after_join d p).0
  unfolding after_join
  after_join-Kept d (o, accepted) h = h
  after_join-Kept d (o, queue_full) h = h
  after_join-Kept d (o, session_closing) h = h
  after_join-Kept d (o, unknown) h = h

  after_attach-Kept :
      (e : Entry ops) (d : ℕ) (a : AdmissionStatus) (p : Session ops × AttachStatus)
      → Kept (some e)
      → IsAlone p.0
      → Kept (after_attach e d a p).0
  unfolding after_attach
  after_attach-Kept e d a (s, attached) h k =
      let o = some (with_session e s) in
      after_join-Kept d (submit_to o a (join d)) (submit_to-Kept o a (join d) k)
  after_attach-Kept e d a (s, single_edit_busy) h k = h
  after_attach-Kept e d a (s, unknown_session) h k = h

  on_open-Kept :
      (o : Option (Entry ops)) (d : ℕ) (a : AdmissionStatus) → Kept o → Kept (on_open o d a).0
  unfolding on_open
  on_open-Kept none d a h = tt
  on_open-Kept (some e) d a h =
      after_attach-Kept e d a (attach_client e.session d) h (attach_client-IsAlone e.session d h)

  on_close-Kept : (o : Option (Entry ops)) (d now : ℕ) → Kept o → Kept (on_close o d now)
  unfolding on_close detach_client
  on_close-Kept none d now h = tt
  on_close-Kept (some e) d now h =
      λ single. omega (arith, h single, erase_client_le d e.session.clients)

  consume_normal-Kept :
      (e : Entry ops) (xs : List (Command ops.Update))
      → Kept (some e)
      → Kept (some (consume_normal e xs))
  unfolding consume_normal
  consume_normal-Kept e [] h = h
  consume_normal-Kept e (x ∷ xs) h = handle-IsAlone e.session x h

  consume_from-Kept :
      (e : Entry ops) (xs : List (Command ops.Update))
      → Kept (some e)
      → Kept (some (consume_from e xs))
  unfolding consume_from
  consume_from-Kept e [] h = consume_normal-Kept e e.normal h
  consume_from-Kept e (x ∷ xs) h = handle-IsAlone e.session x h

  consume_live-Kept : (o : Option (Entry ops)) → Kept o → Kept (consume_live o)
  unfolding consume_live
  consume_live-Kept none h = tt
  consume_live-Kept (some e) h = consume_from-Kept e e.priority h

  tear_down-Kept : (t : Talk ops) (o : Option (Entry ops)) → Kept t.live → Kept (tear_down t o).live
  unfolding tear_down
  tear_down-Kept t none h = h
  tear_down-Kept t (some e) h = tt

  happen-Kept : (t : Talk ops) (e : Event ops.Update) → Kept t.live → Kept (happen t e).live
  unfolding happen
  happen-Kept t (opens d a) h = on_open-Kept t.live d a h
  happen-Kept t (says d m a b) h = on_message-Kept t.live d m a b h
  happen-Kept t (closes d now) h = on_close-Kept t.live d now h
  happen-Kept t consumes h = consume_live-Kept t.live h
  happen-Kept t (commits a) h = submit_to-Kept t.live a commit h
  happen-Kept t (reloads a) h = submit_to-Kept t.live a reload h
  happen-Kept t (flushes a) h = submit_to-Kept t.live a flush h
  happen-Kept t tears_down h = tear_down-Kept t t.live h

  happens-Kept :
      (t : Talk ops) (es : List (Event ops.Update)) → Kept t.live → Kept (happens t es).live
  unfolding happens
  happens-Kept t [] h = h
  happens-Kept t (e ∷ es) h = happens-Kept (happen t e) es (happen-Kept t e h)

-- A session in the mode single_edit that no client is attached to at first never has more than one,
-- however its clients come and go and whatever they send: of two that were both let in by OnAccept,
-- the second finds it busy in OnOpen.
pub one_editor :
    {ops : StageOps} (t : Talk ops) (e f : Entry ops) (es : List (Event ops.Update))
    → t.live ≡ some e
    → e.session.clients ≡ []
    → (happens t es).live ≡ some f
    → f.session.mode ≡ single_edit
    → length f.session.clients ≤ 1
one_editor {ops = ops} t e f es le none_yet lf single =
    let k : Kept (some e) = λ s. omega (arith, ap length none_yet) in
    let h = subst (Kept {ops = ops}) lf (happens-Kept t es (subst⁻¹ (Kept {ops = ops}) le k)) in
    h (ap is_single_edit single)
