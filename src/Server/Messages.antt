-- ===== src/Server/Messages.antt =====
-- What `OnMessage` of source/controller/WebSocketController.cpp does with a request.
use idtx_core.Base.{
  ℕ, ◌+◌, ◌≡◌, refl, ◌∙◌, true, Option, none, some, List, [], ◌∷◌, Str, arith, by_test,
}
use idtx_core.Bytes.{is_empty}
use idtx_core.Session.Stage.{StageOps}
use idtx_core.Session.{Command, correction, transform, create_prim, set_prim_active}
use idtx_core.Session.Send.{reaches}
use idtx_core.Session.Run.{mark_queued}
use idtx_core.Session.Answers.Frames.{acks}
use idtx_core.Server.{
  AdmissionStatus, admitted, full, stopping, SubmitStatus, accepted, queue_full, session_closing,
  unknown, Entry, to_submit_status, push, push_priority, submit_to, with_session,
}
use idtx_core.Server.Socket.{
  Message, xform_update, create_prim_request, set_prim_active_request, ignored, unmark,
  submit_marked, submit_correction_command, submit_correction, after_update, after_request,
  on_message,
}
use idtx_core.Server.Tally.{tally, asks, waiting, waiting-append}
use idtx_core.Server.Talk.{requests}

-- What is still to be counted of a request whose submission was answered so.
abbrev pub refused : ℕ → ℕ → SubmitStatus → List (ℕ × ℕ) → ℕ
refused c r accepted l = 0
refused c r queue_full l = tally c r l
refused c r session_closing l = tally c r l
refused c r unknown l = tally c r l

module _ {ops : StageOps} (c : ℕ) where
  -- The connection is a client of the session, if there is one.
  abbrev pub There : Option (Entry ops) → Type 0
  There none = Unit
  There (some e) = reaches e.session c ≡ true

  -- The acknowledgements that the consumer has sent it, and its requests in the queues.
  abbrev pub counted : ℕ → Option (Entry ops) → ℕ
  counted r none = 0
  counted r (some e) =
      tally c r (acks e.session.sent) + (waiting c r e.normal + waiting c r e.priority)

  pub submit_to-There :
      (o : Option (Entry ops)) (a : AdmissionStatus) (x : Command ops.Update)
      → There o
      → There (submit_to o a x).0
  unfolding submit_to push
  submit_to-There none a x h = tt
  submit_to-There (some e) admitted x h = h
  submit_to-There (some e) full x h = h
  submit_to-There (some e) stopping x h = h

  pub submit_to-counted :
      (o : Option (Entry ops)) (a : AdmissionStatus) (x : Command ops.Update) (r : ℕ)
      → counted r (submit_to o a x).0 + refused c r (submit_to o a x).1 (asks x)
        ≡ counted r o + tally c r (asks x)
  unfolding submit_to push to_submit_status
  submit_to-counted none a x r = refl
  submit_to-counted (some e) admitted x r = omega (arith, waiting-append c r e.normal (x ∷ []))
  submit_to-counted (some e) full x r = refl
  submit_to-counted (some e) stopping x r = refl

  -- A request that is not accepted is answered at once.
  after_request-counted :
      (d request_id r : ℕ) (p : Option (Entry ops) × SubmitStatus)
      → counted r (after_request d request_id p).0
          + tally c r (acks (after_request d request_id p).1)
        ≡ counted r p.0 + refused c r p.1 ((d, request_id) ∷ [])
  unfolding after_request acks
  after_request-counted d request_id r (o, accepted) = refl
  after_request-counted d request_id r (o, queue_full) = refl
  after_request-counted d request_id r (o, session_closing) = refl
  after_request-counted d request_id r (o, unknown) = refl

  after_request-There :
      (d request_id : ℕ) (p : Option (Entry ops) × SubmitStatus)
      → There p.0
      → There (after_request d request_id p).0
  unfolding after_request
  after_request-There d request_id (o, accepted) h = h
  after_request-There d request_id (o, queue_full) h = h
  after_request-There d request_id (o, session_closing) h = h
  after_request-There d request_id (o, unknown) h = h

  -- A correction answers no request.
  abbrev Same : Option (Entry ops) → Option (Entry ops) → Type 0
  Same o o' = (There o → There o') × ((r : ℕ) → counted r o' ≡ counted r o)

  submit_marked-Same :
      (e : Entry ops) (d : ℕ) (path : Str) (b : AdmissionStatus)
      → Same (some e) (some (submit_marked e d path b))
  unfolding submit_marked push_priority unmark
  submit_marked-Same e d path admitted =
      (λ h. h, λ r. omega (arith, waiting-append c r e.priority (correction d path ∷ [])))
  submit_marked-Same e d path full = (λ h. h, λ r. refl)
  submit_marked-Same e d path stopping = (λ h. h, λ r. refl)

  submit_correction_command-Same :
      (o : Option (Entry ops)) (d : ℕ) (path : Str) (b : AdmissionStatus)
      → Same o (submit_correction_command o d path b)
  unfolding submit_correction_command
  submit_correction_command-Same none d path b = (λ h. h, λ r. refl)
  submit_correction_command-Same (some e) d path b =
      by_test (Same (some e)) (e.session.queued d path) _ _ (λ t. (λ h. h, λ r. refl))
        (λ t. submit_marked-Same (with_session e (mark_queued e.session d path)) d path b)

  submit_correction-Same :
      (o : Option (Entry ops)) (d : ℕ) (path : Str) (b : AdmissionStatus)
      → Same o (submit_correction o d path b)
  unfolding submit_correction
  submit_correction-Same o d path b =
      by_test (Same o) (is_empty path) _ _ (λ t. (λ h. h, λ r. refl))
        (λ t. submit_correction_command-Same o d path b)

  after_update-counted :
      (d : ℕ) (path : Str) (request_id r : ℕ) (b : AdmissionStatus)
      (p : Option (Entry ops) × SubmitStatus)
      → counted r (after_update d path request_id b p).0
          + tally c r (acks (after_update d path request_id b p).1)
        ≡ counted r p.0 + refused c r p.1 ((d, request_id) ∷ [])
  unfolding after_update acks
  after_update-counted d path request_id r b (o, accepted) = refl
  after_update-counted d path request_id r b (o, queue_full) =
      omega (arith, (submit_correction-Same o d path b).1 r)
  after_update-counted d path request_id r b (o, session_closing) = refl
  after_update-counted d path request_id r b (o, unknown) = refl

  after_update-There :
      (d : ℕ) (path : Str) (request_id : ℕ) (b : AdmissionStatus)
      (p : Option (Entry ops) × SubmitStatus)
      → There p.0
      → There (after_update d path request_id b p).0
  unfolding after_update
  after_update-There d path request_id b (o, accepted) h = h
  after_update-There d path request_id b (o, queue_full) h = (submit_correction-Same o d path b).0 h
  after_update-There d path request_id b (o, session_closing) h = h
  after_update-There d path request_id b (o, unknown) h = h

  -- A message is answered at once, or its request is in the queue.
  pub on_message-counted :
      (o : Option (Entry ops)) (d : ℕ) (m : Message ops.Update) (a b : AdmissionStatus)
      → There o
      → There (on_message o d m a b).0
        × ((r : ℕ)
            → counted r (on_message o d m a b).0 + tally c r (acks (on_message o d m a b).1)
              ≡ counted r o + tally c r (requests d m))
  unfolding on_message acks
  on_message-counted o d (xform_update u request_id base_seq) a b h =
      let x = transform u d request_id base_seq in
      let p = submit_to o a x in
      (
        after_update-There d (ops.update_path u) request_id b p (submit_to-There o a x h),
        λ r.
            after_update-counted d (ops.update_path u) request_id r b p ∙ submit_to-counted o a x r,
      )
  on_message-counted o d (create_prim_request parent type request_id) a b h =
      let x = create_prim parent type d request_id in
      let p = submit_to o a x in
      (
        after_request-There d request_id p (submit_to-There o a x h),
        λ r. after_request-counted d request_id r p ∙ submit_to-counted o a x r,
      )
  on_message-counted o d (set_prim_active_request path active request_id) a b h =
      let x = set_prim_active path active d request_id in
      let p = submit_to o a x in
      (
        after_request-There d request_id p (submit_to-There o a x h),
        λ r. after_request-counted d request_id r p ∙ submit_to-counted o a x r,
      )
  on_message-counted o d ignored a b h = (h, λ r. refl)
