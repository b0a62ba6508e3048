-- ===== src/Session/Echo.antt =====
-- Whom an applied update is told, by source/session/SessionManager.cpp and the notices of
-- source/session/StageNoticeListener.cpp.
use idtx_core.Base.{
  ℕ, ◌≡◌, ◌≢◌, refl, sym, ap, ◌∙◌, true, false, ◌||◌, Option, none, some, List, [], ◌∷◌, ◌++◌, Str,
  ◌==◌, if◌then◌else◌, Bool-cases, inl, inr, arith,
}
use mathlib.Core.Path.{subst⁻¹}
use idtx_core.Versions.{current, check_update, record_change}
use idtx_core.Session.Stage.{StageOps, Notice}
use idtx_core.Session.{Session, Frame, transform, ack, xform_broadcast, frame_seq, seq_of, bump}
use idtx_core.Session.Send.{
  send, note_sent, reaches, send_ack, broadcast, broadcast_read, broadcast_resolved_transform,
  transform_of,
}
use idtx_core.Session.Notices.{
  announce, announce_all, with_version, reload_prims, affected_prims, announce_unmasked, layer_of,
  on_objects_changed, run_moments,
}
use idtx_core.Session.Handlers.{
  authored, finish_transform, apply_transform, checked_transform, handle_transform, handle,
}
use idtx_core.Session.Protocol.{Every}
use idtx_core.Session.Refines.Sends.{either_way}
use idtx_core.Session.Rest.{view-on_objects_changed}
use idtx_core.Session.Settled.{IsSettled, Marks}

-- Entries that are new since `old`, none of them to the connection.
abbrev pub ToOthers : {A : Type 0} → ℕ → (old fs : List (ℕ × A)) → Type 0
ToOthers {A = A} origin old fs =
    (new : List (ℕ × A)) × (fs ≡ new ++ old) × Every (λ p. p.0 ≢ origin) new

module _ {ops : StageOps} (origin : ℕ) (old : List (ℕ × Frame ops.Transform ops.Shape)) where
  broadcast-ToOthers :
      (cs : List ℕ) (f : Frame ops.Transform ops.Shape) (t : Session ops)
      → ToOthers origin old t.sent
      → ToOthers origin old (broadcast cs (some origin) f t).sent
  unfolding broadcast
  broadcast-ToOthers [] f t h = h
  broadcast-ToOthers (c ∷ cs) f t (new, e, h) =
      let t' = note_sent (send t c f) c (frame_seq f) in
      broadcast-ToOthers cs f (if c == origin then t else t') (elim (Bool-cases (c == origin)) [
        | inl e_own ↦
            subst⁻¹ (λ b. ToOthers origin old (if b then t else t').sent) e_own (new, e, h)
        | inr e_other ↦
            subst⁻¹ (λ b. ToOthers origin old (if b then t else t').sent) e_other
              ((c, f) ∷ new, ap (λ l. (c, f) ∷ l) e, (ground arith, h))
      ])

  broadcast_read-ToOthers :
      (t : Session ops) (path : Str) (seq : ℕ) (o : Option ops.Transform)
      → ToOthers origin old t.sent
      → ToOthers origin old (broadcast_read t path origin seq o).sent
  unfolding broadcast_read
  broadcast_read-ToOthers t path seq none h = h
  broadcast_read-ToOthers t path seq (some v) h =
      broadcast-ToOthers t.clients (xform_broadcast path v seq) t h

  announce-ToOthers :
      (t : Session ops) (seq : ℕ) (path : Str)
      → ToOthers origin old t.sent
      → ToOthers origin old (announce t seq origin path).sent
  unfolding announce broadcast_resolved_transform
  announce-ToOthers t seq path h =
      let t' = record t { versions = record_change t.versions path seq origin } in
      broadcast_read-ToOthers t' path seq (transform_of t' path) h

  announce_all-ToOthers :
      (ps : List Str) (seq : ℕ) (t : Session ops)
      → ToOthers origin old t.sent
      → ToOthers origin old (announce_all ps seq origin t).sent
  unfolding announce_all
  announce_all-ToOthers [] seq t h = h
  announce_all-ToOthers (p ∷ ps) seq t h =
      announce_all-ToOthers ps seq (announce t seq origin p) (announce-ToOthers t seq p h)

  with_version-ToOthers :
      (ps qs : List Str) (t : Session ops)
      → ToOthers origin old t.sent
      → ToOthers origin old (with_version qs (λ seq. announce_all ps seq origin) t).sent
  unfolding with_version
  with_version-ToOthers ps [] t h = h
  with_version-ToOthers ps (q ∷ qs) t h = announce_all-ToOthers ps (seq_of (bump t)) (bump t) h

  -- The origin's change, while no reload runs.
  on_objects_changed-ToOthers :
      (t : Session ops) (n : Notice)
      → t.reload_in_progress ≡ false
      → t.current_origin ≡ origin
      → ToOthers origin old t.sent
      → ToOthers origin old (on_objects_changed t n).sent
  unfolding on_objects_changed
  on_objects_changed-ToOthers t n er eo h =
      let ps = affected_prims n in
      let plain : Session ops = with_version ps (λ seq. announce_all ps seq t.current_origin) t in
      let reloading =
        with_version (reload_prims n) (announce_unmasked (layer_of t) (reload_prims n)) t in
      either_way (λ (u : Session ops). ToOthers origin old u.sent)
        (t.create_in_progress || t.set_active_in_progress) t
        (if t.reload_in_progress then reloading else plain) h
        (subst⁻¹ (λ b. ToOthers origin old (if b then reloading else plain).sent) er
          (subst⁻¹
            (λ o. ToOthers origin old (with_version ps (λ seq. announce_all ps seq o) t).sent) eo
            (with_version-ToOthers ps ps t h)))

  run_moments-ToOthers :
      (ms : List (ops.Stage × Notice)) (t : Session ops)
      → t.reload_in_progress ≡ false
      → t.current_origin ≡ origin
      → ToOthers origin old t.sent
      → ToOthers origin old (run_moments ms t).sent
  unfolding run_moments
  run_moments-ToOthers [] t er eo h = h
  run_moments-ToOthers ((stage, n) ∷ ms) t er eo h =
      let t' = record t { stage = some stage } in
      run_moments-ToOthers ms (on_objects_changed t' n)
        (view-on_objects_changed (λ s. s.reload_in_progress) (λ s st k v fs. refl) t' n ∙ er)
        (view-on_objects_changed (λ s. s.current_origin) (λ s st k v fs. refl) t' n ∙ eo)
        (on_objects_changed-ToOthers t' n er eo h)

module _ {ops : StageOps} where
  -- What `send_ack` sends.
  abbrev pub ack_frame :
      Session ops → (origin request_id : ℕ) → Option Str → List (ℕ × Frame ops.Transform ops.Shape)
  ack_frame t origin request_id error =
      if reaches t origin then (origin, ack request_id error (seq_of t)) ∷ [] else []

  pub sent-send_ack :
      (t : Session ops) (origin request_id : ℕ) (error : Option Str)
      → (send_ack t origin request_id error).sent ≡ ack_frame t origin request_id error ++ t.sent
  unfolding send_ack
  sent-send_ack t origin request_id error = elim (Bool-cases (reaches t origin)) [
    | inl e ↦ rw e
    | inr e ↦ rw e
  ]

  pub ack_frame-send_ack :
      (t : Session ops) (origin request_id : ℕ) (error : Option Str)
      → ack_frame (send_ack t origin request_id error) origin request_id error
        ≡ ack_frame t origin request_id error
  unfolding send_ack
  ack_frame-send_ack t origin request_id error =
      either_way (λ w. ack_frame w origin request_id error ≡ ack_frame t origin request_id error)
        (reaches t origin) _ t refl refl

  stage-send_ack :
      (t : Session ops) (origin request_id : ℕ) (error : Option Str)
      → ((send_ack t origin request_id error).stage ≡ t.stage)
        × ((send_ack t origin request_id error).dirty ≡ t.dirty)
  unfolding send_ack
  stage-send_ack t origin request_id error =
      either_way (λ w. (w.stage ≡ t.stage) × (w.dirty ≡ t.dirty)) (reaches t origin) _ t
        (refl, refl) (refl, refl)

  -- An update that is applied, and the acknowledgement.
  handle-applied :
      (s : Session ops) (u : ops.Update) (origin request_id base_seq : ℕ) (stage : ops.Stage)
      → s.stage ≡ some stage
      → check_update s.versions origin (ops.update_path u) base_seq ≡ current
      → (ops.apply stage u).result ≡ true
      → handle s (transform u origin request_id base_seq)
        ≡ send_ack
            (record (authored s origin (ops.apply stage u)) { dirty = true })
            origin
            request_id
            none
  unfolding handle handle_transform checked_transform apply_transform finish_transform
  handle-applied s u origin request_id base_seq stage es ec er = rw (ec, es, er)

  -- While no handler runs, an update with a current base that the dispatcher applies leaves the
  -- stage that it made and marks the session as dirty; its sender is sent the acknowledgement
  -- without an error, if it is a client with a number other than 0, and nothing else: every other
  -- frame goes to another connection.
  pub own_update_not_echoed :
      (s : Session ops) (u : ops.Update) (origin request_id base_seq : ℕ) (stage : ops.Stage)
      → IsSettled s
      → s.stage ≡ some stage
      → check_update s.versions origin (ops.update_path u) base_seq ≡ current
      → (ops.apply stage u).result ≡ true
      → ((handle s (transform u origin request_id base_seq)).stage ≡ some (ops.apply stage u).stage)
        × ((handle s (transform u origin request_id base_seq)).dirty ≡ true)
        × ((new : List (ℕ × Frame ops.Transform ops.Shape)) × ((handle s
                (transform u origin request_id base_seq)).sent
              ≡ ack_frame (handle s (transform u origin request_id base_seq)) origin request_id none
                ++ (new ++ s.sent))
            × Every (λ p. p.0 ≢ origin) new)
  unfolding IsSettled
  own_update_not_echoed s u origin request_id base_seq stage h es ec er =
      let a = ops.apply stage u in
      let s' = record s { current_origin = origin } in
      let t = record (authored s origin a) { dirty = true } in
      let er' : s.reload_in_progress ≡ false = ap (λ (m : Marks). m.reloads) h in
      let (new, en, others) =
        run_moments-ToOthers origin s.sent a.moments s' er' refl ([], refl, tt) in
      let e = handle-applied s u origin request_id base_seq stage es ec er in
      subst⁻¹
        (λ (w : Session ops).
          (w.stage ≡ some a.stage)
          × (w.dirty ≡ true)
          × ((fs : List (ℕ × Frame ops.Transform ops.Shape)) × (w.sent
                ≡ ack_frame w origin request_id none ++ (fs ++ s.sent))
              × Every (λ p. p.0 ≢ origin) fs))
        e
        (
          (stage-send_ack t origin request_id none).0,
          (stage-send_ack t origin request_id none).1,
          (
            new,
            sent-send_ack t origin request_id none
                ∙ ap (λ l. ack_frame t origin request_id none ++ l) en
                ∙ ap (λ l. l ++ (new ++ s.sent))
                    (sym (ack_frame-send_ack t origin request_id none)),
            others,
          ),
        )
