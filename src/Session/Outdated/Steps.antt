-- ===== src/Session/Outdated/Steps.antt =====
-- How a recorded change of a prim stays in the history of a session of source/session, whatever step
-- of the consumer recorded it.
use mathlib.Core.List.{Memᴰ}
use mathlib.Core.Path.{subst, subst⁻¹}
use idtx_core.Base.{
  ℕ, ◌+◌, ◌^◌, ◌≤◌, ◌<◌, ◌≡◌, ◌≢◌, refl, sym, ap, ◌∙◌, Bool, true, false, ◌||◌, none, some, List,
  [], ◌∷◌, ◌++◌, Str, arith, u64, u64_small,
}
use idtx_core.Versions.{record_change}
use idtx_core.Versions.History.{Event, changed, foreign_seq}
use idtx_core.Versions.Clients.{foreign_seq-lt, foreign_seq-conflict}
use idtx_core.Session.Stage.{StageOps, Notice}
use idtx_core.Session.{Session, Frame, frame_seq, seq_of, bump}
use idtx_core.Session.Send.{broadcast_to_all, broadcast_resolved_transform, transform_of}
use idtx_core.Session.Notices.{
  announce, announce_all, with_version, affected_prims, on_objects_changed, run_moments,
}
use idtx_core.Session.Handlers.{announced}
use idtx_core.Session.Protocol.{Moves, here, change, Ext}
use idtx_core.Session.Refines.Sends.{Ext-step, Ext-broadcast_to_all, Ext-send_ack}
use idtx_core.Session.Refines.Notices.{
  announce-server_seq, Ext-broadcast_read, Ext-announce, Ext-announce_all, Ext-on_objects_changed,
  Ext-run_moments,
}
use idtx_core.Session.Refines.{Ext-same}
use idtx_core.Session.History.{Moves-server_seq}
use idtx_core.Session.Rest.{view-on_objects_changed}
use idtx_core.Session.Versioning.{Moves-append}

-- Which notices a session passes over or takes as those of a reload, and whose change they report.
pub record Listening : Type 0 where
  pub passes_over : Bool
  pub reloads : Bool
  pub origin : ℕ

abbrev pub listening : {ops : StageOps} → Session ops → Listening
listening s = record {
  passes_over = s.create_in_progress || s.set_active_in_progress;
  reloads = s.reload_in_progress;
  origin = s.current_origin;
}

abbrev pub hears : ℕ → Listening
hears origin = record { passes_over = false; reloads = false; origin = origin }

module _ {ops : StageOps} (s : Session ops) (sender : ℕ) (path : Str) (base : ℕ) where
  -- On the way to the last session somebody else changed the prim with a version above the base.
  abbrev pub Outdated : Session ops → Type 0
  Outdated t = (es : List Event) × Moves s es t × (base < foreign_seq sender path es)

  pub later : (t u : Session ops) → Ext t u → Outdated t → Outdated u
  later t u (fs, n) (es, m, lt) =
      (fs ++ es, Moves-append m n, foreign_seq-lt fs es sender base path lt)

  change-Outdated :
      (t : Session ops) (seq writer : ℕ)
      → seq ≡ seq_of t
      → writer ≢ sender
      → base < seq
      → Ext s t
      → Outdated (record t { versions = record_change t.versions path seq writer })
  change-Outdated t seq writer e ne lt (es, m) = (
    changed path seq writer ∷ es,
    change m path seq writer e,
    foreign_seq-conflict es sender writer seq base path ne lt,
  )

  -- The version after that of a session that comes after `s`.
  newer :
      (t : Session ops)
      → base ≤ s.server_seq
      → t.server_seq + 1 < 2 ^ 64
      → Ext s t
      → base < seq_of (bump t)
  newer t le lt (es, m) = omega (arith, Moves-server_seq m, u64_small (t.server_seq + 1) lt)

  pub announced-Outdated :
      (t : Session ops) (frame : ℕ → Frame ops.Transform ops.Shape) (origin request_id : ℕ)
      → ((n : ℕ) → frame_seq (frame n) ≡ n)
      → origin ≢ sender
      → base ≤ s.server_seq
      → (announced t path frame origin request_id).server_seq < 2 ^ 64
      → Ext s t
      → Outdated (announced t path frame origin request_id)
  unfolding announced
  announced-Outdated t frame origin request_id law ne le lt x =
      let t' = bump (record t { dirty = true }) in
      let seq = seq_of t' in
      let t'' = record t' { versions = record_change t'.versions path seq origin } in
      let rest : Ext t'' (announced t path frame origin request_id) =
        Ext-send_ack t'' (broadcast_to_all t'' (frame seq)) origin request_id none
          (Ext-broadcast_to_all t'' t'' (frame seq) (law seq) ([], here)) in
      let t0 = record t { dirty = true } in
      let x0 = Ext-same s t t0 refl refl refl x in
      let small : t0.server_seq + 1 < 2 ^ 64 = omega (arith, Moves-server_seq rest.1) in
      later t'' (announced t path frame origin request_id) rest
        (change-Outdated t' seq origin refl ne (newer t0 le small x0) (Ext-step s t0 x0))

  announce-Outdated :
      (t : Session ops) (seq origin : ℕ)
      → seq ≡ seq_of t
      → origin ≢ sender
      → base < seq
      → Ext s t
      → Outdated (announce t seq origin path)
  unfolding announce broadcast_resolved_transform
  announce-Outdated t seq origin e ne lt x =
      let t' = record t { versions = record_change t.versions path seq origin } in
      later t' (announce t seq origin path)
        (Ext-broadcast_read t' t' path origin seq (transform_of t' path) e ([], here))
        (change-Outdated t seq origin e ne lt x)

  announce_all-Outdated :
      (ps : List Str) (seq origin : ℕ) (t : Session ops)
      → Memᴰ path ps
      → seq ≡ seq_of t
      → origin ≢ sender
      → base < seq
      → Ext s t
      → Outdated (announce_all ps seq origin t)
  unfolding announce_all
  announce_all-Outdated [] seq origin t mem e ne lt x = elim mem [ ]
  announce_all-Outdated (p ∷ ps) seq origin t (Memᴰ.head same) e ne lt x =
      let t' = announce t seq origin p in
      let e' : seq ≡ seq_of t' = e ∙ ap u64 (sym (announce-server_seq t seq origin p)) in
      later t' (announce_all ps seq origin t') (Ext-announce_all t' ps seq origin t' e' ([], here))
        (subst (λ q. Outdated (announce t seq origin q)) same
          (announce-Outdated t seq origin e ne lt x))
  announce_all-Outdated (p ∷ ps) seq origin t (Memᴰ.tail mem) e ne lt x =
      let e' : seq ≡ seq_of (announce t seq origin p) =
        e ∙ ap u64 (sym (announce-server_seq t seq origin p)) in
      announce_all-Outdated ps seq origin (announce t seq origin p) mem e' ne lt
        (Ext-announce s t seq origin p e x)

  with_version-Outdated :
      (ps : List Str) (f : ℕ → Session ops → Session ops) (t : Session ops)
      → Memᴰ path ps
      → ((f (seq_of (bump t)) (bump t)).server_seq < 2 ^ 64
          → Outdated (f (seq_of (bump t)) (bump t)))
      → (with_version ps f t).server_seq < 2 ^ 64
      → Outdated (with_version ps f t)
  unfolding with_version
  with_version-Outdated [] f t mem h = elim mem [ ]
  with_version-Outdated (p ∷ ps) f t mem h = h

  -- A notice that comes while no other handler runs.
  on_objects_changed-Outdated :
      (t : Session ops) (n : Notice) (origin : ℕ)
      → listening t ≡ hears origin
      → Memᴰ path (affected_prims n)
      → origin ≢ sender
      → base ≤ s.server_seq
      → (on_objects_changed t n).server_seq < 2 ^ 64
      → Ext s t
      → Outdated (on_objects_changed t n)
  unfolding on_objects_changed
  on_objects_changed-Outdated t n origin l mem ne le lt x =
      let f : ℕ → Session ops → Session ops =
        λ seq. announce_all (affected_prims n) seq t.current_origin in
      let visible : on_objects_changed t n ≡ with_version (affected_prims n) f t =
        rw (ap (λ (h : Listening). h.passes_over) l, ap (λ (h : Listening). h.reloads) l) in
      let seq = seq_of (bump t) in
      let e : t.current_origin ≡ origin = ap (λ (h : Listening). h.origin) l in
      let last = f seq (bump t) in
      let rest : Ext (bump t) last =
        Ext-announce_all (bump t) (affected_prims n) seq t.current_origin (bump t) refl
          ([], here) in
      let changes : last.server_seq < 2 ^ 64 → Outdated last = λ lt'.
        announce_all-Outdated (affected_prims n) seq t.current_origin (bump t) mem refl
          (subst⁻¹ (λ o. o ≢ sender) e ne) (newer t le (omega (arith, Moves-server_seq rest.1)) x)
          (Ext-step s t x) in
      subst⁻¹ Outdated visible (
        with_version-Outdated (affected_prims n) f t mem changes
          (subst (λ (u : Session ops). u.server_seq < 2 ^ 64) visible lt))

  -- The notices of an authoring call, one of which names the prim.
  pub run_moments-Outdated :
      (before after : List (ops.Stage × Notice)) (stage : ops.Stage) (n : Notice) (origin : ℕ)
      (t : Session ops)
      → listening t ≡ hears origin
      → Memᴰ path (affected_prims n)
      → origin ≢ sender
      → base ≤ s.server_seq
      → (run_moments (before ++ (stage, n) ∷ after) t).server_seq < 2 ^ 64
      → Ext s t
      → Outdated (run_moments (before ++ (stage, n) ∷ after) t)
  unfolding run_moments
  run_moments-Outdated [] after stage n origin t l mem ne le lt x =
      let t' = record t { stage = some stage } in
      let u = on_objects_changed t' n in
      let rest : Ext u (run_moments after u) = Ext-run_moments u after u ([], here) in
      later u (run_moments after u) rest (
        on_objects_changed-Outdated t' n origin l mem ne le (omega (arith, Moves-server_seq rest.1))
          (Ext-same s t t' refl refl refl x))
  run_moments-Outdated ((first, m) ∷ before) after stage n origin t l mem ne le lt x =
      let t' = record t { stage = some first } in
      let u = on_objects_changed t' m in
      run_moments-Outdated before after stage n origin u
        (view-on_objects_changed listening (λ s st n v fs. refl) t' m ∙ l) mem ne le lt
        (Ext-on_objects_changed s t' m (Ext-same s t t' refl refl refl x))
