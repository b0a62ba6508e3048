-- ===== src/Session/Refines/Notices.antt =====
-- What source/session/StageNoticeListener.cpp announces, it announces by steps of the protocol.
use idtx_core.Base.{ℕ, ◌≡◌, refl, sym, ap, ◌∙◌, ◌||◌, Option, none, some, List, [], ◌∷◌, Str, u64}
use idtx_core.Versions.{record_change}
use idtx_core.Session.Stage.{StageOps, Notice}
use idtx_core.Session.{Session, xform_broadcast, seq_of, bump}
use idtx_core.Session.Send.{broadcast_read, broadcast_resolved_transform, transform_of}
use idtx_core.Session.Protocol.{Ext}
use idtx_core.Session.Refines.Sends.{
  either_way, broadcast-server_seq, Ext-quiet, Ext-step, Ext-broadcast, Ext-change,
}
use idtx_core.Session.Notices.{
  announce, announce_all, announce_unmasked, is_masked, layer_of, with_version, reload_prims,
  affected_prims, on_objects_changed, run_moments,
}

broadcast_read-server_seq :
    {ops : StageOps} (t : Session ops) (path : Str) (origin seq : ℕ) (o : Option ops.Transform)
    → (broadcast_read t path origin seq o).server_seq ≡ t.server_seq
unfolding broadcast_read
broadcast_read-server_seq t path origin seq none = refl
broadcast_read-server_seq t path origin seq (some v) =
    broadcast-server_seq t.clients (some origin) (xform_broadcast path v seq) t

pub announce-server_seq :
    {ops : StageOps} (t : Session ops) (seq origin : ℕ) (path : Str)
    → (announce t seq origin path).server_seq ≡ t.server_seq
unfolding announce broadcast_resolved_transform
announce-server_seq t seq origin path =
    let t' = record t { versions = record_change t.versions path seq origin } in
    broadcast_read-server_seq t' path origin seq (transform_of t' path)

module _ {ops : StageOps} (s : Session ops) where
  pub Ext-broadcast_read :
      (t : Session ops) (path : Str) (origin seq : ℕ) (o : Option ops.Transform)
      → seq ≡ seq_of t
      → Ext s t
      → Ext s (broadcast_read t path origin seq o)
  unfolding broadcast_read
  Ext-broadcast_read t path origin seq none e x = x
  Ext-broadcast_read t path origin seq (some v) e x =
      Ext-broadcast s t.clients (some origin) (xform_broadcast path v seq) t e x

  pub Ext-announce :
      (t : Session ops) (seq origin : ℕ) (path : Str)
      → seq ≡ seq_of t
      → Ext s t
      → Ext s (announce t seq origin path)
  unfolding announce broadcast_resolved_transform
  Ext-announce t seq origin path e x =
      let t' = record t { versions = record_change t.versions path seq origin } in
      Ext-broadcast_read t' path origin seq (transform_of t' path) e
        (Ext-change s t path seq origin e x)

  pub Ext-announce_all :
      (ps : List Str) (seq origin : ℕ) (t : Session ops)
      → seq ≡ seq_of t
      → Ext s t
      → Ext s (announce_all ps seq origin t)
  unfolding announce_all
  Ext-announce_all [] seq origin t e x = x
  Ext-announce_all (p ∷ ps) seq origin t e x =
      Ext-announce_all ps seq origin (announce t seq origin p)
        (e ∙ ap u64 (sym (announce-server_seq t seq origin p))) (Ext-announce t seq origin p e x)

  Ext-announce_unmasked :
      (layer : Option ops.Layer) (ps : List Str) (seq : ℕ) (t : Session ops)
      → seq ≡ seq_of t
      → Ext s t
      → Ext s (announce_unmasked layer ps seq t)
  unfolding announce_unmasked
  Ext-announce_unmasked layer [] seq t e x = x
  Ext-announce_unmasked layer (p ∷ ps) seq t e x =
      either_way (λ u. Ext s (announce_unmasked layer ps seq u)) (is_masked ops layer p) t
        (announce t seq 0 p) (Ext-announce_unmasked layer ps seq t e x)
        (Ext-announce_unmasked layer ps seq (announce t seq 0 p)
          (e ∙ ap u64 (sym (announce-server_seq t seq 0 p))) (Ext-announce t seq 0 p e x))

  Ext-with_version :
      (ps : List Str) (f : ℕ → Session ops → Session ops) (t : Session ops)
      → ((u : Session ops) → Ext s u → Ext s (f (seq_of u) u))
      → Ext s t
      → Ext s (with_version ps f t)
  unfolding with_version
  Ext-with_version [] f t k x = x
  Ext-with_version (p ∷ ps) f t k x = k (bump t) (Ext-step s t x)

  pub Ext-on_objects_changed :
      (t : Session ops) (n : Notice) → Ext s t → Ext s (on_objects_changed t n)
  unfolding on_objects_changed
  Ext-on_objects_changed t n x =
      either_way (Ext s) (t.create_in_progress || t.set_active_in_progress) t _ x (
        either_way (Ext s) t.reload_in_progress _ _
          (Ext-with_version (reload_prims n) (announce_unmasked (layer_of t) (reload_prims n)) t
            (λ u. Ext-announce_unmasked (layer_of t) (reload_prims n) (seq_of u) u refl) x)
          (Ext-with_version (affected_prims n)
            (λ seq. announce_all (affected_prims n) seq t.current_origin) t
            (λ u. Ext-announce_all (affected_prims n) (seq_of u) t.current_origin u refl) x))

  pub Ext-run_moments :
      (ms : List (ops.Stage × Notice)) (t : Session ops) → Ext s t → Ext s (run_moments ms t)
  unfolding run_moments
  Ext-run_moments [] t x = x
  Ext-run_moments ((stage, n) ∷ ms) t x =
      let t' = record t { stage = some stage } in
      Ext-run_moments ms (on_objects_changed t' n) (
        Ext-on_objects_changed t' n
          (Ext-quiet s t t' (record { same_seq = refl; same_versions = refl; same_sent = refl }) x))
