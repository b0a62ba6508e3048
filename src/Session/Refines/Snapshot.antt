-- ===== src/Session/Refines/Snapshot.antt =====
-- A join snapshot of source/session/SessionManager.cpp is one delivery of frames of one version.
use idtx_core.Base.{
  ℕ, ◌≡◌, refl, sym, false, Option, none, some, List, [], ◌∷◌, ◌++◌, Str, leb, map,
}
use mathlib.Core.Path.{subst}
use idtx_core.Versions.History.{sent}
use idtx_core.Session.Stage.{StageOps, PrimType, CreatedPrim, PrimSpec}
use idtx_core.Session.{
  Session, Frame, xform_broadcast, create_prim_broadcast, set_prim_active_broadcast,
  snapshot_complete, frame_seq, seq_of,
}
use idtx_core.Session.Send.{send, note_sent, is_client}
use idtx_core.Session.Protocol.{Every, Moves, deliver_all, Ext}
use idtx_core.Session.Refines.Sends.{either_way}
use idtx_core.Session.Snapshot.{
  creation, creations, is_built_in, insert_by_depth, sort_by_depth, prepend_transform, transforms,
  deletions, layer_frames, layer_specs, send_all, send_snapshot,
}

-- Of frames with their depths.
abbrev Placed : {T S : Type 0} → (Frame T S → Type 0) → List (ℕ × Frame T S) → Type 0
Placed P = Every (λ f. P f.1)

-- What holds of a frame of each kind that a snapshot may contain.
module _ {T S : Type 0} (seq : ℕ) (P : Frame T S → Type 0)
    (p_create : (parent : Str) (type : PrimType) (prim : CreatedPrim S)
      → P (create_prim_broadcast parent type prim seq))
    (p_xform : (path : Str) (t : T) → P (xform_broadcast path t seq))
    (p_delete : (path : Str) → P (set_prim_active_broadcast path false seq)) where
  Every-append : (fs gs : List (Frame T S)) → Every P fs → Every P gs → Every P (fs ++ gs)
  Every-append [] gs hf hg = hg
  Every-append (f ∷ fs) gs hf hg = (hf.0, Every-append fs gs hf.1 hg)

  creations-Placed : (specs : List (PrimSpec T S)) → Placed P (creations seq specs)
  unfolding creations creation
  creations-Placed [] = tt
  creations-Placed (spec ∷ specs) =
      let ih = creations-Placed specs in
      either_way (Placed P) spec.is_def _ _
        (either_way (Placed P) (is_built_in spec.type) _ _ (p_create _ _ _, ih) ih) ih

  insert_by_depth-Placed :
      (f : ℕ × Frame T S) (fs : List (ℕ × Frame T S))
      → P f.1
      → Placed P fs
      → Placed P (insert_by_depth f fs)
  unfolding insert_by_depth
  insert_by_depth-Placed f [] e h = (e, tt)
  insert_by_depth-Placed f (g ∷ fs) e h =
      either_way (Placed P) (leb f.0 g.0) (f ∷ g ∷ fs) (g ∷ insert_by_depth f fs) (e, h)
        (h.0, insert_by_depth-Placed f fs e h.1)

  sort_by_depth-Placed : (fs : List (ℕ × Frame T S)) → Placed P fs → Placed P (sort_by_depth fs)
  unfolding sort_by_depth
  sort_by_depth-Placed [] h = tt
  sort_by_depth-Placed (f ∷ fs) h =
      insert_by_depth-Placed f (sort_by_depth fs) h.0 (sort_by_depth-Placed fs h.1)

  Placed-Every : (fs : List (ℕ × Frame T S)) → Placed P fs → Every P (map (λ f. f.1) fs)
  Placed-Every [] h = tt
  Placed-Every (f ∷ fs) h = (h.0, Placed-Every fs h.1)

  prepend_transform-Every :
      (path : Str) (o : Option T) (fs : List (Frame T S))
      → Every P fs
      → Every P (prepend_transform seq path o fs)
  unfolding prepend_transform
  prepend_transform-Every path none fs h = h
  prepend_transform-Every path (some t) fs h = (p_xform path t, h)

  transforms-Every : (specs : List (PrimSpec T S)) → Every P (transforms seq specs)
  unfolding transforms
  transforms-Every [] = tt
  transforms-Every (spec ∷ specs) =
      prepend_transform-Every spec.path spec.authored (transforms seq specs)
        (transforms-Every specs)

  deletions-Every : (specs : List (PrimSpec T S)) → Every P (deletions seq specs)
  unfolding deletions
  deletions-Every [] = tt
  deletions-Every (spec ∷ specs) =
      let ih = deletions-Every specs in either_way (Every P) spec.is_deleted _ _ (p_delete _, ih) ih

  pub layer_frames-Every : (specs : List (PrimSpec T S)) → Every P (layer_frames seq specs)
  unfolding layer_frames
  layer_frames-Every specs =
      let created = sort_by_depth (creations seq specs) in
      Every-append (map (λ f. f.1) created) (transforms seq specs ++ deletions seq specs)
        (Placed-Every created (sort_by_depth-Placed (creations seq specs) (creations-Placed specs)))
        (Every-append (transforms seq specs) (deletions seq specs) (transforms-Every specs)
          (deletions-Every specs))

module _ {ops : StageOps} where
  pub send_all-snoc :
      (c : ℕ) (fs : List (Frame ops.Transform ops.Shape)) (f : Frame ops.Transform ops.Shape)
      (t : Session ops)
      → send_all c (fs ++ f ∷ []) t ≡ send (send_all c fs t) c f
  unfolding send_all
  send_all-snoc c [] f t = refl
  send_all-snoc c (g ∷ fs) f t = send_all-snoc c fs f (send t c g)

  pub Ext-send_snapshot :
      (s t : Session ops) (c : ℕ) (o : Option ops.Stage) → Ext s t → Ext s (send_snapshot t c o)
  unfolding send_snapshot
  Ext-send_snapshot s t c none x = x
  Ext-send_snapshot s t c (some stage) (es, m) =
      let seq = seq_of t in
      let fs = layer_frames seq (layer_specs ops (ops.session_layer stage)) in
      either_way (Ext s) (is_client c t.clients) _ t
        (
          sent c seq ∷ es,
          subst (λ u. Moves s (sent c seq ∷ es) (note_sent u c seq))
              (sym (send_all-snoc c fs (snapshot_complete seq) t))
              (deliver_all m c fs (snapshot_complete seq)
                (layer_frames-Every seq (λ f. frame_seq f ≡ seq) (λ a b d. refl) (λ a b. refl)
                  (λ a. refl) (layer_specs ops (ops.session_layer stage)))
                refl),
        )
        (es, m)
