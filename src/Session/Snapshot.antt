-- ===== src/Session/Snapshot.antt =====
-- The join snapshot of source/session/SessionManager.cpp (`HandleCommand` of a `JoinCommand`).
use idtx_core.Base.{
  ℕ, Bool, true, false, Option, none, some, List, [], ◌∷◌, ◌++◌, Str, leb, if◌then◌else◌, map,
}
use idtx_core.Session.Stage.{StageOps, PrimSpec, PrimType, unspecified}
use idtx_core.Session.{
  Session, Frame, xform_broadcast, create_prim_broadcast, set_prim_active_broadcast,
  snapshot_complete, seq_of,
}
use idtx_core.Session.Send.{is_client, send, note_sent}

abbrev pub is_built_in : PrimType → Bool
is_built_in unspecified = false
is_built_in _ = true

module _ {T S : Type 0} where
  -- The frame that re-creates a prim, with the depth that it is sorted by.
  unfoldable pub creation : ℕ → PrimSpec T S → ℕ × Frame T S
  creation seq spec = (
    spec.depth,
    create_prim_broadcast spec.parent spec.type
        (record { name = spec.name; prim_path = spec.path; shape = spec.defaults }) seq,
  )

  -- The definitions of a built-in type.
  unfoldable pub creations : ℕ → List (PrimSpec T S) → List (ℕ × Frame T S)
  creations seq [] = []
  creations seq (spec ∷ specs) =
      let rest = creations seq specs in
      if spec.is_def
      then (if is_built_in spec.type then creation seq spec ∷ rest else rest)
      else rest

  -- `std::stable_sort` by depth
  unfoldable pub insert_by_depth : ℕ × Frame T S → List (ℕ × Frame T S) → List (ℕ × Frame T S)
  insert_by_depth f [] = f ∷ []
  insert_by_depth f (g ∷ fs) =
      let rest = insert_by_depth f fs in if leb f.0 g.0 then f ∷ g ∷ fs else g ∷ rest

  unfoldable pub sort_by_depth : List (ℕ × Frame T S) → List (ℕ × Frame T S)
  sort_by_depth [] = []
  sort_by_depth (f ∷ fs) = insert_by_depth f (sort_by_depth fs)

  unfoldable pub prepend_transform : ℕ → Str → Option T → List (Frame T S) → List (Frame T S)
  prepend_transform seq path none fs = fs
  prepend_transform seq path (some t) fs = xform_broadcast path t seq ∷ fs

  -- The authored transforms.
  unfoldable pub transforms : ℕ → List (PrimSpec T S) → List (Frame T S)
  transforms seq [] = []
  transforms seq (spec ∷ specs) =
      prepend_transform seq spec.path spec.authored (transforms seq specs)

  -- The soft-deleted prims.
  unfoldable pub deletions : ℕ → List (PrimSpec T S) → List (Frame T S)
  deletions seq [] = []
  deletions seq (spec ∷ specs) =
      let rest = deletions seq specs in
      if spec.is_deleted then set_prim_active_broadcast spec.path false seq ∷ rest else rest

  unfoldable pub layer_frames : ℕ → List (PrimSpec T S) → List (Frame T S)
  layer_frames seq specs =
      map (λ f. f.1) (sort_by_depth (creations seq specs))
      ++ (transforms seq specs ++ deletions seq specs)

  abbrev pub snapshot : ℕ → List (PrimSpec T S) → List (Frame T S)
  snapshot seq specs = layer_frames seq specs ++ snapshot_complete seq ∷ []

abbrev pub layer_specs :
    (ops : StageOps) → Option ops.Layer → List (PrimSpec ops.Transform ops.Shape)
layer_specs ops none = []
layer_specs ops (some layer) = ops.specs layer

module _ {ops : StageOps} where
  unfoldable pub send_all : ℕ → List (Frame ops.Transform ops.Shape) → Session ops → Session ops
  send_all c [] s = s
  send_all c (f ∷ fs) s = send_all c fs (send s c f)

  unfoldable pub send_snapshot : Session ops → ℕ → Option ops.Stage → Session ops
  send_snapshot s c none = s
  send_snapshot s c (some stage) =
      let seq = seq_of s in
      let frames = snapshot seq (layer_specs ops (ops.session_layer stage)) in
      if is_client c s.clients then note_sent (send_all c frames s) c seq else s
