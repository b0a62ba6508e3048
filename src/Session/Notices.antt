-- ===== src/Session/Notices.antt =====
-- `OnObjectsChanged` of source/session/StageNoticeListener.cpp: which changes of the stage are
-- announced to the clients.
use idtx_core.Base.{
  ℕ, Bool, true, false, ◌&&◌, ◌||◌, Option, none, some, List, [], ◌∷◌, Str, Str-discrete, codes,
  ltb, ◌==◌, ite, if◌then◌else◌,
}
use idtx_core.Versions.{record_change}
use idtx_core.Session.Stage.{StageOps, Notice, SdfPath, prim_path, property_path, other_path}
use idtx_core.Session.{Session, seq_of, bump}
use idtx_core.Session.Send.{broadcast_resolved_transform}

-- `s.rfind(prefix, 0) == 0`
abbrev pub starts_with : Str → Str → Bool
starts_with [] s = true
starts_with (c ∷ p) [] = false
starts_with (c ∷ p) (d ∷ s) = c == d && starts_with p s

abbrev pub is_xform_name : Str → Bool
is_xform_name name =
    ite (Str-discrete name (codes "xformOpOrder")) true (starts_with (codes "xformOp:") name)

unfoldable pub is_xform_attribute : SdfPath → Bool
is_xform_attribute (property_path prim name) = is_xform_name name
is_xform_attribute (prim_path path) = false
is_xform_attribute other_path = false

-- `SessionLayerHasXformOverride`, over the names of the spec's attributes.
unfoldable pub has_xform_override : List Str → Bool
has_xform_override [] = false
has_xform_override (name ∷ names) = is_xform_name name || has_xform_override names

-- `a < b` on `std::string`
abbrev pub str_lt : Str → Str → Bool
str_lt a [] = false
str_lt [] (d ∷ b) = true
str_lt (c ∷ a) (d ∷ b) = ltb c d || (c == d && str_lt a b)

-- `insert` of `std::set<std::string>`
unfoldable pub insert : Str → List Str → List Str
insert x [] = x ∷ []
insert x (y ∷ ys) =
    let rest = insert x ys in
    if str_lt x y then x ∷ y ∷ ys else if str_lt y x then y ∷ rest else y ∷ ys

-- The prims whose paths, or whose properties' paths, a reload notice carries.
unfoldable pub insert_all : List SdfPath → List Str → List Str
insert_all [] acc = acc
insert_all (prim_path p ∷ ps) acc = insert_all ps (insert p acc)
insert_all (property_path p name ∷ ps) acc = insert_all ps (insert p acc)
insert_all (other_path ∷ ps) acc = insert_all ps acc

unfoldable pub reload_prims : Notice → List Str
reload_prims n = insert_all n.changed_info_only (insert_all n.resynced [])

-- The prims with a changed transform attribute.
unfoldable pub insert_xforms : List SdfPath → List Str → List Str
insert_xforms [] acc = acc
insert_xforms (property_path p name ∷ ps) acc =
    insert_xforms ps (if is_xform_attribute (property_path p name) then insert p acc else acc)
insert_xforms (prim_path p ∷ ps) acc = insert_xforms ps acc
insert_xforms (other_path ∷ ps) acc = insert_xforms ps acc

-- A resynced prim counts whichever of its properties changed.
unfoldable pub insert_resynced : List SdfPath → List Str → List Str
insert_resynced [] acc = acc
insert_resynced (prim_path p ∷ ps) acc = insert_resynced ps (insert p acc)
insert_resynced (property_path p name ∷ ps) acc =
    insert_resynced ps (if is_xform_attribute (property_path p name) then insert p acc else acc)
insert_resynced (other_path ∷ ps) acc = insert_resynced ps acc

unfoldable pub affected_prims : Notice → List Str
affected_prims n = insert_resynced n.resynced (insert_xforms n.changed_info_only [])

abbrev pub is_masked : (ops : StageOps) → Option ops.Layer → Str → Bool
is_masked ops none path = false
is_masked ops (some layer) path =
    ops.is_valid_path path && has_xform_override (ops.spec_attributes layer path)

module _ {ops : StageOps} where
  unfoldable pub announce : Session ops → ℕ → ℕ → Str → Session ops
  announce s seq origin path =
      broadcast_resolved_transform
        (record s { versions = record_change s.versions path seq origin }) path origin seq

  unfoldable pub announce_all : List Str → ℕ → ℕ → Session ops → Session ops
  announce_all [] seq origin s = s
  announce_all (p ∷ ps) seq origin s = announce_all ps seq origin (announce s seq origin p)

  -- A prim whose transform the session layer overrides is passed over.
  unfoldable pub announce_unmasked : Option ops.Layer → List Str → ℕ → Session ops → Session ops
  announce_unmasked layer [] seq s = s
  announce_unmasked layer (p ∷ ps) seq s =
      announce_unmasked layer ps seq (if is_masked ops layer p then s else announce s seq 0 p)

  abbrev pub layer_of : Session ops → Option ops.Layer
  layer_of s = elim s.stage [ none ↦ none | some stage ↦ ops.session_layer stage ]

  -- The version that the announcements share, where there are any.
  unfoldable pub with_version :
      List Str → (ℕ → Session ops → Session ops) → Session ops → Session ops
  with_version [] announcements s = s
  with_version (p ∷ ps) announcements s = announcements (seq_of (bump s)) (bump s)

  unfoldable pub on_objects_changed : Session ops → Notice → Session ops
  on_objects_changed s n =
      if s.create_in_progress || s.set_active_in_progress
      then s
      else if s.reload_in_progress
      then with_version (reload_prims n) (announce_unmasked (layer_of s) (reload_prims n)) s
      else with_version (affected_prims n)
          (λ seq. announce_all (affected_prims n) seq s.current_origin) s

  -- The notices of an authoring call come while it runs.
  unfoldable pub run_moments : List (ops.Stage × Notice) → Session ops → Session ops
  run_moments [] s = s
  run_moments ((stage, n) ∷ ms) s =
      run_moments ms (on_objects_changed (record s { stage = some stage }) n)
