-- ===== src/Prims.antt =====
-- source/session/PrimDispatcher.cpp: creating a prim, and taking one away or back. What it asks of
-- the USD library is the parameter `Usd`, of which nothing is assumed.
pub mod Names
pub mod Nesting
pub mod Answers
pub mod Changes
pub mod Creation
mod Tests
use Prim.Native.Nat.{zero, suc}
use idtx_core.Base.{
  ℕ, ◌+◌, ◌/◌, ◌%◌, ◌≡◌, Bool, true, false, not, ◌&&◌, ◌||◌, Option, none, some, List, [], ◌∷◌,
  ◌++◌, Str, Str-discrete, codes, ltb, ite, if◌then◌else◌,
}
use idtx_core.Session.Stage.{
  PrimType, unspecified, cube, sphere, cone, cylinder, capsule, xform, CreatedPrim, SetActiveStatus,
  ok, invalid_path, not_found, not_deletable, already_in_state, failed,
}

pub record Usd : Type 1 where
  pub Stage : Type 0
  pub Sdf : Type 0  -- SdfPath
  pub Prim : Type 0
  pub Layer : Type 0
  pub Shape : Type 0
  pub schema_name : PrimType → Str  -- GetSchemaTypeName of a known type
  pub is_gprim_schema : PrimType → Bool  -- IsA(UsdGeomGprim) of a known type
  pub is_valid_path : Str → Bool
  pub parse : Str → Sdf
  pub text : Sdf → Str
  pub is_absolute : Sdf → Bool
  pub is_prim_path : Sdf → Bool
  pub is_root : Sdf → Bool
  pub append_child : Sdf → Str → Sdf
  pub make_valid_identifier : Str → Str
  pub prim_at : Stage → Sdf → Option Prim  -- GetPrimAtPath
  pub is_active : Prim → Bool
  pub is_defined : Prim → Bool
  pub is_pseudo_root : Prim → Bool
  pub is_gprim : Prim → Bool
  pub parent_of : Prim → Option Prim
  pub define_prim : Stage → Sdf → Str → Stage × Bool
  pub read_attributes : Stage → Sdf → PrimType → Shape
  pub prim_stack : Prim → List (Option Layer)  -- the layer of each valid spec
  pub is_local : Stage → Layer → Bool  -- the root layer or the session layer
  pub author_active : Stage → Prim → Bool → Stage × Bool  -- UsdPrim::SetActive

abbrev pub is_empty : Str → Bool
is_empty [] = true
is_empty (c ∷ cs) = false

-- The types that `UsdSchemaType` knows.
abbrev pub is_known : PrimType → Bool
is_known unspecified = false
is_known _ = true

unfoldable pub type_from_name : Str → PrimType
type_from_name name = ite (Str-discrete name (codes "Cube")) cube (
    ite (Str-discrete name (codes "Sphere")) sphere (
      ite (Str-discrete name (codes "Cone")) cone (
        ite (Str-discrete name (codes "Cylinder")) cylinder (
          ite (Str-discrete name (codes "Capsule")) capsule
            (ite (Str-discrete name (codes "Xform")) xform unspecified)))))

-- `std::to_string`; twenty digits are enough for 64 bits.
unfoldable pub digits : (fuel : ℕ) → ℕ → Str
digits zero n = []
digits (suc fuel) n =
    let rest = digits fuel (n / 10) in
    if ltb n 10 then (48 + n) ∷ [] else rest ++ (48 + n % 10) ∷ []

abbrev pub to_string : ℕ → Str
to_string n = digits 20 n

module _ (usd : Usd) where
  abbrev pub base_name_for : PrimType → Str
  base_name_for type = if is_known type then usd.schema_name type else []

  abbrev pub is_gprim_type : PrimType → Bool
  is_gprim_type type = is_known type && usd.is_gprim_schema type

  -- The fuel is the number of prims on the way to the pseudo-root. Where it is too small, nothing
  -- is allowed: the answer is that of a prim below a gprim.
  unfoldable pub has_gprim_ancestor : (fuel : ℕ) → Option usd.Prim → Bool
  has_gprim_ancestor fuel none = false
  has_gprim_ancestor zero (some prim) = true
  has_gprim_ancestor (suc fuel) (some prim) =
      let rest = has_gprim_ancestor fuel (usd.parent_of prim) in
      if usd.is_pseudo_root prim then false else usd.is_gprim prim || rest

  -- The candidates, in their order.
  unfoldable pub candidate : Str → ℕ → Str
  candidate base zero = base
  candidate base (suc n) = base ++ codes "_" ++ to_string (suc n)

  abbrev pub is_free : usd.Stage → usd.Sdf → Bool
  is_free stage path = elim (usd.prim_at stage path) [ none ↦ true | some prim ↦ false ]

  -- The loop of `UniqueChildPath` from a candidate on.
  unfoldable pub search_name : (fuel : ℕ) → usd.Stage → usd.Sdf → Str → ℕ → Option Str
  search_name zero stage parent base n = none
  search_name (suc fuel) stage parent base n =
      let rest = search_name fuel stage parent base (n + 1) in
      if is_free stage (usd.append_child parent (candidate base n))
      then some (candidate base n)
      else rest

  -- From the parent's prim on; `depth` bounds its ancestors, `tries` the names.
  unfoldable pub create_named :
      usd.Stage → usd.Sdf → PrimType → Option Str → usd.Stage × Option (CreatedPrim usd.Shape)
  create_named stage parent type none = (stage, none)
  create_named stage parent type (some name) =
      let child = usd.append_child parent name in
      let (stage', made) = usd.define_prim stage child (base_name_for type) in
      if made
      then (
        stage',
        some (record {
          name = name;
          prim_path = usd.text child;
          shape = usd.read_attributes stage' child type;
        }),
      )
      else (stage', none)

  unfoldable pub create_under :
      (depth tries : ℕ)
      → usd.Stage
      → usd.Sdf
      → PrimType
      → Option usd.Prim
      → usd.Stage × Option (CreatedPrim usd.Shape)
  create_under depth tries stage parent type none = (stage, none)
  create_under depth tries stage parent type (some prim) =
      if not (usd.is_active prim)
      then (stage, none)
      else if is_gprim_type type && has_gprim_ancestor depth (some prim)
      then (stage, none)
      else create_named stage parent type
          (search_name tries stage parent (usd.make_valid_identifier (base_name_for type)) 0)

  abbrev pub may_be_parent : usd.Sdf → Bool
  may_be_parent path = usd.is_absolute path && (usd.is_prim_path path || usd.is_root path)

  unfoldable pub create :
      (depth tries : ℕ) → usd.Stage → Str → PrimType → usd.Stage × Option (CreatedPrim usd.Shape)
  create depth tries stage parent_path type =
      let parent = usd.parse parent_path in
      if is_empty (base_name_for type)
      then (stage, none)
      else if is_empty parent_path || not (usd.is_valid_path parent_path)
      then (stage, none)
      else if not (may_be_parent parent)
      then (stage, none)
      else create_under depth tries stage parent type (usd.prim_at stage parent)

  abbrev pub all_local : usd.Stage → List (Option usd.Layer) → Bool
  all_local stage [] = true
  all_local stage (none ∷ specs) = all_local stage specs
  all_local stage (some layer ∷ specs) = usd.is_local stage layer && all_local stage specs

  unfoldable pub is_locally_deletable : usd.Stage → List (Option usd.Layer) → Bool
  is_locally_deletable stage [] = false
  is_locally_deletable stage (spec ∷ specs) = all_local stage (spec ∷ specs)

  -- From the prim on.
  unfoldable pub set_active_of : usd.Stage → Bool → Option usd.Prim → usd.Stage × SetActiveStatus
  set_active_of stage active none = (stage, not_found)
  set_active_of stage active (some prim) =
      if not (usd.is_defined prim)
      then (stage, not_found)
      else if usd.is_pseudo_root prim
      then (stage, not_deletable)
      else if (if active then usd.is_active prim else not (usd.is_active prim))
      then (stage, already_in_state)
      else if not active && not (is_locally_deletable stage (usd.prim_stack prim))
      then (stage, not_deletable)
      else let (stage', authored) = usd.author_active stage prim active in
        (stage', if authored then ok else failed)

  unfoldable pub set_active : usd.Stage → Str → Bool → usd.Stage × SetActiveStatus
  set_active stage prim_path active =
      let path = usd.parse prim_path in
      if is_empty prim_path || not (usd.is_valid_path prim_path)
      then (stage, invalid_path)
      else if not (usd.is_absolute path && usd.is_prim_path path)
      then (stage, invalid_path)
      else set_active_of stage active (usd.prim_at stage path)
