-- ===== src/Prims/Tests.antt =====
-- Runs of source/session/PrimDispatcher.cpp over a small stage, and the theorems at it.
use idtx_core.Base.{
  ℕ, ◌≡◌, ◌↔◌, refl, Bool, true, false, Option, none, some, List, [], ◌∷◌, ◌++◌, Str, Str-discrete,
  ℕ_discrete, codes, ite, if◌then◌else◌,
}
use idtx_core.Session.Stage.{PrimType, cube, xform, cone, unspecified, ok}
use idtx_core.Prims.{
  Usd, base_name_for, has_gprim_ancestor, candidate, search_name, create_named, create_under,
  may_be_parent, create, is_empty, set_active, digits, type_from_name,
}
use idtx_core.Prims.Answers.{IsCreated, create-IsCreated}
use idtx_core.Prims.Changes.{IsChanged, set_active-IsChanged}
use idtx_core.Prims.Creation.{made}

-- A prim has its path, whether it is active and geometric, and its parent.
data Node : Type 0 where
  root : Node
  node : Str → (active gprim : Bool) → (parent : Node) → Node

abbrev path_of : Node → Str
path_of root = codes "/"
path_of (node path active gprim parent) = path

-- A stage lists the prims below the pseudo-root.
abbrev find : List Node → Str → Option Node
find [] path = none
find (n ∷ ns) path = ite (Str-discrete (path_of n) path) (some n) (find ns path)

abbrev at : List Node → Str → Option Node
at stage path = ite (Str-discrete path (codes "/")) (some root) (find stage path)

abbrev is_root_node : Node → Bool
is_root_node root = true
is_root_node (node path active gprim parent) = false

abbrev is_gprim_node : Node → Bool
is_gprim_node root = false
is_gprim_node (node path active gprim parent) = gprim

abbrev is_active_node : Node → Bool
is_active_node root = true
is_active_node (node path active gprim parent) = active

abbrev parent_node : Node → Option Node
parent_node root = none
parent_node (node path active gprim parent) = some parent

abbrev is_cube : PrimType → Bool
is_cube cube = true
is_cube _ = false

abbrev tiny : Usd
tiny = record {
  Stage = List Node;
  Sdf = Str;
  Prim = Node;
  Layer = Bool;
  Shape = ℕ;
  schema_name = λ type. if is_cube type then codes "Cube" else codes "Xform";
  is_gprim_schema = is_cube;
  is_valid_path = λ path. true;
  parse = λ path. path;
  text = λ path. path;
  is_absolute = λ path. true;
  is_prim_path = λ path. true;
  is_root = λ path. false;
  append_child = λ parent name. parent ++ codes "/" ++ name;
  make_valid_identifier = λ name. name;
  prim_at = at;
  is_active = is_active_node;
  is_defined = λ prim. true;
  is_pseudo_root = is_root_node;
  is_gprim = is_gprim_node;
  parent_of = parent_node;
  define_prim = λ stage child name. (node child true false root ∷ stage, true);
  read_attributes = λ stage child type. 1;
  prim_stack = λ prim. some true ∷ [];
  is_local = λ stage layer. layer;
  author_active =
      λ stage prim active. (node (path_of prim) active (is_gprim_node prim) root ∷ stage, true);
}

-- A hall with a cube in it.
abbrev hall : Node
hall = node (codes "/Hall") true false root

abbrev hall_cube : Node
hall_cube = node (codes "/Hall/Cube") true true hall

abbrev one_cube : List Node
one_cube = hall ∷ hall_cube ∷ []

-- A second cube gets the next name.
second_cube :
    (create tiny 2 3 one_cube (codes "/Hall") cube).1
    ≡ some (made tiny one_cube (codes "/Hall") cube (codes "Cube_1"))
unfolding create create_under create_named has_gprim_ancestor search_name candidate digits
    Str-discrete ℕ_discrete
second_cube = refl

-- No cube is put into a cube; a transform may be.
cube_in_cube :
    ((create tiny 3 3 one_cube (codes "/Hall/Cube") cube).1 ≡ none)
    × ((create tiny 3 3 one_cube (codes "/Hall/Cube") xform).1
        ≡ some (made tiny one_cube (codes "/Hall/Cube") xform (codes "Xform")))
unfolding create create_under create_named has_gprim_ancestor search_name candidate digits
    Str-discrete ℕ_discrete
cube_in_cube = (refl, refl)

names_test : (type_from_name (codes "Cone") ≡ cone) × (type_from_name (codes "Mesh") ≡ unspecified)
unfolding type_from_name Str-discrete ℕ_discrete
names_test = (refl, refl)

create-IsCreated_example :
    (is_empty (base_name_for tiny cube) ≡ false)
    × (true ≡ true)
    × (may_be_parent tiny (codes "/Hall") ≡ true)
    × IsCreated tiny one_cube
        (codes "/Hall")
        cube
        (made tiny one_cube (codes "/Hall") cube (codes "Cube_1"))
create-IsCreated_example =
    create-IsCreated tiny 2 3 one_cube (codes "/Hall") cube
      (made tiny one_cube (codes "/Hall") cube (codes "Cube_1")) second_cube

set_active-IsChanged_example :
    ((set_active tiny one_cube (codes "/Hall/Cube") false).1 ≡ ok)
    ↔ (is_empty (codes "/Hall/Cube") ≡ false)
      × (true ≡ true)
      × (true ≡ true)
      × IsChanged tiny one_cube (codes "/Hall/Cube") false
set_active-IsChanged_example = set_active-IsChanged tiny one_cube (codes "/Hall/Cube") false
