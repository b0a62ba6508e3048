-- ===== src/Session/Sample.antt =====
-- A small stage, at which runs of source/session/SessionManager.cpp are tried.
use idtx_core.Base.{
  ℕ, true, false, Option, none, some, List, [], ◌∷◌, Str, Str-discrete, codes, ite,
}
use idtx_core.Session.Stage.{StageOps, Notice, prim_path, property_path, CreatedPrim, ok}

abbrev pub box : Str
box = codes "/Box"

-- A stage is the list of the positions that were set, the latest first.
abbrev pub Positions : Type 0
Positions = List (Str × ℕ)

abbrev pub position : Positions → Str → Option ℕ
position [] path = none
position ((p, x) ∷ ps) path = ite (Str-discrete p path) (some x) (position ps path)

abbrev pub moved : Str → Notice
moved path = record {
  resynced = [];
  changed_info_only = property_path path (codes "xformOp:translate") ∷ [];
}

abbrev pub resynced_prim : Str → Notice
resynced_prim path = record { resynced = prim_path path ∷ []; changed_info_only = [] }

abbrev pub new_cube : CreatedPrim ℕ
new_cube = record { name = codes "Cube"; prim_path = codes "/Cube"; shape = 1 }

abbrev pub small : StageOps
small = record {
  Stage = Positions;
  Update = Str × ℕ;
  Transform = ℕ;
  Shape = ℕ;
  Layer = Positions;
  update_path = λ u. u.0;
  apply =
      λ stage u. record { moments = (u ∷ stage, moved u.0) ∷ []; stage = u ∷ stage; result = true };
  create = λ stage parent type. record {
    moments = (stage, resynced_prim (codes "/Cube")) ∷ [];
    stage = (codes "/Cube", 0) ∷ stage;
    result = some new_cube;
  };
  set_active = λ stage path active. record {
    moments = (stage, resynced_prim path) ∷ [];
    stage = stage;
    result = ok;
  };
  reload_root = λ stage. some (record { moments = []; stage = stage; result = true });
  commit = λ stage. (stage, none);
  is_valid_path = λ path. true;
  is_inactive = λ stage path. false;
  read_transform = position;
  session_layer = λ stage. some stage;
  is_empty = λ layer. false;
  save = λ layer. true;
  spec_attributes = λ layer path. [];
  specs = λ layer. [];
}
