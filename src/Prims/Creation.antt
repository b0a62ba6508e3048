-- ===== src/Prims/Creation.antt =====
-- `Create` (source/session/PrimDispatcher.cpp) makes the prims that it is to make.
use idtx_core.Base.{Str}
use idtx_core.Session.Stage.{PrimType, CreatedPrim}
use idtx_core.Prims.{Usd, base_name_for}

module _ (usd : Usd) where
  abbrev pub base_of : PrimType → Str
  base_of type = usd.make_valid_identifier (base_name_for usd type)

  -- What `create_named` makes where USD defines the prim.
  abbrev pub made : usd.Stage → usd.Sdf → PrimType → Str → CreatedPrim usd.Shape
  made stage parent type name =
      let child = usd.append_child parent name in
      record {
        name = name;
        prim_path = usd.text child;
        shape =
            usd.read_attributes (usd.define_prim stage child (base_name_for usd type)).0 child type;
      }
