-- ===== src/Session/Stage.antt =====
-- The stage behind a session, as SessionManager.cpp and StageNoticeListener.cpp of source/session
-- use it. The USD library and what TransformDispatcher, PrimDispatcher and StageCommitter do with
-- it are the parameter `StageOps`, of which nothing is assumed.
use idtx_core.Base.{ℕ, Bool, Option, List, Str}

-- What the listener reads of an `SdfPath`.
pub data SdfPath : Type 0 where
  prim_path : Str → SdfPath
  property_path : (prim name : Str) → SdfPath
  other_path : SdfPath

-- `UsdNotice::ObjectsChanged`
pub record Notice : Type 0 where
  pub resynced : List SdfPath
  pub changed_info_only : List SdfPath

pub data PrimType : Type 0 where
  unspecified cube sphere cone cylinder capsule xform : PrimType

-- The shape attributes are the type `Shape`.
pub record CreatedPrim (Shape : Type 0) : Type 0 where
  pub name : Str
  pub prim_path : Str
  pub shape : Shape

-- `PrimDispatcher::SetActiveStatus`
pub data SetActiveStatus : Type 0 where
  ok invalid_path not_found not_deletable already_in_state failed : SetActiveStatus

-- What a call that authors on the stage leaves behind: the notices that it fired, each with the
-- stage as it was at that moment, the stage in the end, and the call's result.
pub record Authored (Stage Result : Type 0) : Type 0 where
  pub moments : List (Stage × Notice)
  pub stage : Stage
  pub result : Result

-- What the join snapshot reads of a prim's spec in the session layer.
pub record PrimSpec (Transform Shape : Type 0) : Type 0 where
  pub path : Str
  pub parent : Str
  pub depth : ℕ  -- GetPathElementCount
  pub name : Str
  pub is_deleted : Bool  -- HasActive() && !GetActive()
  pub is_def : Bool
  pub type : PrimType  -- TypeFromName(GetTypeName())
  pub defaults : Shape  -- ReadSchemaDefaults
  pub authored : Option Transform  -- ReadAuthoredLocalTransform

-- A call that throws has the result that its handler's catch block sets.
pub record StageOps : Type 1 where
  pub Stage : Type 0
  pub Update : Type 0  -- TransformUpdate
  pub Transform : Type 0  -- the transform of an update message
  pub Shape : Type 0
  pub Layer : Type 0
  pub update_path : Update → Str
  pub apply : Stage → Update → Authored Stage Bool
  pub create : Stage → Str → PrimType → Authored Stage (Option (CreatedPrim Shape))
  pub set_active : Stage → Str → Bool → Authored Stage SetActiveStatus
  pub reload_root : Stage → Option (Authored Stage Bool)  -- none: no root layer
  pub commit : Stage → Stage × Option Str  -- StageCommitter::Commit; an error's text
  pub is_valid_path : Str → Bool
  pub is_inactive : Stage → Str → Bool  -- a prim is there, and it is not active
  pub read_transform : Stage → Str → Option Transform
  pub session_layer : Stage → Option Layer
  pub is_empty : Layer → Bool
  pub save : Layer → Bool
  pub spec_attributes : Layer → Str → List Str  -- no spec has no attributes
  pub specs : Layer → List (PrimSpec Transform Shape)  -- in the order of the paths
