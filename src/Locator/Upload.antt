-- ===== src/Locator/Upload.antt =====
-- `ValidateUploadTarget` of source/utils/UsdFileLocator.h.
use idtx_core.Base.{
  ℕ, ◌≡◌, ◌≢◌, Bool, true, false, not, ◌&&◌, ◌||◌, Option, none, some, List, [], ◌∷◌, ◌++◌, Str,
  Str-discrete, ite, codes, all, ◌==◌, if◌then◌else◌,
}
use idtx_core.Bytes.{has, has_dots, is_empty, drop_while, drop_while_end, is_alnum}
use idtx_core.Locator.Decode.{percent_decode}
use idtx_core.Locator.Path.{
  invalid_encoding, invalid_path, not_a_usd_file, outside_root, Outcome, ok, refused, FileSystem,
  is_path_char, matches, is_usd_filename, is_prefix,
}

-- `[ a-zA-Z0-9._-]`
abbrev pub is_name_char : ℕ → Bool
is_name_char c = c == b' ' || is_alnum c || c == b'.' || c == b'_' || c == b'-'

abbrev pub is_separator : ℕ → Bool
is_separator c = c == b'/' || c == b'\\'

-- The checks on the file name; `none` where the decoding failed.
abbrev pub is_bad_name : Str → Str → Bool
is_bad_name raw name =
    is_empty name || has_dots name || has_dots raw || has b'/' name || has b'\\' name

unfoldable pub check_filename : Str → Option Str → Outcome Str
check_filename raw none = refused invalid_encoding
check_filename raw (some name) =
    if is_bad_name raw name
    then refused invalid_path
    else if not (matches is_name_char name)
    then refused invalid_path
    else if not (is_usd_filename name)
    then refused not_a_usd_file
    else ok name

-- Separators are erased at the front, then at the back.
unfoldable pub trim : Str → Str
trim dir = drop_while_end is_separator (drop_while is_separator dir)

-- The checks on the directory without its outer separators.
abbrev pub is_bad_dir : Str → Str → Bool
is_bad_dir raw dir = has_dots dir || has_dots raw || has b'\\' dir

unfoldable pub check_trimmed : Str → Str → Outcome Str
check_trimmed raw dir =
    if is_bad_dir raw dir
    then refused invalid_path
    else if not (is_empty dir) && not (matches is_path_char dir)
    then refused invalid_path
    else ok dir

unfoldable pub check_dir : Str → Option Str → Outcome Str
check_dir raw none = refused invalid_encoding
check_dir raw (some decoded) = check_trimmed raw (trim decoded)

abbrev pub has_parent : List Str → Bool
has_parent [] = false
has_parent (p ∷ ps) = ite (Str-discrete p (codes "..")) true (has_parent ps)

module _ (fs : FileSystem) where
  unfoldable pub relative_of : Str → Str → fs.FilePath
  relative_of dir name =
      if is_empty dir then fs.of_bytes name else fs.join (fs.of_bytes dir) (fs.of_bytes name)

  module _ (root : fs.FilePath) where
    -- The full path and the path relative to the root.
    unfoldable pub anchor : fs.FilePath → Outcome (fs.FilePath × fs.FilePath)
    anchor relative =
        let candidate = fs.lexically_normal (fs.join root relative) in
        if not (is_prefix (fs.parts (fs.lexically_normal root)) (fs.parts candidate))
        then refused outside_root
        else if has_parent (fs.parts relative)
        then refused outside_root
        else ok (candidate, relative)

    unfoldable pub compose : Outcome Str → Outcome Str → Outcome (fs.FilePath × fs.FilePath)
    compose (refused s) dir = refused s
    compose (ok name) (refused s) = refused s
    compose (ok name) (ok dir) = anchor (relative_of dir name)

    unfoldable pub validate_upload_target : Str → Str → Outcome (fs.FilePath × fs.FilePath)
    validate_upload_target raw_dir raw_name =
        compose (check_filename raw_name (percent_decode false true raw_name))
          (check_dir raw_dir (percent_decode false false raw_dir))

-- What an accepted file name consists of.
pub record IsBareName (name : Str) : Type 0 where
  pub nonempty : name ≢ []
  pub allowed : all is_name_char name ≡ true
  pub no_dots : has_dots name ≡ false
  pub no_slash : has b'/' name ≡ false
  pub usd : is_usd_filename name ≡ true

-- What an accepted directory consists of, which may be empty.
pub record IsSafeDir (dir : Str) : Type 0 where
  pub allowed : all is_path_char dir ≡ true
  pub no_dots : has_dots dir ≡ false

-- The relative path stays inside the root when it is joined to it and normalised.
pub record IsAnchored (fs : FileSystem) (root full relative : fs.FilePath) : Type 0 where
  pub joined : full ≡ fs.lexically_normal (fs.join root relative)
  pub rest : List Str
  pub below : fs.parts full ≡ fs.parts (fs.lexically_normal root) ++ rest
  pub no_parent : has_parent (fs.parts relative) ≡ false
