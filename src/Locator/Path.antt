-- ===== src/Locator/Path.antt =====
-- `ValidatePath` and `Resolve` of source/utils/UsdFileLocator.h. The file system and
-- `std::filesystem::path` are parameters.
use idtx_core.Base.{
  ℕ, ◌≡◌, ◌≢◌, Bool, true, false, not, ◌&&◌, ◌||◌, Option, none, some, List, [], ◌∷◌, ◌++◌, Str,
  Str-discrete, ite, codes, all, ◌==◌, if◌then◌else◌,
}
use idtx_core.Bytes.{has_dots, is_empty, ends_with, is_alnum}
use idtx_core.Locator.Decode.{percent_decode}

-- `Status` without `Ok`, which is the constructor `ok` of `Outcome`.
pub data Status : Type 0 where
  invalid_encoding invalid_path not_found not_a_usd_file outside_root permission_denied : Status

pub data Outcome (A : Type 0) : Type 0 where
  ok : A → Outcome A
  refused : Status → Outcome A

pub record FileSystem : Type 1 where
  pub FilePath : Type 0
  pub of_bytes : Str → FilePath
  pub join : FilePath → FilePath → FilePath
  pub parts : FilePath → List Str
  pub filename : FilePath → Str
  pub lexically_normal : FilePath → FilePath
  pub canonical : FilePath → Option FilePath
  pub exists : FilePath → Bool

-- `[ a-zA-Z0-9._/-]`
abbrev pub is_path_char : ℕ → Bool
is_path_char c = c == b' ' || is_alnum c || c == b'.' || c == b'_' || c == b'/' || c == b'-'

-- `std::regex_match` with `^[...]+$`
abbrev pub matches : (ℕ → Bool) → Str → Bool
matches p s = not (is_empty s) && all p s

-- What becomes of the decoded path; `none` where the decoding failed.
unfoldable pub check_decoded : Option Str → Outcome Str
check_decoded none = refused invalid_encoding
check_decoded (some decoded) =
    if has_dots decoded
    then refused invalid_path
    else if matches is_path_char decoded
    then ok decoded
    else refused invalid_path

unfoldable pub validate_path : Str → Outcome Str
validate_path filepath = check_decoded (percent_decode false false filepath)

unfoldable pub is_usd_filename : Str → Bool
is_usd_filename name =
    ends_with (codes ".usd") name
    || ends_with (codes ".usda") name
    || ends_with (codes ".usdc") name
    || ends_with (codes ".usdz") name

-- `std::mismatch` reaches the end of the first list.
unfoldable pub is_prefix : List Str → List Str → Bool
is_prefix [] ys = true
is_prefix (x ∷ xs) [] = false
is_prefix (x ∷ xs) (y ∷ ys) = ite (Str-discrete x y) (is_prefix xs ys) false

module _ (fs : FileSystem) (root : fs.FilePath) where
  -- The checks on the canonical root, the canonical file and the file itself.
  unfoldable pub check_candidate :
      fs.FilePath → Option fs.FilePath → Option fs.FilePath → Outcome fs.FilePath
  check_candidate candidate none _ = refused not_found
  check_candidate candidate (some canonical_root) none = refused not_found
  check_candidate candidate (some canonical_root) (some canonical_file) =
      if not (is_prefix (fs.parts canonical_root) (fs.parts canonical_file))
      then refused outside_root
      else if not (fs.exists candidate)
      then refused not_found
      else if not (is_usd_filename (fs.filename candidate))
      then refused not_a_usd_file
      else ok candidate

  -- From the answer of `validate_path` on.
  unfoldable pub resolve_decoded : Outcome Str → Outcome fs.FilePath
  resolve_decoded (refused s) = refused s
  resolve_decoded (ok decoded) =
      let candidate = fs.join root (fs.of_bytes decoded) in
      check_candidate candidate (fs.canonical root) (fs.canonical candidate)

  unfoldable pub resolve : Str → Outcome fs.FilePath
  resolve filepath = resolve_decoded (validate_path filepath)

-- What an accepted path consists of.
pub record IsSafePath (s : Str) : Type 0 where
  pub nonempty : s ≢ []
  pub allowed : all is_path_char s ≡ true
  pub no_dots : has_dots s ≡ false

-- A file that exists, has a USD extension, and whose canonical form lies below the root's.
pub record IsServed (fs : FileSystem) (root file : fs.FilePath) : Type 0 where
  pub exists : fs.exists file ≡ true
  pub usd : is_usd_filename (fs.filename file) ≡ true
  pub canonical_root : fs.FilePath
  pub canonical_file : fs.FilePath
  pub rest : List Str
  pub root_at : fs.canonical root ≡ some canonical_root
  pub file_at : fs.canonical file ≡ some canonical_file
  pub below : fs.parts canonical_file ≡ fs.parts canonical_root ++ rest
