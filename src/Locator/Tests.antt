-- ===== src/Locator/Tests.antt =====
-- Runs of source/utils/UsdFileLocator.h on a file system with one model, and the theorems at
-- concrete paths.
use idtx_core.Base.{
  ◌≡◌, refl, true, false, some, List, [], ◌∷◌, ◌++◌, Str, Str-discrete, codes, ◌==◌, if◌then◌else◌,
  ℕ_discrete,
}
use idtx_core.Bytes.{drop_while, drop_while_end, ends_with}
use idtx_core.Locator.Decode.{hex, escaped, percent_decode}
use idtx_core.Locator.Path.{
  invalid_encoding, invalid_path, ok, refused, FileSystem, check_decoded, validate_path,
  is_usd_filename, is_prefix, check_candidate, resolve_decoded, resolve, IsSafePath, IsServed,
}
use idtx_core.Locator.Served.{resolve_below_root}
use idtx_core.Locator.Upload.{
  check_filename, trim, check_trimmed, check_dir, relative_of, anchor, compose,
  validate_upload_target, IsBareName, IsSafeDir, IsAnchored,
}
use idtx_core.Locator.Accepted.{upload_stays_below_root}
use idtx_core.Locator.Roundtrip.{relative_bytes, upload_can_be_requested}

-- The parts of a text between slashes.
abbrev cut : Str → List Str
cut [] = [] ∷ []
cut (c ∷ s) = elim (cut s) [
  | [] ↦ (c ∷ []) ∷ []
  | part ∷ parts ↦ if c == b'/' then [] ∷ part ∷ parts else (c ∷ part) ∷ parts
]

abbrev last : List Str → Str
last [] = []
last (p ∷ ps) = elim ps [ [] ↦ p | q ∷ qs ↦ last ps ]

abbrev disk : FileSystem
disk = record {
  FilePath = List Str;
  of_bytes = cut;
  join = λ p q. p ++ q;
  parts = λ p. p;
  filename = last;
  lexically_normal = λ p. p;
  canonical = λ p. some (codes "srv" ∷ p);
  exists = λ p. true;
}

abbrev uploads : List Str
uploads = codes "uploads" ∷ []

abbrev hall : List Str
hall = codes "uploads" ∷ codes "a" ∷ codes "hall 1.usd" ∷ []

resolve_test : resolve disk uploads (codes "a/hall%201.usd") ≡ ok hall
unfolding percent_decode hex escaped check_decoded validate_path is_usd_filename is_prefix
    check_candidate resolve_decoded resolve ends_with Str-discrete ℕ_discrete
resolve_test = refl

traversal_test : resolve disk uploads (codes "%2e./x.usd") ≡ refused invalid_path
unfolding percent_decode hex escaped check_decoded validate_path resolve_decoded resolve
traversal_test = refl

upload_test :
    validate_upload_target disk uploads (codes "/a/") (codes "hall%201.usd")
    ≡ ok (hall, codes "a" ∷ codes "hall 1.usd" ∷ [])
unfolding percent_decode hex escaped is_usd_filename is_prefix check_filename trim check_trimmed
    check_dir relative_of anchor compose validate_upload_target drop_while drop_while_end ends_with
    Str-discrete ℕ_discrete
upload_test = refl

encoded_slash_test :
    validate_upload_target disk uploads [] (codes "a%2Fb.usd") ≡ refused invalid_encoding
unfolding percent_decode hex escaped check_filename compose validate_upload_target
encoded_slash_test = refl

validate_test : validate_path (codes "a%2Fb c") ≡ ok (codes "a/b c")
unfolding percent_decode hex escaped check_decoded validate_path
validate_test = refl

raw_slash_test : percent_decode false true (codes "a/b%2E") ≡ some (codes "a/b.")
unfolding percent_decode hex escaped
raw_slash_test = refl

resolve_below_root_example :
    (decoded : Str) × (percent_decode false false (codes "a/hall%201.usd") ≡ some decoded)
    × IsSafePath decoded
    × (disk.join uploads (disk.of_bytes decoded) ≡ hall)
    × IsServed disk uploads hall
resolve_below_root_example =
    resolve_below_root disk uploads (codes "a/hall%201.usd") hall resolve_test

upload_stays_below_root_example :
    (name decoded : Str) × (percent_decode false true (codes "hall%201.usd") ≡ some name)
    × IsBareName name
    × (percent_decode false false (codes "/a/") ≡ some decoded)
    × IsSafeDir (trim decoded)
    × (relative_of disk (trim decoded) name ≡ codes "a" ∷ codes "hall 1.usd" ∷ [])
    × IsAnchored disk uploads hall (codes "a" ∷ codes "hall 1.usd" ∷ [])
upload_stays_below_root_example =
    upload_stays_below_root disk uploads (codes "/a/") (codes "hall%201.usd") hall
      (codes "a" ∷ codes "hall 1.usd" ∷ []) upload_test

upload_can_be_requested_example :
    (name decoded : Str) × (percent_decode false true (codes "hall%201.usd") ≡ some name)
    × (percent_decode false false (codes "/a/") ≡ some decoded)
    × (relative_of disk (trim decoded) name ≡ codes "a" ∷ codes "hall 1.usd" ∷ [])
    × (validate_path (relative_bytes (trim decoded) name) ≡ ok (relative_bytes (trim decoded) name))
upload_can_be_requested_example =
    upload_can_be_requested disk uploads hall (codes "a" ∷ codes "hall 1.usd" ∷ []) (codes "/a/")
      (codes "hall%201.usd") upload_test
