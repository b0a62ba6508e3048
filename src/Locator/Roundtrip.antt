-- ===== src/Locator/Roundtrip.antt =====
-- What `ValidateUploadTarget` accepts, `ValidatePath` accepts when it is asked for.
use idtx_core.Base.{
  and-true, and-intro, ℕ, ◌≡◌, refl, Bool, true, false, some, [], ◌∷◌, ◌++◌, Str, all,
  if◌then◌else◌, arith, ap, ◌∙◌,
}
use idtx_core.Bytes.{has_dots, is_empty}
use idtx_core.Locator.Decode.{percent_decode, percent_decode-plain}
use idtx_core.Locator.Path.{ok, FileSystem, is_path_char, IsSafePath, validate_path, check_decoded}
use idtx_core.Locator.Served.{no_percent, check_decoded-safe}
use idtx_core.Locator.Upload.{
  is_name_char, trim, relative_of, validate_upload_target, IsBareName, IsSafeDir,
}
use idtx_core.Locator.Accepted.{upload_stays_below_root}

-- The relative path of an upload as a text, the way a client names it afterwards.
abbrev pub relative_bytes : Str → Str → Str
relative_bytes dir name = if is_empty dir then name else dir ++ b'/' ∷ name

name_char-path_char : (c : ℕ) → is_name_char c ≡ true → is_path_char c ≡ true
name_char-path_char c h = ground arith

all-name-path : (s : Str) → all is_name_char s ≡ true → all is_path_char s ≡ true
all-name-path [] h = refl
all-name-path (c ∷ s) h =
    let (head, tail) = and-true (is_name_char c) (all is_name_char s) h in
    and-intro (name_char-path_char c head) (all-name-path s tail)

all-append : (p : ℕ → Bool) (s t : Str) → all p s ≡ true → all p t ≡ true → all p (s ++ t) ≡ true
all-append p [] t hs ht = ht
all-append p (c ∷ s) t hs ht =
    let (head, tail) = and-true (p c) (all p s) hs in and-intro head (all-append p s t tail ht)

has_dots-slash :
    (s t : Str) → has_dots s ≡ false → has_dots t ≡ false → has_dots (s ++ b'/' ∷ t) ≡ false
has_dots-slash [] [] hs ht = refl
has_dots-slash [] (c ∷ t) hs ht = ht
has_dots-slash (a ∷ []) t hs ht = ground (arith, has_dots-slash [] t refl ht)
has_dots-slash (a ∷ b ∷ s) t hs ht = ground (arith, has_dots-slash (b ∷ s) t)

relative_bytes-IsSafePath :
    (dir name : Str) → IsSafeDir dir → IsBareName name → IsSafePath (relative_bytes dir name)
relative_bytes-IsSafePath [] name d n = record {
  nonempty = n.nonempty;
  allowed = all-name-path name n.allowed;
  no_dots = n.no_dots;
}
relative_bytes-IsSafePath (c ∷ dir) name d n = record {
  nonempty = λ e. cc;
  allowed =
      all-append is_path_char (c ∷ dir) (b'/' ∷ name) d.allowed (all-name-path name n.allowed);
  no_dots = has_dots-slash (c ∷ dir) name d.no_dots n.no_dots;
}

relative_bytes-validated :
    (dir name : Str)
    → IsSafeDir dir
    → IsBareName name
    → validate_path (relative_bytes dir name) ≡ ok (relative_bytes dir name)
unfolding validate_path
relative_bytes-validated dir name d n =
    let safe = relative_bytes-IsSafePath dir name d n in
    let e =
      percent_decode-plain false (relative_bytes dir name)
        (no_percent (relative_bytes dir name) safe.allowed) in
    ap check_decoded e ∙ check_decoded-safe (relative_bytes dir name) safe

-- Where `ValidateUploadTarget` accepts an upload, the name and the directory decode, the relative
-- path that it answers is that of the decoded name in the decoded directory, the outer separators
-- taken off, and when a client asks for that name in that directory, joined by a slash if there is
-- a directory, `ValidatePath` accepts this text and changes nothing in it.
pub upload_can_be_requested :
    (fs : FileSystem) (root full relative : fs.FilePath) (raw_dir raw_name : Str)
    → validate_upload_target fs root raw_dir raw_name ≡ ok (full, relative)
    → (name decoded : Str) × (percent_decode false true raw_name ≡ some name)
      × (percent_decode false false raw_dir ≡ some decoded)
      × (relative_of fs (trim decoded) name ≡ relative)
      × (validate_path (relative_bytes (trim decoded) name)
          ≡ ok (relative_bytes (trim decoded) name))
upload_can_be_requested fs root full relative raw_dir raw_name h =
    let (name, decoded, en, bare, ed, safe, same, _) =
      upload_stays_below_root fs root raw_dir raw_name full relative h in
    (name, decoded, en, ed, same, relative_bytes-validated (trim decoded) name safe bare)
