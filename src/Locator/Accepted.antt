-- ===== src/Locator/Accepted.antt =====
-- What an accepted upload target of source/utils/UsdFileLocator.h looks like.
use idtx_core.Base.{
  or-false, not-false, ℕ, ◌≡◌, ◌≢◌, refl, Bool, true, false, Option, none, some, [], ◌∷◌, Str, all,
  ap, ◌∙◌, sym,
}
use mathlib.Core.Path.{subst, subst⁻¹}
use idtx_core.Bytes.{has, has_dots}
use idtx_core.Locator.Decode.{percent_decode}
use idtx_core.Locator.Path.{
  invalid_path, not_a_usd_file, outside_root, Outcome, ok, refused, FileSystem, matches,
}
use idtx_core.Locator.Served.{passed, is_prefix-append}
use idtx_core.Locator.Upload.{
  is_name_char, is_bad_name, check_filename, trim, is_bad_dir, check_trimmed, check_dir,
  relative_of, anchor, compose, validate_upload_target, IsBareName, IsSafeDir, IsAnchored,
}

ok-inj : {A : Type 0} → {a b : A} → ◌≡◌ {A = Outcome A} (ok a) (ok b) → a ≡ b
ok-inj h = cc

matches-nonempty : (p : ℕ → Bool) (s : Str) → matches p s ≡ true → (s ≢ []) × (all p s ≡ true)
matches-nonempty p [] h = cc
matches-nonempty p (c ∷ s) h = (λ e. cc, h)

check_filename-eq-ok :
    (raw : Str) (answer : Option Str) (name : Str)
    → check_filename raw answer ≡ ok name
    → (answer ≡ some name) × IsBareName name
unfolding check_filename
check_filename-eq-ok raw none name h = cc
check_filename-eq-ok raw (some t) name h =
    let (flags, h1) = passed (is_bad_name raw t) invalid_path _ name h in
    let (char, h2) = passed _ invalid_path _ name h1 in
    let (ext, h3) = passed _ not_a_usd_file _ name h2 in
    let (f4, _) = or-false _ (has b'\\' t) flags in
    let (f3, slash) = or-false _ (has b'/' t) f4 in
    let (f2, _) = or-false _ (has_dots raw) f3 in
    let (_, dots) = or-false _ (has_dots t) f2 in
    let (nonempty, allowed) = matches-nonempty is_name_char t (not-false _ char) in
    let same : t ≡ name = ok-inj h3 in
    (
      ap some same,
      subst IsBareName same (record {
        nonempty = nonempty;
        allowed = allowed;
        no_dots = dots;
        no_slash = slash;
        usd = not-false _ ext;
      }),
    )

check_trimmed-eq-ok : (raw t dir : Str) → check_trimmed raw t ≡ ok dir → (t ≡ dir) × IsSafeDir dir
unfolding check_trimmed
check_trimmed-eq-ok raw [] dir h =
    let (_, h1) = passed (is_bad_dir raw []) invalid_path _ dir h in
    let same : [] ≡ dir = ok-inj h1 in
    (same, subst IsSafeDir same (record { allowed = refl; no_dots = refl }))
check_trimmed-eq-ok raw (c ∷ t) dir h =
    let (flags, h1) = passed (is_bad_dir raw (c ∷ t)) invalid_path _ dir h in
    let (char, h2) = passed _ invalid_path _ dir h1 in
    let same : c ∷ t ≡ dir = ok-inj h2 in
    (
      same,
      subst IsSafeDir same (record {
        allowed = not-false _ char;
        no_dots =
            (or-false (has_dots (c ∷ t)) (has_dots raw) (or-false _ (has b'\\' (c ∷ t)) flags).0).0;
      }),
    )

check_dir-eq-ok :
    (raw : Str) (answer : Option Str) (dir : Str)
    → check_dir raw answer ≡ ok dir
    → (decoded : Str) × (answer ≡ some decoded) × (trim decoded ≡ dir) × IsSafeDir dir
unfolding check_dir
check_dir-eq-ok raw none dir h = cc
check_dir-eq-ok raw (some t) dir h =
    let (same, safe) = check_trimmed-eq-ok raw (trim t) dir h in (t, refl, same, safe)

module _ (fs : FileSystem) (root : fs.FilePath) where
  anchor-eq-ok :
      (target full relative : fs.FilePath)
      → anchor fs root target ≡ ok (full, relative)
      → (target ≡ relative) × IsAnchored fs root full target
  unfolding anchor
  anchor-eq-ok target full relative h =
      let (out, h1) = passed _ outside_root _ (full, relative) h in
      let (up, h2) = passed _ outside_root _ (full, relative) h1 in
      let same = ok-inj h2 in
      let split = is_prefix-append _ _ (not-false _ out) in
      (
        ap (λ p. p.1) same,
        record {
          joined = sym (ap (λ p. p.0) same);
          rest = split.0;
          below = ap (λ p. fs.parts p.0) (sym same) ∙ split.1;
          no_parent = up;
        },
      )

  compose-eq-ok :
      (name dir : Outcome Str) (full relative : fs.FilePath)
      → compose fs root name dir ≡ ok (full, relative)
      → (n d : Str) × (name ≡ ok n)
        × (dir ≡ ok d)
        × (relative_of fs d n ≡ relative)
        × IsAnchored fs root full relative
  unfolding compose
  compose-eq-ok (refused s) dir full relative h = cc
  compose-eq-ok (ok n) (refused s) full relative h = cc
  compose-eq-ok (ok n) (ok d) full relative h =
      let (same, anchored) = anchor-eq-ok (relative_of fs d n) full relative h in
      (n, d, refl, refl, same, subst (IsAnchored fs root full) same anchored)

  -- An accepted upload goes to a bare file name with a USD extension in a directory of allowed
  -- characters, both without ".."; they are the decoded inputs, the directory's outer separators
  -- taken off; and the normalised full path is the root's normal form followed by more parts.
  pub upload_stays_below_root :
      (raw_dir raw_name : Str) (full relative : fs.FilePath)
      → validate_upload_target fs root raw_dir raw_name ≡ ok (full, relative)
      → (name decoded : Str) × (percent_decode false true raw_name ≡ some name)
        × IsBareName name
        × (percent_decode false false raw_dir ≡ some decoded)
        × IsSafeDir (trim decoded)
        × (relative_of fs (trim decoded) name ≡ relative)
        × IsAnchored fs root full relative
  unfolding validate_upload_target
  upload_stays_below_root raw_dir raw_name full relative h =
      let (name, dir, en, ed, same, anchored) =
        compose-eq-ok (check_filename raw_name (percent_decode false true raw_name))
          (check_dir raw_dir (percent_decode false false raw_dir)) full relative h in
      let (decodes, bare) =
        check_filename-eq-ok raw_name (percent_decode false true raw_name) name en in
      let (decoded, eq, trimmed, safe) =
        check_dir-eq-ok raw_dir (percent_decode false false raw_dir) dir ed in
      (
        name,
        decoded,
        decodes,
        bare,
        eq,
        subst⁻¹ IsSafeDir trimmed safe,
        ap (λ d. relative_of fs d name) trimmed ∙ same,
        anchored,
      )
