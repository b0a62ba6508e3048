-- ===== src/Locator/Served.antt =====
-- What `ValidatePath` and `Resolve` of source/utils/UsdFileLocator.h let through.
use idtx_core.Base.{
  ◌≡◌, ◌↔◌, refl, Bool, true, false, Option, none, some, List, [], ◌∷◌, ◌++◌, Str, Str-discrete,
  all, if◌then◌else◌, arith, Bool-cases, inl, inr, if_pos, if_neg, ap, sym, ◌∙◌,
}
use mathlib.Core.Path.{subst}
use idtx_core.Bytes.{has, has_dots}
use idtx_core.Locator.Decode.{percent_decode, percent_decode-plain}
use idtx_core.Locator.Path.{
  Status, Outcome, ok, refused, FileSystem, is_path_char, matches, check_decoded, validate_path,
  is_usd_filename, is_prefix, check_candidate, resolve_decoded, resolve, IsSafePath, IsServed,
}

-- A guard with an early return was passed by what is returned at last.
pub passed :
    {A : Type 0}
    → (test : Bool) (s : Status) (rest : Outcome A) (v : A)
    → (if test then refused s else rest) ≡ ok v
    → (test ≡ false) × (rest ≡ ok v)
passed true s rest v h = cc
passed false s rest v h = (refl, h)

pub no_percent : (s : Str) → all is_path_char s ≡ true → has b'%' s ≡ false
no_percent [] h = refl
no_percent (c ∷ s) h = ground (arith, no_percent s)

pub matches-IsSafePath :
    (decoded : Str)
    → (matches is_path_char decoded ≡ true)
    → has_dots decoded ≡ false
    → IsSafePath decoded
matches-IsSafePath [] h d = cc
matches-IsSafePath (c ∷ s) h d = record { nonempty = λ e. cc; allowed = h; no_dots = d }

pub IsSafePath-matches : (decoded : Str) → IsSafePath decoded → matches is_path_char decoded ≡ true
IsSafePath-matches [] h = absurd (h.nonempty refl)
IsSafePath-matches (c ∷ s) h = h.allowed

check_decoded-eq-ok :
    (answer : Option Str) (decoded : Str)
    → check_decoded answer ≡ ok decoded
    → (answer ≡ some decoded) × IsSafePath decoded
unfolding check_decoded
check_decoded-eq-ok none decoded h = cc
check_decoded-eq-ok (some t) decoded h = elim (Bool-cases (has_dots t)) [
  | inl dots ↦ cc
  | inr no_dots ↦ elim (Bool-cases (matches is_path_char t)) [
    | inl allowed ↦
        let same : t ≡ decoded = cc in
        (ap some same, subst IsSafePath same (matches-IsSafePath t allowed no_dots))
    | inr forbidden ↦ cc
  ]
]

pub check_decoded-safe :
    (decoded : Str) → IsSafePath decoded → check_decoded (some decoded) ≡ ok decoded
unfolding check_decoded
check_decoded-safe decoded h = simp (h.no_dots, IsSafePath-matches decoded h)

-- `ValidatePath` accepts a path exactly if it decodes to a nonempty text of allowed characters
-- without "..", which it hands on.
validate_path-eq-ok :
    (filepath decoded : Str)
    → (validate_path filepath ≡ ok decoded)
      ↔ ((percent_decode false false filepath ≡ some decoded) × IsSafePath decoded)
unfolding validate_path
validate_path-eq-ok filepath decoded = (
  check_decoded-eq-ok (percent_decode false false filepath) decoded,
  λ (e, safe). ap check_decoded e ∙ check_decoded-safe decoded safe,
)

-- An accepted path cannot be decoded a second time into something else.
pub decode_once :
    (filepath decoded : Str) (slash : Bool)
    → validate_path filepath ≡ ok decoded
    → percent_decode false slash decoded ≡ some decoded
decode_once filepath decoded slash h =
    percent_decode-plain slash decoded
      (no_percent decoded ((validate_path-eq-ok filepath decoded).0 h).1.allowed)

pub is_prefix-append :
    (xs ys : List Str) → is_prefix xs ys ≡ true → (rest : List Str) × (ys ≡ xs ++ rest)
unfolding is_prefix
is_prefix-append [] ys h = (ys, refl)
is_prefix-append (x ∷ xs) [] h = cc
is_prefix-append (x ∷ xs) (y ∷ ys) h = elim (Str-discrete x y) [
  | yes e ↦
      let below =
        is_prefix-append xs ys (sym (if_pos (Str-discrete x y) e (is_prefix xs ys) false) ∙ h) in
      (below.0, cc (e, below.1))
  | no ne ↦ cc (if_neg (Str-discrete x y) ne (is_prefix xs ys) false)
]

module _ (fs : FileSystem) (root : fs.FilePath) where
  check_candidate-eq-ok :
      (candidate file : fs.FilePath) (r f : Option fs.FilePath)
      → fs.canonical root ≡ r
      → fs.canonical candidate ≡ f
      → check_candidate fs root candidate r f ≡ ok file
      → (candidate ≡ file) × IsServed fs root candidate
  unfolding check_candidate
  check_candidate-eq-ok candidate file none f er ef h = cc
  check_candidate-eq-ok candidate file (some r) none er ef h = cc
  check_candidate-eq-ok candidate file (some r) (some f) er ef h =
      elim (Bool-cases (is_prefix (fs.parts r) (fs.parts f))) [
        | inr outside ↦ cc
        | inl inside ↦ elim (Bool-cases (fs.exists candidate)) [
          | inr missing ↦ cc
          | inl exists ↦ elim (Bool-cases (is_usd_filename (fs.filename candidate))) [
            | inr other ↦ cc
            | inl usd ↦
                let split = is_prefix-append (fs.parts r) (fs.parts f) inside in
                (
                  cc,
                  record {
                    exists = exists;
                    usd = usd;
                    canonical_root = r;
                    canonical_file = f;
                    rest = split.0;
                    root_at = er;
                    file_at = ef;
                    below = split.1;
                  },
                )
          ]
        ]
      ]

  resolve_decoded-eq-ok :
      (answer : Outcome Str) (file : fs.FilePath)
      → resolve_decoded fs root answer ≡ ok file
      → (decoded : Str) × (answer ≡ ok decoded)
        × (fs.join root (fs.of_bytes decoded) ≡ file)
        × IsServed fs root file
  unfolding resolve_decoded
  resolve_decoded-eq-ok (refused s) file h = cc
  resolve_decoded-eq-ok (ok decoded) file h =
      let candidate = fs.join root (fs.of_bytes decoded) in
      let served =
        check_candidate-eq-ok candidate file (fs.canonical root) (fs.canonical candidate) refl refl
          h in
      (decoded, refl, served.0, subst (IsServed fs root) served.0 served.1)

  -- What `Resolve` hands out is the root joined with the decoded path, which is nonempty, of allowed
  -- characters and without ".."; it exists, has a USD extension, and its canonical form is below
  -- the canonical form of the root.
  pub resolve_below_root :
      (filepath : Str) (file : fs.FilePath)
      → resolve fs root filepath ≡ ok file
      → (decoded : Str) × (percent_decode false false filepath ≡ some decoded)
        × IsSafePath decoded
        × (fs.join root (fs.of_bytes decoded) ≡ file)
        × IsServed fs root file
  unfolding resolve
  resolve_below_root filepath file h =
      let (decoded, e, joined, served) = resolve_decoded-eq-ok (validate_path filepath) file h in
      let (decodes, safe) = (validate_path-eq-ok filepath decoded).0 e in
      (decoded, decodes, safe, joined, served)
