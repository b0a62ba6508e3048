-- ===== src/MiniPng/Pixels.antt =====
-- Reading back the file that `Write` of source/thumbnails/MiniPng.h writes.
use Prim.Native.Nat.{zero, suc}
use mathlib.Core.Option
use mathlib.Core.Path.{subst}
use mathlib.Core.List.{append_assoc}
use idtx_core.Base.{
  ℕ, ◌+◌, ◌*◌, ◌/◌, ◌%◌, ◌^◌, ◌<◌, ◌≤◌, ◌≡◌, refl, sym, ap, ◌∙◌, Option, none, some, [], ◌∷◌, ◌++◌,
  Str, length, take, drop, leb, if◌then◌else◌, arith,
}
use idtx_core.Bytes.{same, same_refl}
use idtx_core.MiniPng.{big_endian_32}
use idtx_core.MiniPng.Inflate.{
  take-exact, drop-exact, leb-append, take-drop, length-take_le, length-drop,
}
use idtx_core.MiniPng.Png.{crc_32, write_chunk, scanlines}

pub record Chunk : Type 0 where
  pub type : Str
  pub contents : Str

-- The bytes after the contents are the checksum of the type and the contents.
unfoldable pub check_crc : Str → Str → Str → Option (Chunk × Str)
check_crc type contents (c3 ∷ c2 ∷ c1 ∷ c0 ∷ s) =
    if same (c3 ∷ c2 ∷ c1 ∷ c0 ∷ []) (big_endian_32 (crc_32 (type ++ contents)))
    then some (record { type = type; contents = contents }, s)
    else none
check_crc type contents _ = none

-- A chunk, and what follows it.
unfoldable pub read_chunk : Str → Option (Chunk × Str)
read_chunk (l3 ∷ l2 ∷ l1 ∷ l0 ∷ t0 ∷ t1 ∷ t2 ∷ t3 ∷ s) =
    let n = ((l3 * 256 + l2) * 256 + l1) * 256 + l0 in
    if leb n (length s) then check_crc (t0 ∷ t1 ∷ t2 ∷ t3 ∷ []) (take n s) (drop n s) else none
read_chunk _ = none

four_read :
    (n : ℕ)
    → n < 2 ^ 32
    → ((n % 2 ^ 32 / 16777216 % 256 * 256 + n % 2 ^ 32 / 65536 % 256) * 256
            + n % 2 ^ 32 / 256 % 256)
          * 256
        + n % 2 ^ 32 % 256
      ≡ n
four_read n h = omega arith

check_crc-exact :
    (type contents s : Str)
    → check_crc type contents (big_endian_32 (crc_32 (type ++ contents)) ++ s)
      ≡ some (record { type = type; contents = contents }, s)
unfolding check_crc big_endian_32
check_crc-exact type contents s = rw (same_refl (big_endian_32 (crc_32 (type ++ contents)))) refl

-- A chunk of less than 2 ^ 32 bytes is read back, and what follows it is left.
pub read_chunk-write_chunk :
    (t0 t1 t2 t3 : ℕ) (contents s : Str)
    → length contents < 2 ^ 32
    → read_chunk (write_chunk (t0 ∷ t1 ∷ t2 ∷ t3 ∷ []) contents ++ s)
      ≡ some (record { type = t0 ∷ t1 ∷ t2 ∷ t3 ∷ []; contents = contents }, s)
unfolding read_chunk write_chunk big_endian_32
read_chunk-write_chunk t0 t1 t2 t3 contents s h =
    let type = t0 ∷ t1 ∷ t2 ∷ t3 ∷ [] in
    let crc = big_endian_32 (crc_32 (type ++ contents)) in
    rw
      (
        append_assoc contents crc s,
        four_read (length contents) h,
        leb-append contents (crc ++ s),
        take-exact contents (crc ++ s),
        drop-exact contents (crc ++ s),
      )
      (check_crc-exact type contents s)

-- The pixels of rows of so many bytes, each with the filter byte 0 before it.
unfoldable pub read_rows : ℕ → ℕ → Str → Option Str
read_rows stride zero [] = some []
read_rows stride (suc n) (zero ∷ s) =
    let rest = read_rows stride n (drop stride s) in
    if leb stride (length s) then Option.map (λ t. take stride s ++ t) rest else none
read_rows stride n s = none

drop_nothing : (n : ℕ) → drop {A = ℕ} n [] ≡ []
drop_nothing zero = refl
drop_nothing (suc n) = refl

suc_first : (n m : ℕ) → suc n + m ≡ suc (n + m)
suc_first n m = omega arith

drop-drop : (n m : ℕ) (s : Str) → drop m (drop n s) ≡ drop (n + m) s
drop-drop zero m s = ap (λ k. drop k s) (omega arith)
drop-drop (suc n) m [] = drop_nothing m ∙ sym (drop_nothing (suc n + m))
drop-drop (suc n) m (c ∷ s) = drop-drop n m s ∙ sym (ap (λ k. drop k (c ∷ s)) (suc_first n m))

next_row : (y width : ℕ) → (y + 1) * width * 3 ≡ y * width * 3 + width * 3
next_row y width = omega arith

drop_all : (s : Str) (n : ℕ) → length s ≤ n → drop n s ≡ []
drop_all [] n h = drop_nothing n
drop_all (c ∷ s) zero h = absurd (omega arith)
drop_all (c ∷ s) (suc n) h = drop_all s n (omega arith)

read_rows-row :
    (n : ℕ) (row s : Str)
    → read_rows (length row) (suc n) (0 ∷ (row ++ s))
      ≡ Option.map (λ t. row ++ t) (read_rows (length row) n s)
unfolding read_rows
read_rows-row n row s = rw (leb-append row s, take-exact row s, drop-exact row s) refl

below_modulus : (n : ℕ) → n < 2 ^ 32 → n % 2 ^ 32 ≡ n
below_modulus n h = omega arith

-- The rows are read back as what they were cut from.
pub read_rows-scanlines :
    (width y n : ℕ) (rgb : Str)
    → width * 3 < 2 ^ 32
    → length rgb ≡ (y + n) * width * 3
    → read_rows (width * 3) n (scanlines width y n rgb) ≡ some (drop (y * width * 3) rgb)
unfolding read_rows scanlines
read_rows-scanlines width y zero rgb h e =
    ap some (sym (drop_all rgb (y * width * 3) (omega (arith, e))))
read_rows-scanlines width y (suc n) rgb h e =
    let stride = width * 3 in
    let from_here = drop (y * width * 3) rgb in
    let row = take stride from_here in
    let rest = scanlines width (y + 1) n rgb in
    let full_row : length row ≡ stride =
      length-take_le stride from_here (omega (arith, e, length-drop (y * width * 3) rgb)) in
    let again : read_rows stride n rest ≡ some (drop ((y + 1) * width * 3) rgb) =
      read_rows-scanlines width (y + 1) n rgb h (omega (arith, e)) in
    let rejoin : row ++ drop ((y + 1) * width * 3) rgb ≡ from_here =
      ap (λ k. row ++ drop k rgb) (next_row y width)
      ∙ ap (λ s. row ++ s) (sym (drop-drop (y * width * 3) stride rgb))
      ∙ take-drop stride from_here in
    ap (λ k. read_rows stride (suc n) (0 ∷ (take k from_here ++ rest))) (below_modulus stride h)
    ∙ subst
        (λ k.
          read_rows k (suc n) (0 ∷ (row ++ rest)) ≡ Option.map (λ t. row ++ t) (read_rows k n rest))
        full_row (read_rows-row n row rest)
    ∙ ap (Option.map (λ t. row ++ t)) again
    ∙ ap some rejoin
