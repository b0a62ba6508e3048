-- ===== src/MiniPng/Reader.antt =====
-- A reader of the files that `Write` of source/thumbnails/MiniPng.h writes, by the PNG specification.
use native.Mathlib.Nat.{mul-le-mul, mul_right_comm}
use mathlib.Core.Option
use mathlib.Core.List.{append-nil}
use idtx_core.Base.{
  ℕ, suc, ◌+◌, ◌*◌, ◌^◌, ◌<◌, ◌≤◌, ◌≡◌, refl, sym, ap, ◌∙◌, false, ◌||◌, Option, none, some, [],
  ◌∷◌, ◌++◌, Str, codes, length, drop, u64, u64_small, ◌==◌, if◌then◌else◌, arith,
}
use idtx_core.Bytes.{same, same_refl, after_prefix}
use idtx_core.MiniPng.{big_endian_32, zlib_wrap_stored}
use idtx_core.MiniPng.Zlib.{zlib_read, zlib_read-zlib_wrap_stored, four_bytes, same-true}
use idtx_core.MiniPng.Png.{
  write_chunk, png_signature, ihdr, scanlines, png, saved, wrote, persist, write,
}
use idtx_core.MiniPng.Pixels.{
  Chunk, read_chunk, read_chunk-write_chunk, read_rows, read_rows-scanlines,
}

-- Width and height, if the picture has 8 bits for each of three colours and is not interlaced.
unfoldable pub read_size : Str → Option (ℕ × ℕ)
read_size (w3 ∷ w2 ∷ w1 ∷ w0 ∷ h3 ∷ h2 ∷ h1 ∷ h0 ∷ rest) =
    if same rest (8 ∷ 2 ∷ 0 ∷ 0 ∷ 0 ∷ [])
    then some (((w3 * 256 + w2) * 256 + w1) * 256 + w0, ((h3 * 256 + h2) * 256 + h1) * 256 + h0)
    else none
read_size _ = none

-- The contents of a chunk of this type.
unfoldable pub contents_of : Str → Chunk → Option Str
contents_of type c = if same c.type type then some c.contents else none

-- The last chunk, and the rows.
unfoldable pub finish : ℕ × ℕ → Option Str → Option (Chunk × Str) → Option (ℕ × ℕ × Str)
finish (w, h) (some raw) (some (c, [])) =
    if same c.type (codes "IEND")
    then Option.map (λ rgb. (w, h, rgb)) (read_rows (w * 3) h raw)
    else none
finish size _ _ = none

unfoldable pub inflate : ℕ → Option Str → Option Str
inflate fuel none = none
inflate fuel (some z) = zlib_read fuel z

unfoldable pub with_data : ℕ → Option (ℕ × ℕ) → Option (Chunk × Str) → Option (ℕ × ℕ × Str)
with_data fuel (some size) (some (c, s)) =
    finish size (inflate fuel (contents_of (codes "IDAT") c)) (read_chunk s)
with_data fuel _ _ = none

unfoldable pub size_of : Option Str → Option (ℕ × ℕ)
size_of none = none
size_of (some s) = read_size s

unfoldable pub with_header : ℕ → Option (Chunk × Str) → Option (ℕ × ℕ × Str)
with_header fuel none = none
with_header fuel (some (c, s)) =
    with_data fuel (size_of (contents_of (codes "IHDR") c)) (read_chunk s)

unfoldable pub read_signed : ℕ → Option Str → Option (ℕ × ℕ × Str)
read_signed fuel none = none
read_signed fuel (some s) = with_header fuel (read_chunk s)

-- Width, height and pixels of the picture; the first argument is the fuel for the blocks.
abbrev pub read_png : ℕ → Str → Option (ℕ × ℕ × Str)
read_png fuel s = read_signed fuel (after_prefix png_signature s)

read_size-ihdr : (w h : ℕ) → w < 2 ^ 32 → h < 2 ^ 32 → read_size (ihdr w h) ≡ some (w, h)
unfolding read_size ihdr big_endian_32
read_size-ihdr w h lw lh =
    rw (same_refl (8 ∷ 2 ∷ 0 ∷ 0 ∷ 0 ∷ []), four_bytes w lw, four_bytes h lh) refl

ihdr-small : (w h : ℕ) → length (ihdr w h) < 2 ^ 32
unfolding ihdr big_endian_32
ihdr-small w h = omega arith

contents_of-own :
    (type contents : Str)
    → contents_of type (record { type = type; contents = contents }) ≡ some contents
unfolding contents_of
contents_of-own type contents = rw (same_refl type) refl

finish-rows :
    (w h : ℕ) (raw rgb contents : Str)
    → read_rows (w * 3) h raw ≡ some rgb
    → finish (w, h) (some raw) (some (record { type = codes "IEND"; contents = contents }, []))
      ≡ some (w, h, rgb)
unfolding finish
finish-rows w h raw rgb contents e = rw (same_refl (codes "IEND"), e) refl

no_rows : (w : ℕ) → 0 * w * 3 ≡ 0
no_rows w = omega arith

png-read :
    (w h : ℕ) (rgb : Str)
    → w * 3 < 2 ^ 32
    → h < 2 ^ 32
    → length rgb ≡ w * h * 3
    → length (zlib_wrap_stored (scanlines w 0 h rgb)) < 2 ^ 32
    → read_png (suc (length (scanlines w 0 h rgb))) (png w h rgb) ≡ some (w, h, rgb)
unfolding png read_signed with_header with_data size_of inflate
png-read w h rgb lw lh e lz =
    let raw = scanlines w 0 h rgb in
    let z = zlib_wrap_stored raw in
    let fuel = suc (length raw) in
    let last = write_chunk (codes "IEND") [] in
    let data' = write_chunk (codes "IDAT") z ++ last in
    let rows : read_rows (w * 3) h raw ≡ some rgb =
      read_rows-scanlines w 0 h rgb lw (omega (arith, e))
      ∙ ap (λ k. some (drop k rgb)) (no_rows w) in
    ap (with_header fuel)
      (read_chunk-write_chunk b'I' b'H' b'D' b'R' (ihdr w h) data' (ihdr-small w h))
    ∙ ap (λ o. with_data fuel (size_of o) (read_chunk data'))
        (contents_of-own (codes "IHDR") (ihdr w h))
    ∙ ap (λ o. with_data fuel o (read_chunk data')) (read_size-ihdr w h (omega arith) lh)
    ∙ ap (with_data fuel (some (w, h))) (read_chunk-write_chunk b'I' b'D' b'A' b'T' z last lz)
    ∙ ap (λ o. finish (w, h) (inflate fuel o) (read_chunk last)) (contents_of-own (codes "IDAT") z)
    ∙ ap (λ o. finish (w, h) o (read_chunk last)) (zlib_read-zlib_wrap_stored raw)
    ∙ ap (λ s. finish (w, h) (some raw) (read_chunk s)) (sym (append-nil last))
    ∙ ap (finish (w, h) (some raw)) (read_chunk-write_chunk b'I' b'E' b'N' b'D' [] [] (omega arith))
    ∙ finish-rows w h raw rgb [] rows

-- Fewer than 2 ^ 32 rows of fewer than 2 ^ 32 bytes have a size of 64 bits.
size_small : (w h : ℕ) → w * 3 < 2 ^ 32 → h < 2 ^ 32 → w * h * 3 < 2 ^ 64
size_small w h lw lh =
    let bound : (w * 3) * h ≤ 0xFFFFFFFF * 0xFFFFFFFF =
      mul-le-mul {n₂ = 0xFFFFFFFF} {m₂ = 0xFFFFFFFF} (omega (arith, lw)) (omega (arith, lh)) in
    let e : w * h * 3 ≡ (w * 3) * h = mul_right_comm w h 3 in omega (arith, bound, e)

write-saved :
    (w h : ℕ) (rgb : Str)
    → 0 < w
    → 0 < h
    → w * h * 3 < 2 ^ 64
    → length rgb ≡ w * h * 3
    → write saved w h rgb ≡ wrote (png w h rgb)
unfolding write persist
write-saved w h rgb pw ph small e =
    let e' = e ∙ sym (u64_small (w * h * 3) small) in
    rw (nonzero w h pw ph, same-true (length rgb) (u64 (w * h * 3)) e') refl
  where
    nonzero : (w h : ℕ) → 0 < w → 0 < h → (w == 0) || (h == 0) ≡ false
    nonzero w h pw ph = ground arith

-- For a picture of at least one pixel with the fitting number of colour bytes, `Write` succeeds if the
-- file can be written, and the file holds a PNG of it: reading the chunks, whose checksums are those
-- of `Crc32`, the zlib stream and the rows gives back the width, the height and the pixels. Rows of
-- fewer than 2 ^ 32 bytes, fewer than 2 ^ 32 rows, and a stream of fewer than 2 ^ 32 bytes are asked
-- for.
pub read_png-write :
    (w h : ℕ) (rgb : Str)
    → 0 < w
    → 0 < h
    → w * 3 < 2 ^ 32
    → h < 2 ^ 32
    → length rgb ≡ w * h * 3
    → length (zlib_wrap_stored (scanlines w 0 h rgb)) < 2 ^ 32
    → (write saved w h rgb ≡ wrote (png w h rgb))
      × (read_png (suc (length (scanlines w 0 h rgb))) (png w h rgb) ≡ some (w, h, rgb))
read_png-write w h rgb pw ph lw lh e lz =
    (write-saved w h rgb pw ph (size_small w h lw lh) e, png-read w h rgb lw lh e lz)
