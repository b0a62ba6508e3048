-- ===== src/MiniPng/Tests.antt =====
-- A run of source/thumbnails/MiniPng.h, and the theorems about it at concrete data.
use idtx_core.Base.{◌≡◌, refl, some, [], ◌∷◌, codes}
use idtx_core.Base.{Str, suc, length, arith, some}
use idtx_core.MiniPng.{big_endian_32, zlib_wrap_stored}
use idtx_core.MiniPng.Png.{crc_32, crc_from, write, saved, refused, wrote, png, scanlines}
use idtx_core.MiniPng.Reader.{read_png, read_png-write}
use idtx_core.MiniPng.{lengths, stored_blocks, adler_from, adler_32, zlib_wrap_stored}

-- The checksum of "Wikipedia" is 11E60398.
adler_test : adler_32 (codes "Wikipedia") ≡ 300286872
unfolding adler_32 adler_from
adler_test = refl

-- Blocks of at most two bytes.
blocks_test :
    stored_blocks 4 2 (codes "abc")
    ≡ 0 ∷ 2 ∷ 0 ∷ 253 ∷ 255 ∷ b'a' ∷ b'b' ∷ 1 ∷ 1 ∷ 0 ∷ 254 ∷ 255 ∷ b'c' ∷ []
unfolding stored_blocks lengths
blocks_test = refl

-- The checksum of the chunk "IEND" without contents is AE426082.
crc_test : crc_32 (codes "IEND") ≡ 0xAE426082
unfolding crc_32 crc_from
crc_test = refl

no_pixels_test : write saved 0 4 [] ≡ refused (codes "invalid image dimensions")
unfolding write
no_pixels_test = refl

abbrev orange : Str
orange = 255 ∷ 165 ∷ 0 ∷ []

read_png-write_example :
    (write saved 1 1 orange ≡ wrote (png 1 1 orange))
    × (read_png (suc (length (scanlines 1 0 1 orange))) (png 1 1 orange) ≡ some (1, 1, orange))
unfolding zlib_wrap_stored stored_blocks lengths big_endian_32 scanlines
read_png-write_example =
    read_png-write 1 1 orange (omega arith) (omega arith) (omega arith) (omega arith) refl
      (omega arith)
