-- ===== src/MiniPng/Png.antt =====
-- `Write` of source/thumbnails/MiniPng.h, with the chunks and their checksum.
use Prim.Native.Nat.{zero, suc, bit_xor}
use idtx_core.Base.{
  ℕ, ◌+◌, ◌*◌, ◌/◌, ◌%◌, ◌^◌, not, ◌||◌, [], ◌∷◌, ◌++◌, Str, codes, length, take, drop, u64, ◌==◌,
  if◌then◌else◌,
}
use idtx_core.MiniPng.{big_endian_32, zlib_wrap_stored}

-- One round of the loop that fills the table.
abbrev pub crc_step : ℕ → ℕ
crc_step c = if c % 2 == 1 then bit_xor 0xEDB88320 (c / 2) else c / 2

abbrev pub crc_steps : ℕ → ℕ → ℕ
crc_steps zero c = c
crc_steps (suc k) c = crc_steps k (crc_step c)

-- The entry `n` of the table
abbrev pub crc_table : ℕ → ℕ
crc_table n = crc_steps 8 n

unfoldable pub crc_from : ℕ → Str → ℕ
crc_from c [] = c
crc_from c (b ∷ s) = crc_from (bit_xor (crc_table (bit_xor c b % 256)) (c / 256)) s

unfoldable pub crc_32 : Str → ℕ
crc_32 s = bit_xor (crc_from 0xFFFFFFFF s) 0xFFFFFFFF

-- `WriteChunk`: what is appended
unfoldable pub write_chunk : Str → Str → Str
write_chunk type data' =
    big_endian_32 (length data' % 2 ^ 32)
    ++ (type ++ (data' ++ big_endian_32 (crc_32 (type ++ data'))))

abbrev pub png_signature : Str
png_signature = 0x89 ∷ b'P' ∷ b'N' ∷ b'G' ∷ 0x0D ∷ 0x0A ∷ 0x1A ∷ 0x0A ∷ []

unfoldable pub ihdr : ℕ → ℕ → Str
ihdr width height = big_endian_32 width ++ (big_endian_32 height ++ (8 ∷ 2 ∷ 0 ∷ 0 ∷ 0 ∷ []))

-- The loop over the rows, from row `y` on, with the number of rows that are left; the length of a row
-- is computed in 32 bits, its start is not.
unfoldable pub scanlines : ℕ → ℕ → ℕ → Str → Str
scanlines width y zero rgb = []
scanlines width y (suc n) rgb =
    let rest = scanlines width (y + 1) n rgb in
    0 ∷ (take (width * 3 % 2 ^ 32) (drop (y * width * 3) rgb) ++ rest)

-- The bytes of the file.
unfoldable pub png : ℕ → ℕ → Str → Str
png width height rgb =
    let raw = scanlines width 0 height rgb in
    png_signature
    ++ (write_chunk (codes "IHDR") (ihdr width height)
        ++ (write_chunk (codes "IDAT") (zlib_wrap_stored raw) ++ write_chunk (codes "IEND") []))

-- What becomes of the file: it cannot be opened, or not be written, or it is written.
pub data Saving : Type 0 where
  not_opened not_written saved : Saving

-- Why `Write` returns false, or the bytes in the file.
pub data Written : Type 0 where
  refused : Str → Written
  wrote : Str → Written

unfoldable pub persist : Saving → Str → Written
persist not_opened bytes = refused (codes "failed to open output file for writing")
persist not_written bytes = refused (codes "failed to write image bytes")
persist saved bytes = wrote bytes

-- The size that the buffer must have is a product of `std::size_t`.
unfoldable pub write : Saving → (width height : ℕ) → Str → Written
write saving width height rgb =
    if width == 0 || height == 0
    then refused (codes "invalid image dimensions")
    else if not (length rgb == u64 (width * height * 3))
    then refused (codes "pixel buffer size does not match dimensions")
    else persist saving (png width height rgb)
