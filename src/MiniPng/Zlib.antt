-- ===== src/MiniPng/Zlib.antt =====
-- The whole stream that `ZlibWrapStored` of source/thumbnails/MiniPng.h writes, read by the rules
-- of RFC 1950.
use idtx_core.Base.{
  ℕ, suc, ◌+◌, ◌*◌, ◌/◌, ◌%◌, ◌^◌, ◌<◌, ◌≡◌, ap, ◌∙◌, true, ◌&&◌, Option, none, some, [], ◌∷◌, Str,
  length, ◌==◌, if◌then◌else◌, arith,
}
use idtx_core.MiniPng.{max_block, adler_32, big_endian_32, zlib_wrap_stored}
use idtx_core.MiniPng.Inflate.{inflate_stored, inflate_stored-stored_blocks}
use idtx_core.MiniPng.Adler.{checksum, adler_32-checksum}

-- The data, if exactly its checksum follows, the high byte first.
unfoldable pub read_trailer : Option (Str × Str) → Option Str
read_trailer (some (raw, t3 ∷ t2 ∷ t1 ∷ t0 ∷ [])) =
    if ((t3 * 256 + t2) * 256 + t1) * 256 + t0 == checksum raw then some raw else none
read_trailer _ = none

-- The method is deflate, the header is a multiple of 31, and no dictionary is preset. The first
-- argument is the fuel for the blocks.
unfoldable pub zlib_read : ℕ → Str → Option Str
zlib_read fuel (cmf ∷ flags ∷ s) =
    if cmf % 16 == 8 && (cmf * 256 + flags) % 31 == 0 && flags / 32 % 2 == 0
    then read_trailer (inflate_stored fuel s)
    else none
zlib_read fuel _ = none

pub four_bytes :
    (x : ℕ)
    → x < 2 ^ 32
    → ((x / 16777216 % 256 * 256 + x / 65536 % 256) * 256 + x / 256 % 256) * 256 + x % 256 ≡ x
four_bytes x h = omega arith

pub same-true : (a b : ℕ) → a ≡ b → (a == b) ≡ true
same-true a b e = ground arith

read_trailer-big_endian_32 :
    (raw : Str) → read_trailer (some (raw, big_endian_32 (adler_32 raw))) ≡ some raw
unfolding read_trailer big_endian_32
read_trailer-big_endian_32 raw =
    let (e, small) = adler_32-checksum raw in
    rw (same-true _ _ (four_bytes (adler_32 raw) small ∙ e))

-- What is written is a zlib stream of the data: reading it back gives the data, for data of any
-- length, and takes no more steps than the loop that wrote it.
pub zlib_read-zlib_wrap_stored :
    (raw : Str) → zlib_read (suc (length raw)) (zlib_wrap_stored raw) ≡ some raw
unfolding zlib_read zlib_wrap_stored
zlib_read-zlib_wrap_stored raw =
    ap read_trailer (
      inflate_stored-stored_blocks (suc (length raw)) max_block raw (big_endian_32 (adler_32 raw))
        (omega arith) (omega arith) (omega arith))
    ∙ read_trailer-big_endian_32 raw
