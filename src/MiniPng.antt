-- ===== src/MiniPng.antt =====
-- source/thumbnails/MiniPng.h, over lists of bytes: `ZlibWrapStored` and `Adler32` here, `Write` in Png.
pub mod Inflate
pub mod Adler
pub mod Zlib
pub mod Png
pub mod Pixels
pub mod Reader
mod Tests
use idtx_core.Base.{
  ℕ, zero, suc, ◌+◌, ◌-◌, ◌*◌, ◌/◌, ◌%◌, ◌^◌, Bool, List, [], ◌∷◌, ◌++◌, Str, length, take, drop,
  leb, if◌then◌else◌,
}

-- `kMax`
abbrev pub max_block : ℕ
max_block = 65535

-- LEN and its complement NLEN, each with its low byte first; both have sixteen bits.
unfoldable pub lengths : ℕ → Str
lengths chunk =
    let len = chunk % 65536 in
    let nlen = 65535 - len in
    (len % 256) ∷ (len / 256 % 256) ∷ (nlen % 256) ∷ (nlen / 256 % 256) ∷ []

-- The loop on what remains of the data, with blocks of at most `max` bytes; the first argument is
-- the fuel.
unfoldable pub stored_blocks : ℕ → ℕ → Str → Str
stored_blocks zero max raw = []
stored_blocks (suc fuel) max raw =
    let rest = stored_blocks fuel max (drop max raw) in
    let chunk = take max raw in
    if leb (length raw) max
    then 1 ∷ (lengths (length raw) ++ raw)
    else 0 ∷ (lengths max ++ (chunk ++ rest))

abbrev pub adler_modulus : ℕ
adler_modulus = 65521

-- The loop of `Adler32` from the sums `a` and `b` on.
unfoldable pub adler_from : ℕ → ℕ → Str → ℕ
adler_from a b [] = b * 65536 + a
adler_from a b (c ∷ s) =
    adler_from ((a + c) % adler_modulus) ((b + (a + c) % adler_modulus) % adler_modulus) s

unfoldable pub adler_32 : Str → ℕ
adler_32 s = adler_from 1 0 s

unfoldable pub big_endian_32 : ℕ → Str
big_endian_32 x = (x / 16777216 % 256) ∷ (x / 65536 % 256) ∷ (x / 256 % 256) ∷ (x % 256) ∷ []

unfoldable pub zlib_wrap_stored : Str → Str
zlib_wrap_stored raw =
    120 ∷ 1 ∷ (stored_blocks (suc (length raw)) max_block raw ++ big_endian_32 (adler_32 raw))
