-- ===== src/MiniPng/Adler.antt =====
-- The checksum of source/thumbnails/MiniPng.h is the one that RFC 1950 defines.
use idtx_core.Base.{ℕ, ◌+◌, ◌*◌, ◌%◌, ◌^◌, ◌<◌, ◌≡◌, refl, [], ◌∷◌, Str, arith}
use mathlib.Core.Path.{subst⁻¹}
use idtx_core.MiniPng.{adler_modulus, adler_from, adler_32}

-- The two sums of RFC 1950, without any reduction: of the bytes, and of the first sums.
unfoldable pub sums : ℕ → ℕ → Str → ℕ × ℕ
sums a b [] = (a, b)
sums a b (c ∷ s) = sums (a + c) (b + (a + c)) s

-- RFC 1950: both sums modulo 65521, the second in the high half of 32 bits.
unfoldable pub checksum : Str → ℕ
checksum s = let (a, b) = sums 1 0 s in (b % adler_modulus) * 65536 + a % adler_modulus

adler_from-sums :
    (a b : ℕ) (s : Str)
    → adler_from (a % adler_modulus) (b % adler_modulus) s
      ≡ ((sums a b s).1 % adler_modulus) * 65536 + (sums a b s).0 % adler_modulus
unfolding adler_from sums
adler_from-sums a b [] = refl
adler_from-sums a b (c ∷ s) =
    let ea : (a % 65521 + c) % 65521 ≡ (a + c) % 65521 = omega arith in
    let eb : (b % 65521 + (a + c) % 65521) % 65521 ≡ (b + (a + c)) % 65521 = omega arith in
    rw (ea, eb) (adler_from-sums (a + c) (b + (a + c)) s)

halves : (a b : ℕ) → (b % adler_modulus) * 65536 + a % adler_modulus < 2 ^ 32
halves a b = omega arith

-- Reducing the sums in every step, as the code does, gives the checksum of the unreduced sums; it
-- fits 32 bits.
pub adler_32-checksum : (s : Str) → (adler_32 s ≡ checksum s) × (adler_32 s < 2 ^ 32)
unfolding adler_32 checksum
adler_32-checksum s =
    let e : adler_32 s ≡ checksum s = adler_from-sums 1 0 s in
    (e, subst⁻¹ (λ n. n < 2 ^ 32) e (halves (sums 1 0 s).0 (sums 1 0 s).1))
