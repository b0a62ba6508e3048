-- ===== src/MiniPng/Inflate.antt =====
-- Reading back what `ZlibWrapStored` of source/thumbnails/MiniPng.h writes, by the rules of RFC
-- 1951 for blocks that are stored without compression.
use idtx_core.Base.{
  ℕ, zero, suc, ◌+◌, ◌-◌, ◌*◌, ◌/◌, ◌%◌, ◌≤◌, ◌<◌, ◌≡◌, refl, ap, sym, ◌∙◌, true, ◌&&◌, Option,
  none, some, [], ◌∷◌, ◌++◌, Str, length, take, drop, leb, ◌==◌, if◌then◌else◌, arith, Bool-cases,
  inl, inr, length-append,
}
use mathlib.Core.Option
use mathlib.Core.List.{append_assoc}
use idtx_core.MiniPng.{lengths, stored_blocks}

-- The data of the blocks and the bytes behind the last one; `none` where the bytes are no stored
-- blocks. The first argument is the fuel.
unfoldable pub inflate_stored : ℕ → Str → Option (Str × Str)
inflate_stored (suc fuel) (header ∷ l0 ∷ l1 ∷ n0 ∷ n1 ∷ s) =
    let len = l0 + 256 * l1 in
    let rest = inflate_stored fuel (drop len s) in
    if leb len (length s) && (n0 + 256 * n1 == 65535 - len)
    then if header == 1
      then some (take len s, drop len s)
      else if header == 0
      then Option.map (λ p. (take len s ++ p.0, p.1)) rest
      else none
    else none
inflate_stored _ _ = none

pub take-exact : (s t : Str) → take (length s) (s ++ t) ≡ s
take-exact [] t = refl
take-exact (c ∷ s) t = ap (λ x. c ∷ x) (take-exact s t)

pub drop-exact : (s t : Str) → drop (length s) (s ++ t) ≡ t
drop-exact [] t = refl
drop-exact (c ∷ s) t = drop-exact s t

pub take-drop : (n : ℕ) (s : Str) → take n s ++ drop n s ≡ s
take-drop zero s = refl
take-drop (suc n) [] = refl
take-drop (suc n) (c ∷ s) = ap (λ x. c ∷ x) (take-drop n s)

pub length-take_le : (n : ℕ) (s : Str) → n ≤ length s → length (take n s) ≡ n
length-take_le zero s h = refl
length-take_le (suc n) [] h = elim h [ ]
length-take_le (suc n) (c ∷ s) h = ap suc (length-take_le n s (omega arith))

pub length-drop : (n : ℕ) (s : Str) → length (drop n s) ≡ length s - n
length-drop zero s = omega arith
length-drop (suc n) [] = omega arith
length-drop (suc n) (c ∷ s) = omega (arith, length-drop n s)

two_bytes : (n : ℕ) → n ≤ 65535 → n % 65536 % 256 + 256 * (n % 65536 / 256 % 256) ≡ n
two_bytes n h = omega arith

complement :
    (n : ℕ)
    → n ≤ 65535
    → ((65535 - n % 65536) % 256 + 256 * ((65535 - n % 65536) / 256 % 256) == 65535 - n) ≡ true
complement n h = ground arith

pub leb-append : (s t : Str) → leb (length s) (length (s ++ t)) ≡ true
leb-append s t = ground (arith, length-append s t)

-- A block is read back as its data.
inflate_stored-last :
    (fuel : ℕ) (s t : Str)
    → length s ≤ 65535
    → inflate_stored (suc fuel) (1 ∷ (lengths (length s) ++ (s ++ t))) ≡ some (s, t)
unfolding inflate_stored lengths
inflate_stored-last fuel s t h = rw (
  two_bytes (length s) h,
  complement (length s) h,
  leb-append s t,
  take-exact s t,
  drop-exact s t,
)

inflate_stored-more :
    (fuel n : ℕ) (s t : Str)
    → length s ≡ n
    → n ≤ 65535
    → inflate_stored (suc fuel) (0 ∷ (lengths n ++ (s ++ t)))
      ≡ Option.map (λ p. (s ++ p.0, p.1)) (inflate_stored fuel t)
unfolding inflate_stored lengths
inflate_stored-more fuel n s t e h = rw (
  sym e,
  two_bytes (length s) (omega arith),
  complement (length s) (omega arith),
  leb-append s t,
  take-exact s t,
  drop-exact s t,
)

rejoined :
    (max : ℕ) (raw t : Str)
    → Option.map {A = Str × Str} {B = Str × Str}
        (λ p. (take max raw ++ p.0, p.1))
        (some (drop max raw, t))
      ≡ some (raw, t)
rejoined max raw t = ap {B = Option (Str × Str)} (λ s. some (s, t)) (take-drop max raw)

-- With more fuel than there are bytes, the blocks are read back as the data, and nothing of what
-- follows them is lost; the blocks may hold any number of bytes from 1 to 65535.
pub inflate_stored-stored_blocks :
    (fuel max : ℕ) (raw t : Str)
    → 0 < max
    → max ≤ 65535
    → length raw < fuel
    → inflate_stored fuel (stored_blocks fuel max raw ++ t) ≡ some (raw, t)
unfolding stored_blocks lengths
inflate_stored-stored_blocks zero max raw t pos le lt = elim lt [ ]
inflate_stored-stored_blocks (suc fuel) max raw t pos le lt =
    elim (Bool-cases (leb (length raw) max)) [
      | inl small ↦ rw small (inflate_stored-last fuel raw t (ground arith))
      | inr large ↦
          let rest = stored_blocks fuel max (drop max raw) in
          let again : inflate_stored fuel (rest ++ t) ≡ some (drop max raw, t) =
            inflate_stored-stored_blocks fuel max (drop max raw) t pos le
              (ground (arith, length-drop max raw)) in
          rw (large, append_assoc (take max raw) rest t)
            (inflate_stored-more fuel max (take max raw) (rest ++ t)
                (length-take_le max raw (ground arith)) le
              ∙ ap (Option.map (λ p. (take max raw ++ p.0, p.1))) again
              ∙ rejoined max raw t)
    ]
