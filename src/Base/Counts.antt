-- ===== src/Base/Counts.antt =====
-- How often a number occurs in a list.
use Prim.Native.Nat.{ℕ, ◌+◌}
use mathlib.Core.Path.{◌≡◌}
use mathlib.Core.List.{List, [], ◌∷◌, ◌++◌}
use native.Mathlib.Omega.{arith}
use idtx_core.Base.Tests.{◌==◌, if◌then◌else◌}

abbrev pub occurs : ℕ → ℕ → ℕ
occurs c d = if c == d then 1 else 0

abbrev pub count : ℕ → List ℕ → ℕ
count c [] = 0
count c (d ∷ ds) = occurs c d + count c ds

pub count-append : (c : ℕ) (ds es : List ℕ) → count c (ds ++ es) ≡ count c ds + count c es
count-append c [] es = omega arith
count-append c (d ∷ ds) es = omega (arith, count-append c ds es)

pub count-snoc : (c : ℕ) (ds : List ℕ) (d : ℕ) → count c (ds ++ d ∷ []) ≡ count c ds + occurs c d
count-snoc c ds d = omega (arith, count-append c ds (d ∷ []))
