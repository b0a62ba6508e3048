-- ===== src/Base/Keyed.antt =====
-- Finite maps (`std::unordered_map`) as functions from keys, and the bytes of a `std::string`.
use Prim.Native.Nat.{ℕ}
use Prim.Native.Char.{code}
use Prim.Native.String.{String}
use mathlib.Core.Path.{◌≡◌}
use mathlib.Core.Logic.{◌≢◌, ite, if_pos, if_neg}
use mathlib.Core.Option.{Option, none, some}
use mathlib.Core.List.{List, [], ◌∷◌}
unfoldable use native.Mathlib.Decide.{ℕ_discrete}

-- A `std::string` is the list of its bytes.
abbrev pub Str : Type 0
Str = List ℕ

-- The bytes of an ASCII text.
abbrev pub codes : String → Str
codes String.[] = []
codes (String.◌∷◌ c s) = code c ∷ codes s

unfoldable pub Str-discrete : Discrete Str
Str-discrete = hlevel ℕ_discrete

abbrev pub get_or {ℓ} : {A : Type ℓ} → Option A → A → A
get_or none d = d
get_or (some a) d = a

-- Write one entry of a map given by its lookups.
abbrev pub update {ℓ κ} : {K : Type ℓ} {V : Type κ} → Discrete K → (K → V) → K → V → K → V
update d f k v j = ite (d k j) v (f j)

module _ {ℓ κ} {K : Type ℓ} {V : Type κ} (d : Discrete K) (f : K → V) (k : K) (v : V) (j : K) where
  pub update_same : k ≡ j → update d f k v j ≡ v
  update_same e = if_pos (d k j) e v (f j)

  pub update_other : k ≢ j → update d f k v j ≡ f j
  update_other ne = if_neg (d k j) ne v (f j)
