-- ===== src/Base/Numbers.antt =====
-- Machine words: `std::uint64_t` and `std::size_t` are numbers below 2 ^ 64.
use Prim.Native.Nat.{ℕ, ◌+◌, ◌%◌, ◌^◌, ◌≤◌, ◌<◌}
use mathlib.Core.Path.{◌≡◌}
use native.Mathlib.Omega.{arith}

unfoldable pub u64 : ℕ → ℕ
u64 n = n % 2 ^ 64

pub u64_small : (n : ℕ) → n < 2 ^ 64 → u64 n ≡ n
unfolding u64
u64_small n h = omega arith

-- Numbers of a range no longer than the modulus are told apart by their remainders.
pub mod_inj : (c r p q : ℕ) → r ≤ p → p < r + c → r ≤ q → q < r + c → p % c ≡ q % c → p ≡ q
mod_inj c r p q a b d e h = grind arith
