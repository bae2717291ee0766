-- ===== src/Base/Words.antt =====
-- Unsigned machine words: a value is a native number, and each operation writes its wrap-around.
use Prim.Native.Nat.{ℕ, ◌+◌, ◌-◌, ◌*◌, ◌%◌, ◌≤◌, min}
use mathlib.Core.Path.{◌≡◌}
use native.Mathlib.Omega.{arith}

abbrev pub u64_max : ℕ
u64_max = 18446744073709551615

abbrev pub IsU64 : ℕ → Type 0
IsU64 n = n ≤ u64_max

-- The release build does not check for overflow: `+` and `-` on `u64` wrap.
unfoldable pub add_u64 : ℕ → ℕ → ℕ
add_u64 a b = (a + b) % 18446744073709551616

unfoldable pub sub_u64 : ℕ → ℕ → ℕ
sub_u64 a b = (a + 18446744073709551616 - b) % 18446744073709551616

unfoldable pub mul_u64 : ℕ → ℕ → ℕ
mul_u64 a b = (a * b) % 18446744073709551616

-- `saturating_add`, `saturating_sub`, `saturating_mul`
unfoldable pub saturating_add : ℕ → ℕ → ℕ
saturating_add a b = min (a + b) u64_max

abbrev pub saturating_sub : ℕ → ℕ → ℕ
saturating_sub a b = a - b

unfoldable pub saturating_mul : ℕ → ℕ → ℕ
saturating_mul a b = min (a * b) u64_max

pub add_u64_lem : (a b : ℕ) → a + b ≤ u64_max → add_u64 a b ≡ a + b
unfolding add_u64
add_u64_lem a b h = omega arith

pub sub_u64_lem : (a b : ℕ) → b ≤ a → IsU64 a → sub_u64 a b ≡ a - b
unfolding sub_u64
sub_u64_lem a b h k = omega arith

pub saturating_add_lem : (a b : ℕ) → a + b ≤ u64_max → saturating_add a b ≡ a + b
unfolding saturating_add
saturating_add_lem a b h = omega arith

pub saturating_mul_lem : (a b : ℕ) → a * b ≤ u64_max → saturating_mul a b ≡ a * b
unfolding saturating_mul
saturating_mul_lem a b h = omega arith
