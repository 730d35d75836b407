-- ===== src/Base/Word.antt =====
-- 64-bit and 32-bit unsigned words with their wrap-around: `std::size_t`, `std::uint64_t`.
use Prim.Native.Nat.{ℕ, ◌+◌, ◌-◌, ◌*◌, ◌%◌, ◌^◌, ◌≤◌, ◌<◌}
use mathlib.Core.Path.{◌≡◌}
use native.Mathlib.Omega.{arith}

abbrev pub modulus64 : ℕ
modulus64 = 2 ^ 64

abbrev pub max64 : ℕ
max64 = 2 ^ 64 - 1

-- `a + b`, `a - b` and `a * b` of two words.
unfoldable pub add64 : ℕ → ℕ → ℕ
add64 a b = (a + b) % 2 ^ 64

unfoldable pub sub64 : ℕ → ℕ → ℕ
sub64 a b = (a + 2 ^ 64 - b) % 2 ^ 64

unfoldable pub mul64 : ℕ → ℕ → ℕ
mul64 a b = (a * b) % 2 ^ 64

pub add64_exact : (a b : ℕ) → a + b < modulus64 → add64 a b ≡ a + b
unfolding add64
add64_exact a b h = omega arith

pub sub64_exact : (a b : ℕ) → b ≤ a → a < modulus64 → sub64 a b ≡ a - b
unfolding sub64
sub64_exact a b h k = omega arith

pub mul64_exact : (a b : ℕ) → a * b < modulus64 → mul64 a b ≡ a * b
unfolding mul64
mul64_exact a b h = omega arith

pub add64-lt : (a b : ℕ) → add64 a b < modulus64
unfolding add64
add64-lt a b = omega arith
