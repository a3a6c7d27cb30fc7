-- ===== src/Prelude/Words.antt =====
-- `uint64_t` arithmetic, and `int` keys.
use Prim.Native.Nat.{ℕ, ◌+◌, ◌-◌, ◌*◌, ◌%◌, ◌^◌, ◌<◌}
use mathlib.Core.Path.{◌≡◌}
use native.Mathlib.Omega.{arith}

abbrev pub u64_mod : ℕ
u64_mod = 2 ^ 64

abbrev pub add64 : ℕ → ℕ → ℕ
add64 a b = (a + b) % u64_mod

abbrev pub sub64 : ℕ → ℕ → ℕ
sub64 a b = (a + u64_mod - b) % u64_mod

abbrev pub mul64 : ℕ → ℕ → ℕ
mul64 a b = a * b % u64_mod

-- An `int` is kept as its distance from `INT_MIN`, so that the order of `int` is that of ℕ.
-- `int_of_u64` is the conversion of a `uint64_t` to `int`, `u64_of_int` the one back.
unfoldable pub int_of_u64 : ℕ → ℕ
int_of_u64 n = (n + 2 ^ 31) % 2 ^ 32

unfoldable pub u64_of_int : ℕ → ℕ
u64_of_int k = (k + u64_mod - 2 ^ 31) % u64_mod

pub u64_of_int-int_of_u64 : (n : ℕ) → n < 2 ^ 31 → u64_of_int (int_of_u64 n) ≡ n
unfolding u64_of_int int_of_u64
u64_of_int-int_of_u64 n h = omega arith

pub u64_of_int-injective : (j k : ℕ) → j < 2 ^ 32 → k < 2 ^ 32 → u64_of_int j ≡ u64_of_int k → j ≡ k
unfolding u64_of_int
u64_of_int-injective j k hj hk e = omega arith

pub int_of_u64-lt : (n : ℕ) → int_of_u64 n < 2 ^ 32
unfolding int_of_u64
int_of_u64-lt n = omega arith
