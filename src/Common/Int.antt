-- ===== src/Common/Int.antt =====
-- `long int` and `int64_t` values. Both are 64 bits wide on the platforms of the build files (LP64).
use Prim.Native.Nat.{ℕ, zero, suc, ◌-◌, ◌^◌, ◌≤◌}

-- `negsuc n` is -(n + 1).
pub data ℤ : Type 0 where
  pos : ℕ → ℤ
  negsuc : ℕ → ℤ

-- LONG_MAX
abbrev pub long_max : ℕ
long_max = 2 ^ 63 - 1

-- `-value` of a value that is not negative.
abbrev pub negate : ℕ → ℤ
negate zero = pos 0
negate (suc n) = negsuc n

-- The integers whose absolute value is a `long int`: all of them but LONG_MIN.
abbrev pub IsSymmetric : ℤ → Type 0
IsSymmetric (pos n) = n ≤ long_max
IsSymmetric (negsuc n) = suc n ≤ long_max
