-- ===== src/Common/Signed.antt =====
-- Signed integers over the native numbers. An `int` that the program only compares, hands on or
-- returns is a ℤ; `int_of` is the conversion of an unsigned value to a 32-bit `int`.
use c2r.Common.Tests.{ltb, leb, ◌==◌, if◌then◌else◌}
use Prim.Native.Nat.{ℕ, ◌+◌, ◌-◌, ◌%◌, ◌^◌, ◌<◌}
use mathlib.Core.Path.{◌≡◌}
use mathlib.Core.Bool.{Bool, true, false}
use native.Mathlib.Omega.{arith}

-- `negsuc n` is -(n + 1).
pub data ℤ : Type 0 where
  pos : ℕ → ℤ
  negsuc : ℕ → ℤ

abbrev pub is_neg : ℤ → Bool
is_neg (pos n) = false
is_neg (negsuc n) = true

-- `x <= 0`
abbrev pub is_nonpos : ℤ → Bool
is_nonpos (pos n) = n == 0
is_nonpos (negsuc n) = true

-- The bit pattern of `x` in `w` bits.
abbrev pub word_of : ℕ → ℤ → ℕ
word_of w (pos n) = n % 2 ^ w
word_of w (negsuc n) = 2 ^ w - 1 - n % 2 ^ w

-- `(int)x`, for an unsigned `x`
abbrev pub int_of : ℕ → ℤ
int_of x = let low = x % 2 ^ 32 in if ltb low (2 ^ 31) then pos low else negsuc (2 ^ 32 - low - 1)

-- `a - b`, for a constant `b`
abbrev pub sub_nat : ℤ → ℕ → ℤ
sub_nat (pos n) b = if leb b n then pos (n - b) else negsuc (b - n - 1)
sub_nat (negsuc n) b = negsuc (n + b)

abbrev pub eq_int : ℤ → ℤ → Bool
eq_int (pos a) (pos b) = a == b
eq_int (pos a) (negsuc b) = false
eq_int (negsuc a) (pos b) = false
eq_int (negsuc a) (negsuc b) = a == b

pub int_of-small : (x : ℕ) → x < 2 ^ 31 → int_of x ≡ pos x
int_of-small x h = ground arith
