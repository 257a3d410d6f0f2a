-- ===== src/UnitTest/Doubles.antt =====
-- Doubles in memory, as the tests of test/unit_test_1.c make and compare them: 64 bits of IEEE 754,
-- lowest byte first.
use c2r.Common.{
  ℕ, zero, suc, ◌+◌, ◌-◌, ◌*◌, ◌/◌, ◌%◌, ◌^◌, ◌≡◌, refl, List, [], ◌∷◌, ◌++◌, Bool, false, not,
  ◌&&◌, ◌||◌, length, take, drop, get_or, replicate, bytes_eq, bytes_eq_self, arith, ◌==◌, ltb,
  if◌then◌else◌, length-replicate,
}

-- the exponent of a natural number that is not 0
unfoldable pub log2 : ℕ → ℕ → ℕ
log2 zero n = 0
log2 (suc fuel) n = let rest = log2 fuel (n / 2) in if ltb n 2 then 0 else 1 + rest

-- the bits of a natural number below 2^53
unfoldable pub double_bits : ℕ → ℕ
double_bits zero = 0
double_bits n = let e = log2 53 n in (1023 + e) * 2 ^ 52 + (n - 2 ^ e) * 2 ^ (52 - e)

abbrev le64 : ℕ → List ℕ
le64 w =
    w % 256
    ∷ w / 2 ^ 8 % 256
    ∷ w / 2 ^ 16 % 256
    ∷ w / 2 ^ 24 % 256
    ∷ w / 2 ^ 32 % 256
    ∷ w / 2 ^ 40 % 256
    ∷ w / 2 ^ 48 % 256
    ∷ w / 2 ^ 56 % 256
    ∷ []

-- `xF8[i] = 10*(i+1)` for k elements from the i-th on, into an array of doubles and into one of chars
abbrev pub doubles : ℕ → ℕ → List ℕ
doubles zero i = []
doubles (suc k) i = le64 (double_bits (10 * (i + 1))) ++ doubles k (i + 1)

abbrev pub chars : ℕ → ℕ → List ℕ
chars zero i = []
chars (suc k) i = 10 * (i + 1) % 256 ∷ chars k (i + 1)

-- n doubles of value 0
abbrev pub zero_doubles : ℕ → List ℕ
zero_doubles n = replicate (n * 8) 0

-- all bits of the exponent, and one of the mantissa at least
unfoldable pub is_nan : List ℕ → Bool
is_nan x =
    (get_or x 7 0 % 128 == 127)
    && (get_or x 6 0 / 16 == 15)
    && not ((get_or x 6 0 % 16 == 0) && bytes_eq (take 6 x) (replicate 6 0))

unfoldable pub is_zero : List ℕ → Bool
is_zero x = (get_or x 7 0 % 128 == 0) && bytes_eq (take 7 x) (replicate 7 0)

-- `x != y`
unfoldable pub differs : List ℕ → List ℕ → Bool
differs x y = is_nan x || is_nan y || not (bytes_eq x y || (is_zero x && is_zero y))

-- the loop over the n doubles of two arrays, up to the first that differ
unfoldable pub any_differs : ℕ → List ℕ → List ℕ → Bool
any_differs zero xs ys = false
any_differs (suc n) xs ys = differs (take 8 xs) (take 8 ys) || any_differs n (drop 8 xs) (drop 8 ys)

-- An array holds a NaN.
unfoldable pub any_nan : ℕ → List ℕ → Bool
any_nan zero xs = false
any_nan (suc n) xs = is_nan (take 8 xs) || any_nan n (drop 8 xs)

-- An array of doubles is the same as itself but for a NaN, which differs from itself.
pub any_differs_self : (n : ℕ) (xs : List ℕ) → any_differs n xs xs ≡ any_nan n xs
unfolding any_differs any_nan differs
any_differs_self zero xs = refl
any_differs_self (suc n) xs =
    ground (arith, bytes_eq_self (take 8 xs), any_differs_self n (drop 8 xs))

pub length-doubles : (k i : ℕ) → length (doubles k i) ≡ k * 8
length-doubles zero i = omega arith
length-doubles (suc k) i = omega (arith, length-doubles k (i + 1))

pub length-chars : (k i : ℕ) → length (chars k i) ≡ k
length-chars zero i = refl
length-chars (suc k) i = omega (arith, length-chars k (i + 1))

pub length-zero_doubles : (n : ℕ) → length (zero_doubles n) ≡ n * 8
length-zero_doubles n = length-replicate (n * 8) 0
