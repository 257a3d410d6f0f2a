-- ===== src/UnitTest.antt =====
-- test/unit_test_1.c: nine of its tests; Programs has those that have R run texts of their own. A test
-- ends with a value where it returns 0.
pub mod Calls
pub mod Doubles
pub mod Interpreter
pub mod Named
pub mod Passes
pub mod Programs
pub mod Rounds
pub mod Says
pub mod Texts
pub mod Examples
use c2r.Common.{
  ℕ, zero, suc, ◌+◌, ◌*◌, ◌%◌, ◌^◌, List, [], ◌∷◌, ◌++◌, some, Bool, true, false, not, ℤ, pos,
  eq_int, codes, ◌==◌, if◌then◌else◌,
}
use c2r.Os.{Os}
use c2r.Os.Actions.{M, bad, pure, crash, call, reject, c_bye, non_null, ◌>>=◌, ◌>>◌}
use c2r.SetVec.{set_vec}
use c2r.GetVec.{get_vec}
use c2r.VecLen.{get_vec_len}
use c2r.Flags.{get_bool, set_bool}
use c2r.Exists.{exists1, exists2}
use c2r.UnitTest.Programs.{name_x, test2_loop, test6_loop, test7_loop, test8_loop, test8_i4_loop}
use c2r.UnitTest.Doubles.{chars, doubles, zero_doubles, any_differs}

abbrev pub vec_f8 : List ℕ
vec_f8 = codes "vecF8"

abbrev pub some_vec : List ℕ
some_vec = codes "some_vec"

abbrev pub same_bool : Bool → Bool → Bool
same_bool true y = y
same_bool false y = not y

-- the tests, with the size of the vector, and what `malloc` left in the array of the first
pub data Test : Type 0 where
  one : ℕ → List ℕ → Test
  two four five six seven eight eight_i4 : Test
  nine : ℕ → Test

module _ (os : Os) where
  open os use {State, malloc}

  -- the array of doubles; what `malloc` returns is not tested
  pub new_f8 : ℕ → List ℕ → M State (List ℕ)
  new_f8 n bytes = do done ← call (malloc (n * 8 % 2 ^ 64)); if done then pure bytes else crash

  pub test1_loop : ℤ → ℕ → List ℕ → ℕ → M State (Unit {0})
  test1_loop sock n x_f8 zero = pure tt
  test1_loop sock n x_f8 (suc k) = do
    set_vec os sock (some vec_f8) (some (codes "F8")) (some x_f8) n 0
    out ← get_vec os sock (some vec_f8) (some (codes "F8"))
    c_bye out.status
    reject (not (eq_int (pos n) out.n)) bad
    chk_x_f8 ← non_null out.bytes
    reject (any_differs n x_f8 chk_x_f8) bad
    test1_loop sock n x_f8 k

  -- The array is a `char *`: the values go into the first n bytes, and `junk` is what the others hold.
  pub test1 : ℤ → ℕ → ℕ → List ℕ → M State (Unit {0})
  test1 sock n niters junk = do x_f8 ← new_f8 n (chars n 0 ++ junk); test1_loop sock n x_f8 niters

  pub test4_loop : ℤ → ℕ → ℕ → M State (Unit {0})
  test4_loop sock zero i = pure tt
  test4_loop sock (suc k) i = do
    let x = i % 2 == 0
    set_bool os sock (some name_x) x
    y ← get_bool os sock (some name_x)
    reject (not (same_bool x y)) bad
    test4_loop sock k (i + 1)

  unfoldable pub test4 : ℤ → ℕ → M State (Unit {0})
  test4 sock niters = test4_loop sock niters 0

  pub test5_loop : ℤ → ℕ → M State (Unit {0})
  test5_loop sock zero = pure tt
  test5_loop sock (suc k) = do
    x ← exists1 os sock (some some_vec)
    reject (not x) bad
    x ← exists2 os sock (some some_vec)
    reject (not x) bad
    test5_loop sock k

  pub test5 : ℤ → ℕ → M State (Unit {0})
  test5 sock niters = do
    x_f8 ← new_f8 1024 (doubles 1024 0)
    set_vec os sock (some some_vec) (some (codes "F8")) (some x_f8) 1024 0
    test5_loop sock niters

  pub test9_loop : ℤ → ℕ → List ℕ → ℕ → M State (Unit {0})
  test9_loop sock n x_f8 zero = pure tt
  test9_loop sock n x_f8 (suc k) = do
    set_vec os sock (some vec_f8) (some (codes "F8")) (some x_f8) n 0
    chk_n ← get_vec_len os sock (some vec_f8)
    reject (not (eq_int (pos n) chk_n)) bad
    test9_loop sock n x_f8 k

  pub test9 : ℤ → ℕ → ℕ → M State (Unit {0})
  test9 sock n niters = do x_f8 ← new_f8 n (zero_doubles n); test9_loop sock n x_f8 niters

  unfoldable pub run_test : ℤ → ℕ → Test → M State (Unit {0})
  run_test sock niters (one n junk) = test1 sock n niters junk
  run_test sock niters four = test4 sock niters
  run_test sock niters five = test5 sock niters
  run_test sock niters two = test2_loop os sock niters
  run_test sock niters six = test6_loop os sock niters
  run_test sock niters seven = test7_loop os sock niters
  run_test sock niters eight = test8_loop os sock niters
  run_test sock niters eight_i4 = test8_i4_loop os sock niters
  run_test sock niters (nine n) = test9 sock n niters
