-- ===== src/UnitTest/Programs.antt =====
-- test/unit_test_1.c: five of the tests that have R run texts of their own.
use c2r.Common.{
  ℕ, zero, suc, List, [], ◌∷◌, Option, none, some, true, false, not, ◌++◌, ◌-◌, ◌*◌, take, drop,
  replicate, ℤ, pos, negsuc, length, le32, codes, bytes_eq, c_string, ◌==◌,
}
use c2r.Os.{Os}
use c2r.Os.Actions.{M, bad, pure, reject, non_null, deref, ◌>>=◌, ◌>>◌}
use c2r.Wire.Constants.{xt_array_str}
use c2r.Client.{exec_str}
use c2r.Query.{ignore_status}
use c2r.Frame.{chk_r_class}
use c2r.Scalar.{get_f8, get_i4}
use c2r.NamedVec.{NamedOut, get_named_vec_f8}
use c2r.UnitTest.Doubles.{differs}

abbrev pub name_y : List ℕ
name_y = codes "y"

abbrev pub name_f : List ℕ
name_f = codes "f"

abbrev pub fn_define : List ℕ
fn_define = codes "f <- function(n) { print(paste('hello world', n+1)) }"

abbrev pub fn_execute : List ℕ
fn_execute = codes "f(10)"

abbrev pub fn_class_in : List ℕ
fn_class_in = codes "class(f)"

abbrev pub fn_result : List ℕ
fn_result = codes "hello world 11"

abbrev pub class_function : List ℕ
class_function = codes "function"

abbrev pub y_double : List ℕ
y_double = codes "y = 123.456"

abbrev pub y_integer : List ℕ
y_integer = codes "y = as.integer(123456)"

-- the double nearest to 123.456, 0x405EDD2F1A9FBE77
abbrev pub double_123_456 : List ℕ
double_123_456 = 119 ∷ 190 ∷ 159 ∷ 26 ∷ 47 ∷ 221 ∷ 94 ∷ 64 ∷ []

abbrev pub name_frmla : List ℕ
name_frmla = codes "frmla"

abbrev pub name_compiled : List ℕ
name_compiled = codes "compiled_frmla"

abbrev pub load_library : List ℕ
load_library = codes "library(mgcv)"

-- the text of the formula, between quotes in `str_frmla`
abbrev pub formula_text : List ℕ
formula_text =
    codes "demand ~ s(xxx, bs = 're') + offset(yyy) + "
    ++ (codes " day1 + day2 + s(zzz, bs = 'cc', k = 25) + " ++ codes " s(www, by = n_ind) ")

abbrev pub str_frmla : List ℕ
str_frmla = codes "frmla = \"" ++ (formula_text ++ codes "\"")

abbrev pub compile_frmla : List ℕ
compile_frmla = codes "compiled_frmla = as.formula(frmla)"

abbrev pub frmla_class_in : List ℕ
frmla_class_in = codes "class(compiled_frmla)"

abbrev pub class_formula : List ℕ
class_formula = codes "formula"

abbrev pub name_x : List ℕ
name_x = codes "x"

abbrev pub str_mk_vec : List ℕ
str_mk_vec = codes " x <- c(a = 1.23, bc = 4.56, def = 7.89, ghij = 1111)"

-- the nearest doubles to 1.23, 4.56, 7.89, and 1111
abbrev pub double_1_23 : List ℕ
double_1_23 = 174 ∷ 71 ∷ 225 ∷ 122 ∷ 20 ∷ 174 ∷ 243 ∷ 63 ∷ []

abbrev pub double_4_56 : List ℕ
double_4_56 = 61 ∷ 10 ∷ 215 ∷ 163 ∷ 112 ∷ 61 ∷ 18 ∷ 64 ∷ []

abbrev pub double_7_89 : List ℕ
double_7_89 = 143 ∷ 194 ∷ 245 ∷ 40 ∷ 92 ∷ 143 ∷ 31 ∷ 64 ∷ []

abbrev pub double_1111 : List ℕ
double_1111 = 0 ∷ 0 ∷ 0 ∷ 0 ∷ 0 ∷ 92 ∷ 145 ∷ 64 ∷ []

abbrev pub len_of_output : Option (List ℕ) → ℕ
len_of_output none = 0
len_of_output (some exec_out) = length exec_out

module _ (os : Os) where
  open os use {State}

  -- `exec_out == NULL`, and `strcmp(exec_out, text) != 0`
  unfoldable pub check_text : Option (List ℕ) → List ℕ → M State (Unit {0})
  check_text out text = do
    exec_out ← non_null out
    found ← deref (c_string exec_out)
    reject (not (bytes_eq found text)) bad
    pure tt

  unfoldable pub test2_loop : ℤ → ℕ → M State (Unit {0})
  test2_loop sock zero = pure tt
  test2_loop sock (suc k) = do
    defined ← exec_str os sock (some fn_define) false (negsuc 0)
    out ← ignore_status (exec_str os sock (some fn_class_in) true (pos xt_array_str))
    check_text out class_function
    same ← chk_r_class os sock (some name_f) (some class_function)
    reject (not same) bad
    out ← exec_str os sock (some fn_execute) true (pos xt_array_str)
    reject (not (len_of_output out == 16)) bad
    check_text out fn_result
    test2_loop sock k

  unfoldable pub test6_loop : ℤ → ℕ → M State (Unit {0})
  test6_loop sock zero = pure tt
  test6_loop sock (suc k) = do
    loaded ← exec_str os sock (some load_library) false (negsuc 0)
    defined ← exec_str os sock (some str_frmla) false (negsuc 0)
    out ← ignore_status (exec_str os sock (some name_frmla) true (pos xt_array_str))
    exec_out ← non_null out
    compiled ← exec_str os sock (some compile_frmla) false (negsuc 0)
    out ← ignore_status (exec_str os sock (some frmla_class_in) true (pos xt_array_str))
    check_text out class_formula
    same ← chk_r_class os sock (some name_compiled) (some class_formula)
    reject (not same) bad
    test6_loop sock k

  -- `dvals[i] != x`
  unfoldable pub check_double : List ℕ → ℕ → List ℕ → M State (Unit {0})
  check_double dvals i x = do reject (differs (take 8 (drop (8 * i) dvals)) x) bad; pure tt

  -- `strcmp(key_blob + i, text) != 0`; the array is all zeros behind the names.
  unfoldable pub check_key : NamedOut → ℕ → List ℕ → M State (Unit {0})
  check_key out i text = do
    let key_blob = out.key_blob ++ replicate (1024 - length out.key_blob) 0
    found ← deref (c_string (drop i key_blob))
    reject (not (bytes_eq found text)) bad
    pure tt

  -- `sizeof(dvals)` is 32.
  unfoldable pub test7_loop : ℤ → ℕ → M State (Unit {0})
  test7_loop sock zero = pure tt
  test7_loop sock (suc k) = do
    made ← exec_str os sock (some str_mk_vec) false (negsuc 0)
    out ← get_named_vec_f8 os sock (some name_x) 1024 32
    reject (not (out.n_vals == 4)) bad
    check_double out.vals 0 double_1_23
    check_double out.vals 1 double_4_56
    check_double out.vals 2 double_7_89
    check_double out.vals 3 double_1111
    reject (not (out.n_key_blob == 16)) bad
    check_key out 0 (codes "a")
    check_key out 2 (codes "bc")
    check_key out 5 (codes "def")
    check_key out 9 (codes "ghij")
    test7_loop sock k

  unfoldable pub test8_loop : ℤ → ℕ → M State (Unit {0})
  test8_loop sock zero = pure tt
  test8_loop sock (suc k) = do
    done ← exec_str os sock (some y_double) false (negsuc 0)
    yval ← get_f8 os sock (some name_y)
    reject (differs yval double_123_456) bad
    test8_loop sock k

  -- The class is not tested for NULL.
  unfoldable pub test8_i4_loop : ℤ → ℕ → M State (Unit {0})
  test8_i4_loop sock zero = pure tt
  test8_i4_loop sock (suc k) = do
    done ← exec_str os sock (some y_integer) false (negsuc 0)
    out ← exec_str os sock (some (codes "class(y)")) true (negsuc 0)
    exec_out ← deref out
    found ← deref (c_string exec_out)
    reject (not (bytes_eq found (codes "integer"))) bad
    yval ← get_i4 os sock (some name_y)
    reject (not (bytes_eq yval (le32 123456))) bad
    test8_i4_loop sock k
