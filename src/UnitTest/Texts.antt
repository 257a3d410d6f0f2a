-- ===== src/UnitTest/Texts.antt =====
-- What R makes of the texts of the tests, and the calls of the tests that have R run them.
use c2r.Common.{
  ℕ, zero, suc, ◌%◌, ◌≡◌, refl, sym, ap, inl, inr, List, [], ◌∷◌, ◌++◌, some, none, pos, negsuc,
  length, le32, codes, replicate, arith,
}
use c2r.Wire.{pack}
use c2r.Wire.Constants.{xt_array_str}
use c2r.GetVec.Stored.{f8, i4, Held, IsHeld, sexp_of}
use c2r.Server.{Vars, Evaluator}
use c2r.Session.{
  Call, Result, Does, command, run, load_one, value, number, DoesAll, over, next, commands, runs,
  loads_one,
}
use c2r.UnitTest.Programs.{
  name_y, fn_define, fn_execute, fn_class_in, fn_result, class_function, y_double, y_integer,
  double_123_456, name_frmla, load_library, formula_text, str_frmla, compile_frmla, frmla_class_in,
  class_formula,
}

-- the data of an array of one string, with `pad` bytes of padding, and the word in front
abbrev pub string_data : List ℕ → ℕ → List ℕ
string_data text pad = text ++ 0 ∷ replicate pad 1

abbrev pub string_word : List ℕ → ℕ → ℕ
string_word text pad = pack (length (string_data text pad)) xt_array_str

abbrev pub string_sexp : List ℕ → ℕ → List ℕ
string_sexp text pad = le32 (string_word text pad) ++ string_data text pad

abbrev pub after_text : Evaluator → Vars → List ℕ → Vars
after_text r vars text = (r.eval vars text).0

-- the variables of R in a round of test6: with the formula's text, and with the formula
abbrev pub with_frmla : Evaluator → Vars → Vars
with_frmla r vars = after_text r (after_text r vars load_library) str_frmla

abbrev pub with_compiled : Evaluator → Vars → Vars
with_compiled r vars = after_text r (with_frmla r vars) compile_frmla

-- Once R has run the text that defines f, f is a function, and f(10) has its value; once it has run
-- one of the texts that assign to y, y is that number. The text of test6 is a string, of which R makes a
-- formula.
pub record HasPrograms (r : Evaluator) : Type 0 where
  pub y_symbol : r.IsSymbol name_y
  pub function_lem :
      (vars : Vars)
      → let after = after_text r vars fn_define in
        r.eval after fn_class_in ≡ (after, some (string_sexp class_function 3))
  pub hello_lem :
      (vars : Vars)
      → let after = after_text r vars fn_define in
        r.eval after fn_execute ≡ (after, some (string_sexp fn_result 1))
  pub frmla_lem :
      (vars : Vars)
      → let after = with_frmla r vars in
        r.eval after name_frmla ≡ (after, some (string_sexp formula_text 1))
  pub formula_lem :
      (vars : Vars)
      → let after = with_compiled r vars in
        r.eval after frmla_class_in ≡ (after, some (string_sexp class_formula 0))
  pub double_lem :
      (vars : Vars) → after_text r vars y_double name_y ≡ some (sexp_of f8 double_123_456)
  pub integer_lem :
      (vars : Vars) → after_text r vars y_integer name_y ≡ some (sexp_of i4 (le32 123456))

abbrev pub calls2 : ℕ → List Call
calls2 zero = []
calls2 (suc k) =
    command fn_define
    ∷ run fn_class_in (pos xt_array_str)
    ∷ run fn_class_in (pos xt_array_str)
    ∷ run fn_execute (pos xt_array_str)
    ∷ calls2 k

abbrev pub calls6 : ℕ → List Call
calls6 zero = []
calls6 (suc k) =
    command load_library
    ∷ command str_frmla
    ∷ run name_frmla (pos xt_array_str)
    ∷ command compile_frmla
    ∷ run frmla_class_in (pos xt_array_str)
    ∷ run frmla_class_in (pos xt_array_str)
    ∷ calls6 k

abbrev pub calls8 : ℕ → List Call
calls8 zero = []
calls8 (suc k) = command y_double ∷ load_one name_y f8 ∷ calls8 k

abbrev pub calls8_i4 : ℕ → List Call
calls8_i4 zero = []
calls8_i4 (suc k) =
    command y_integer ∷ run (codes "class(y)") (negsuc 0) ∷ load_one name_y i4 ∷ calls8_i4 k

abbrev pub integer_y : Held
integer_y = record { name = name_y; type = i4; n = 1; bytes = le32 123456 }

pub integer_y-IsHeld : IsHeld integer_y
integer_y-IsHeld = record { some_elements = omega arith; size = refl; small = omega arith }

pub class_typed : string_word class_function 3 % 256 ≡ xt_array_str
unfolding pack
class_typed = refl

pub result_typed : string_word fn_result 1 % 256 ≡ xt_array_str
unfolding pack
result_typed = refl

pub frmla_typed : string_word formula_text 1 % 256 ≡ xt_array_str
unfolding pack
frmla_typed = refl

pub formula_typed : string_word class_formula 0 % 256 ≡ xt_array_str
unfolding pack
formula_typed = refl

-- the variables and the results after a list of calls
pub record Plays (r : Evaluator) (vars : Vars) (cs : List Call) : Type 0 where
  pub after : Vars
  pub results : List Result
  pub does : DoesAll r vars cs after results

module _ (r : Evaluator) (programs : HasPrograms r) where
  abbrev pub plays2 : (k : ℕ) (vars : Vars) → Plays r vars (calls2 k)
  plays2 zero vars = record { after = vars; results = []; does = over }
  plays2 (suc k) vars =
      let after = after_text r vars fn_define in
      let rest = plays2 k after in
      let class = value (some (string_data class_function 3)) in
      let w = string_word class_function 3 in
      record {
        after = rest.after;
        results =
            value none ∷ class ∷ class ∷ value (some (string_data fn_result 1)) ∷ rest.results;
        does = next (commands fn_define (omega arith, omega arith)) (
            next
              (runs fn_class_in (string_data class_function 3) (pos xt_array_str) w
                (omega arith, omega arith) (programs.function_lem vars) (omega arith)
                (inr (ap pos (sym class_typed))))
              (next
                (runs fn_class_in (string_data class_function 3) (pos xt_array_str) w
                  (omega arith, omega arith) (programs.function_lem vars) (omega arith)
                  (inr (ap pos (sym class_typed))))
                (next
                  (runs fn_execute (string_data fn_result 1) (pos xt_array_str)
                    (string_word fn_result 1) (omega arith, omega arith) (programs.hello_lem vars)
                    (omega arith) (inr (ap pos (sym result_typed))))
                  rest.does)));
      }

  abbrev pub plays6 : (k : ℕ) (vars : Vars) → Plays r vars (calls6 k)
  plays6 zero vars = record { after = vars; results = []; does = over }
  plays6 (suc k) vars =
      let rest = plays6 k (with_compiled r vars) in
      let class = value (some (string_data class_formula 0)) in
      let after = with_compiled r vars in
      let asks : Does r after (run frmla_class_in (pos xt_array_str)) after class =
        runs frmla_class_in (string_data class_formula 0) (pos xt_array_str)
          (string_word class_formula 0) (omega arith, omega arith) (programs.formula_lem vars)
          (omega arith) (inr (ap pos (sym formula_typed))) in
      record {
        after = rest.after;
        results =
            value none
            ∷ value none
            ∷ value (some (string_data formula_text 1))
            ∷ value none
            ∷ class
            ∷ class
            ∷ rest.results;
        does = next (commands load_library (omega arith, omega arith)) (
            next (commands str_frmla (omega arith, omega arith)) (
              next
                (runs name_frmla (string_data formula_text 1) (pos xt_array_str)
                  (string_word formula_text 1) (omega arith, omega arith) (programs.frmla_lem vars)
                  (omega arith) (inr (ap pos (sym frmla_typed))))
                (next (commands compile_frmla (omega arith, omega arith))
                  (next asks (next asks rest.does)))));
      }

  abbrev pub plays8 : (k : ℕ) (vars : Vars) → Plays r vars (calls8 k)
  plays8 zero vars = record { after = vars; results = []; does = over }
  plays8 (suc k) vars =
      let rest = plays8 k (after_text r vars y_double) in
      record {
        after = rest.after;
        results = value none ∷ number double_123_456 ∷ rest.results;
        does = next (commands y_double (omega arith, omega arith)) (
            next
              (loads_one f8 name_y double_123_456 refl (omega arith, omega arith) programs.y_symbol
                (programs.double_lem vars))
              rest.does);
      }

  abbrev pub plays8_i4 : (k : ℕ) (vars : Vars) → Plays r vars (calls8_i4 k)
  plays8_i4 zero vars = record { after = vars; results = []; does = over }
  plays8_i4 (suc k) vars =
      let after = after_text r vars y_integer in
      let rest = plays8_i4 k after in
      record {
        after = rest.after;
        results =
            value none
            ∷ value (some (string_data (codes "integer") 0))
            ∷ number (le32 123456)
            ∷ rest.results;
        does = next (commands y_integer (omega arith, omega arith)) (
            next
              (runs (codes "class(y)") (string_data (codes "integer") 0) (negsuc 0)
                (string_word (codes "integer") 0) (omega arith, omega arith)
                (r.class_lem after name_y integer_y programs.y_symbol integer_y-IsHeld
                  (programs.integer_lem vars))
                (omega arith) (inl refl))
              (next
                (loads_one i4 name_y (le32 123456) refl (omega arith, omega arith) programs.y_symbol
                  (programs.integer_lem vars))
                rest.does));
      }
