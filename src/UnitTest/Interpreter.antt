-- ===== src/UnitTest/Interpreter.antt =====
-- A small R that evaluates the texts of the tests, besides those of Server/Simple.
use c2r.Common.{
  ℕ, ◌%◌, ◌^◌, ◌<◌, ◌≡◌, refl, ap, ◌∙◌, ◌++◌, List, [], ◌++◌, Option, none, some, Bool, true, false,
  take, drop, length, word32, le32, codes, bytes_eq, ◌==◌, if◌then◌else◌, arith,
}
use mathlib.Core.Option
use c2r.Flags.Replies.{assignment}
use c2r.Frame.{call_text}
use c2r.Wire.{pack}
use c2r.Wire.Constants.{xt_array_double, xt_array_int}
use c2r.Wire.DtString.{pack_fields}
use c2r.GetVec.Stored.{Number, f8, i4, Held, IsHeld, sexp_of, value_of, elem_number}
use c2r.Server.{Vars, Evaluator, assign, logical_sexp, text_sexp, class_of}
use c2r.Server.Simple.{
  IsWord, split, split_word, split-IsWord, value_word, eval, eval_variable, eval-assignment,
  eval_exists, eval_length, eval_class,
}
use c2r.UnitTest.Programs.{
  name_x, fn_result, class_function, formula_text, class_formula, double_123_456,
}
use c2r.UnitTest.Named.{named_sexp, MakesNamed}
use c2r.UnitTest.Texts.{string_sexp, HasPrograms}

-- a function and a formula as values: XT_CLOS and XT_LANG_NOTAG with no data
abbrev closure : List ℕ
closure = le32 18

abbrev formula : List ℕ
formula = le32 22

abbrev has_type : ℕ → Option (List ℕ) → Bool
has_type xt none = false
has_type xt (some sexp) = word32 sexp 0 % 256 == xt

abbrev assigned : Vars → List ℕ → List ℕ → Vars × Option (List ℕ)
assigned vars name sexp = (assign vars name sexp, some sexp)

abbrev class_value : Vars → Vars × Option (List ℕ) → Bool → Bool → Vars × Option (List ℕ)
class_value vars result is_closure is_formula =
    if is_closure
    then (vars, some (string_sexp class_function 3))
    else if is_formula
    then (vars, some (string_sexp class_formula 0))
    else result

abbrev class_result : Vars → List ℕ → Vars × Option (List ℕ) → Vars × Option (List ℕ)
class_result vars name result =
    class_value vars result (has_type 18 (vars name)) (has_type 22 (vars name))

-- the texts of the tests; `result` is what others evaluate to
abbrev with_programs : Vars → List ℕ × List ℕ → Vars × Option (List ℕ) → Vars × Option (List ℕ)
with_programs vars p result =
    if bytes_eq p.1 (codes " = 123.456")
    then assigned vars p.0 (sexp_of f8 double_123_456)
    else if bytes_eq p.1 (codes " = as.integer(123456)")
    then assigned vars p.0 (sexp_of i4 (le32 123456))
    else if bytes_eq p.1 (codes " <- function(n) { print(paste('hello world', n+1)) }")
    then assigned vars p.0 closure
    else if bytes_eq p.1 (codes " = \"" ++ (formula_text ++ codes "\""))
    then assigned vars p.0 (string_sexp formula_text 1)
    else if bytes_eq p.1 (codes " = as.formula(frmla)")
    then assigned vars p.0 formula
    else if bytes_eq p.1 (codes " x <- c(a = 1.23, bc = 4.56, def = 7.89, ghij = 1111)")
    then assigned vars name_x named_sexp
    else if bytes_eq (take 1 p.1) (codes "(")
    then (if bytes_eq p.0 (codes "class")
        then class_result vars (split (drop 1 p.1)).0 result
        else if bytes_eq p.0 (codes "f")
        then (vars, Option.map (λ value. string_sexp fn_result 1) (vars p.0))
        else result)
    else result

abbrev run_text : Vars → List ℕ → Vars × Option (List ℕ)
run_text vars text = with_programs vars (split text) (eval vars text)

pub run_variable :
    (vars : Vars) (name sexp : List ℕ)
    → IsWord name
    → vars name ≡ some sexp
    → run_text vars name ≡ (vars, some sexp)
run_variable vars name sexp h e =
    ap (λ p. with_programs vars p (eval vars name)) (split_word name h)
    ∙ eval_variable vars name sexp h e

pub run-assignment :
    (vars : Vars) (name : List ℕ) (x : Bool)
    → IsWord name
    → run_text vars (assignment name x) ≡ (assign vars name (logical_sexp x), some (logical_sexp x))
run-assignment vars name true h =
    ap (λ p. with_programs vars p (eval vars (assignment name true)))
      (split-IsWord name (codes "<- TRUE ") 32 h (omega arith))
    ∙ eval-assignment vars name true h
run-assignment vars name false h =
    ap (λ p. with_programs vars p (eval vars (assignment name false)))
      (split-IsWord name (codes "<- FALSE ") 32 h (omega arith))
    ∙ eval-assignment vars name false h

low_byte : (h : Held) (xt : ℕ) → IsHeld h → xt < 32 → has_type xt (some (value_of h)) ≡ false
low_byte h xt is small =
    ap (λ w. w % 256 == xt) (value_word h)
    ∙ of_number h.type (length h.bytes) (omega (arith, is.small))
  where
    of_number :
        (t : Number) (len : ℕ) → len < 2 ^ 24 → (pack len (elem_number t).xt % 256 == xt) ≡ false
    of_number f8 len fits = rw (pack_fields len xt_array_double fits (omega arith)).0 (ground arith)
    of_number i4 len fits = rw (pack_fields len xt_array_int fits (omega arith)).0 (ground arith)

pub run_class :
    (vars : Vars) (name : List ℕ) (h : Held)
    → IsWord name
    → IsHeld h
    → vars name ≡ some (value_of h)
    → run_text vars (call_text (codes "class") name) ≡ (vars, some (text_sexp (class_of h.type)))
run_class vars name h word is e =
    let result = eval vars (call_text (codes "class") name) in
    ap (λ p. class_result vars p.0 result) (split-IsWord name [] 41 word (omega arith))
    ∙ ap (λ x. class_value vars result (has_type 18 x) (has_type 22 x)) e
    ∙ ap (λ b. class_value vars result b (has_type 22 (some (value_of h))))
        (low_byte h 18 is (omega arith))
    ∙ ap (class_value vars result false) (low_byte h 22 is (omega arith))
    ∙ eval_class vars name h word is e

abbrev pub interpreter : Evaluator
interpreter = record {
  IsSymbol = IsWord;
  eval = run_text;
  eval_lem = run_variable;
  assign_lem = run-assignment;
  exists_lem = eval_exists;
  length_lem = eval_length;
  class_lem = run_class;
}

pub interpreter-HasPrograms : HasPrograms interpreter
interpreter-HasPrograms = record {
  y_symbol = omega arith;
  function_lem = λ vars. refl;
  hello_lem = λ vars. refl;
  frmla_lem = λ vars. refl;
  formula_lem = λ vars. refl;
  double_lem = λ vars. refl;
  integer_lem = λ vars. refl;
}

pub interpreter-MakesNamed : MakesNamed interpreter
interpreter-MakesNamed = record { symbol = omega arith; named_lem = λ vars. refl }
