-- ===== src/UnitTest/Calls.antt =====
-- The calls of each test, and what they do to R's variables.
use c2r.Common.{
  ℕ, zero, suc, ◌+◌, ◌*◌, ◌%◌, ◌^◌, ◌<◌, ◌≡◌, refl, List, [], ◌∷◌, ◌++◌, false, pos, length, ◌==◌,
  arith, length-append,
}
use c2r.GetVec.Stored.{f8, Held, IsHeld, value_of}
use c2r.GetVec.Store.{out_of}
use c2r.Server.Reads.{IsText}
use c2r.Server.{Vars, Evaluator, assign, logical_sexp, is_some}
use c2r.Session.{
  done, vector, flag, count, Call, store, load, set_flag, get_flag, bound1, bound2, len_of, over,
  next, stores, loads, sets, gets, finds1, finds2, counts,
}
use c2r.UnitTest.Named.{MakesNamed, calls7, plays7}
use c2r.UnitTest.Texts.{
  HasPrograms, Plays, calls2, calls6, plays6, calls8, calls8_i4, plays2, plays8, plays8_i4,
}
use c2r.UnitTest.{Test, one, two, six, seven, eight, eight_i4, four, five, nine, vec_f8, some_vec}
use c2r.UnitTest.Programs.{name_x}
use c2r.UnitTest.Doubles.{
  any_nan, chars, doubles, zero_doubles, length-chars, length-doubles, length-zero_doubles,
}

-- The three names are names to R, and the texts of the other tests are what they are meant to be.
pub record HasNames (r : Evaluator) : Type 0 where
  pub vec_f8_symbol : r.IsSymbol vec_f8
  pub some_vec_symbol : r.IsSymbol some_vec
  pub x_symbol : r.IsSymbol name_x
  pub programs : HasPrograms r
  pub named : MakesNamed r

abbrev pub doubles_of : List ℕ → ℕ → List ℕ → Held
doubles_of name n bytes = record { name = name; type = f8; n = n; bytes = bytes }

pub doubles_of-IsHeld :
    (name : List ℕ) (n : ℕ) (bytes : List ℕ)
    → 0 < n
    → n < 2 ^ 20
    → length bytes ≡ n * 8
    → IsHeld (doubles_of name n bytes)
doubles_of-IsHeld name n bytes h0 h e = record { some_elements = h0; size = e; small = omega arith }

-- the calls of the tests, round by round
abbrev pub calls1 : ℕ → List ℕ → ℕ → List Call
calls1 n bytes zero = []
calls1 n bytes (suc k) = store (doubles_of vec_f8 n bytes) [] ∷ load vec_f8 f8 ∷ calls1 n bytes k

abbrev pub calls4 : ℕ → ℕ → List Call
calls4 zero i = []
calls4 (suc k) i = set_flag name_x (i % 2 == 0) ∷ get_flag name_x ∷ calls4 k (i + 1)

abbrev pub calls5_loop : ℕ → List Call
calls5_loop zero = []
calls5_loop (suc k) = bound1 some_vec ∷ bound2 some_vec ∷ calls5_loop k

abbrev pub calls5 : ℕ → List Call
calls5 niters = store (doubles_of some_vec 1024 (doubles 1024 0)) [] ∷ calls5_loop niters

abbrev pub calls9 : ℕ → List ℕ → ℕ → List Call
calls9 n bytes zero = []
calls9 n bytes (suc k) = store (doubles_of vec_f8 n bytes) [] ∷ len_of vec_f8 ∷ calls9 n bytes k

pub vec_f8-IsText : IsText vec_f8
vec_f8-IsText = (omega arith, omega arith)

pub some_vec-IsText : IsText some_vec
some_vec-IsText = (omega arith, omega arith)

pub name_x-IsText : IsText name_x
name_x-IsText = (omega arith, omega arith)

pub data5-IsHeld : IsHeld (doubles_of some_vec 1024 (doubles 1024 0))
data5-IsHeld =
    doubles_of-IsHeld some_vec 1024 (doubles 1024 0) (omega arith) (omega arith)
      (length-doubles 1024 0)

abbrev pub calls_of : Test → ℕ → List Call
calls_of (one n junk) niters = calls1 n (chars n 0 ++ junk) niters
calls_of four niters = calls4 niters 0
calls_of five niters = calls5 niters
calls_of two niters = calls2 niters
calls_of six niters = calls6 niters
calls_of seven niters = calls7 niters
calls_of eight niters = calls8 niters
calls_of eight_i4 niters = calls8_i4 niters
calls_of (nine n) niters = calls9 n (zero_doubles n) niters

-- The vector has one element at least and less than 2^20; the array of the first test is full, and no
-- double that it happens to hold is a NaN.
abbrev pub IsFit : Test → Type 0
IsFit (one n junk) =
    (0 < n) × (n < 2 ^ 20) × (length junk ≡ n * 7) × (any_nan n (chars n 0 ++ junk) ≡ false)
IsFit four = Unit
IsFit five = Unit
IsFit two = Unit
IsFit six = Unit
IsFit seven = Unit
IsFit eight = Unit
IsFit eight_i4 = Unit
IsFit (nine n) = (0 < n) × (n < 2 ^ 20)

pub one-IsHeld :
    (n : ℕ) (junk : List ℕ) → IsFit (one n junk) → IsHeld (doubles_of vec_f8 n (chars n 0 ++ junk))
one-IsHeld n junk fit =
    let full : length (chars n 0 ++ junk) ≡ n * 8 =
      omega (arith, length-append (chars n 0) junk, length-chars n 0, fit.2) in
    doubles_of-IsHeld vec_f8 n (chars n 0 ++ junk) fit.0 fit.1 full

pub nine-IsHeld : (n : ℕ) → IsFit (nine n) → IsHeld (doubles_of vec_f8 n (zero_doubles n))
nine-IsHeld n fit = doubles_of-IsHeld vec_f8 n (zero_doubles n) fit.0 fit.1 (length-zero_doubles n)

module _ (r : Evaluator) (names : HasNames r) where
  abbrev pub plays1 :
      (n : ℕ) (bytes : List ℕ)
      → IsHeld (doubles_of vec_f8 n bytes)
      → (k : ℕ) (vars : Vars) → Plays r vars (calls1 n bytes k)
  plays1 n bytes is zero vars = record { after = vars; results = []; does = over }
  plays1 n bytes is (suc k) vars =
      let h = doubles_of vec_f8 n bytes in
      let rest = plays1 n bytes is k (assign vars vec_f8 (value_of h)) in
      record {
        after = rest.after;
        results = done ∷ vector (out_of h) ∷ rest.results;
        does =
            next (stores h [] is (omega arith) vec_f8-IsText)
              (next (loads h vec_f8 is vec_f8-IsText names.vec_f8_symbol refl) rest.does);
      }

  abbrev pub plays4 : (k i : ℕ) (vars : Vars) → Plays r vars (calls4 k i)
  plays4 zero i vars = record { after = vars; results = []; does = over }
  plays4 (suc k) i vars =
      let x = i % 2 == 0 in
      let rest = plays4 k (i + 1) (assign vars name_x (logical_sexp x)) in
      record {
        after = rest.after;
        results = done ∷ flag x ∷ rest.results;
        does =
            next (sets name_x x name_x-IsText.0 (omega arith) names.x_symbol)
              (next (gets name_x x name_x-IsText names.x_symbol refl) rest.does);
      }

  abbrev pub plays5_loop : (k : ℕ) (vars : Vars) → Plays r vars (calls5_loop k)
  plays5_loop zero vars = record { after = vars; results = []; does = over }
  plays5_loop (suc k) vars =
      let rest = plays5_loop k vars in
      let found = flag (is_some (vars some_vec)) in
      record {
        after = rest.after;
        results = found ∷ found ∷ rest.results;
        does = next (finds1 some_vec some_vec-IsText.0 (omega arith) names.some_vec_symbol) (
            next (finds2 some_vec some_vec-IsText.0 (omega arith) names.some_vec_symbol) rest.does);
      }

  abbrev pub plays5 : (k : ℕ) (vars : Vars) → Plays r vars (calls5 k)
  plays5 k vars =
      let h = doubles_of some_vec 1024 (doubles 1024 0) in
      let rest = plays5_loop k (assign vars some_vec (value_of h)) in
      record {
        after = rest.after;
        results = done ∷ rest.results;
        does = next (stores h [] data5-IsHeld (omega arith) some_vec-IsText) rest.does;
      }

  abbrev pub plays9 :
      (n : ℕ) (bytes : List ℕ)
      → IsHeld (doubles_of vec_f8 n bytes)
      → (k : ℕ) (vars : Vars) → Plays r vars (calls9 n bytes k)
  plays9 n bytes is zero vars = record { after = vars; results = []; does = over }
  plays9 n bytes is (suc k) vars =
      let h = doubles_of vec_f8 n bytes in
      let rest = plays9 n bytes is k (assign vars vec_f8 (value_of h)) in
      record {
        after = rest.after;
        results = done ∷ count (pos n) ∷ rest.results;
        does = next (stores h [] is (omega arith) vec_f8-IsText) (
            next (counts h vec_f8 is vec_f8-IsText.0 (omega arith) names.vec_f8_symbol refl)
              rest.does);
      }

  abbrev pub plays :
      (t : Test) (niters : ℕ) (vars : Vars) → IsFit t → Plays r vars (calls_of t niters)
  plays (one n junk) niters vars fit =
      plays1 n (chars n 0 ++ junk) (one-IsHeld n junk fit) niters vars
  plays four niters vars fit = plays4 niters 0 vars
  plays five niters vars fit = plays5 niters vars
  plays two niters vars fit = plays2 r names.programs niters vars
  plays six niters vars fit = plays6 r names.programs niters vars
  plays seven niters vars fit = plays7 r names.named niters vars
  plays eight niters vars fit = plays8 r names.programs niters vars
  plays eight_i4 niters vars fit = plays8_i4 r names.programs niters vars
  plays (nine n) niters vars fit = plays9 n (zero_doubles n) (nine-IsHeld n fit) niters vars
