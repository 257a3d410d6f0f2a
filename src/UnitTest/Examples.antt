-- ===== src/UnitTest/Examples.antt =====
-- Doubles, and the first of the tests, at concrete values.
use c2r.Common.{ℕ, ◌≡◌, refl, List, [], ◌∷◌, ◌++◌, true, false, none, pos, length, arith}
use c2r.Os.Script.{peer, eager, eager_link, eager-Prompt}
use c2r.Os.Link.{Runs}
use c2r.Server.{Vars, replies}
use c2r.Session.{requests}
use c2r.UnitTest.{one, two, six, run_test}
use c2r.UnitTest.Interpreter.{interpreter, interpreter-HasPrograms, interpreter-MakesNamed}
use c2r.UnitTest.Calls.{HasNames, calls_of}
use c2r.UnitTest.Doubles.{doubles, double_bits, log2, chars, differs, any_differs, any_nan, is_nan}
use c2r.UnitTest.Passes.{run_test-passes}

-- 10.0 and 20.0
ten_and_twenty :
    doubles 2 0 ≡ 0 ∷ 0 ∷ 0 ∷ 0 ∷ 0 ∷ 0 ∷ 36 ∷ 64 ∷ 0 ∷ 0 ∷ 0 ∷ 0 ∷ 0 ∷ 0 ∷ 52 ∷ 64 ∷ []
unfolding double_bits log2
ten_and_twenty = refl

abbrev nan : List ℕ
nan = 10 ∷ 0 ∷ 0 ∷ 0 ∷ 0 ∷ 0 ∷ 240 ∷ 127 ∷ []

nan_differs : any_differs 1 nan nan ≡ true
unfolding any_differs differs is_nan
nan_differs = refl

abbrev zeros : List ℕ
zeros = 0 ∷ 0 ∷ 0 ∷ 0 ∷ 0 ∷ 0 ∷ 0 ∷ []

abbrev none_yet : Vars
none_yet name = none

not_nan : any_nan 1 (chars 1 0 ++ zeros) ≡ false
unfolding any_nan is_nan
not_nan = refl

names : HasNames interpreter
names = record {
  vec_f8_symbol = omega arith;
  some_vec_symbol = omega arith;
  x_symbol = omega arith;
  programs = interpreter-HasPrograms;
  named = interpreter-MakesNamed;
}

abbrev formulas : List ℕ
formulas = requests (calls_of six 1)

test6_once :
    Runs
      (eager_link (pos 3))
      (run_test eager (pos 3) 1 six)
      (peer (replies interpreter (length formulas) none_yet formulas ++ 99 ∷ []) 0)
      tt
      (99 ∷ [])
      ([] ++ formulas)
test6_once =
    run_test-passes (eager_link (pos 3)) interpreter names (eager-Prompt (pos 3)) refl six 1
      none_yet tt (record { left_lem = refl; sent_lem = refl })

-- test2 with two rounds
abbrev texts : List ℕ
texts = requests (calls_of two 2)

test2_twice :
    Runs
      (eager_link (pos 3))
      (run_test eager (pos 3) 2 two)
      (peer (replies interpreter (length texts) none_yet texts ++ 99 ∷ []) 0)
      tt
      (99 ∷ [])
      ([] ++ texts)
test2_twice =
    run_test-passes (eager_link (pos 3)) interpreter names (eager-Prompt (pos 3)) refl two 2
      none_yet tt (record { left_lem = refl; sent_lem = refl })

abbrev bytes : List ℕ
bytes = requests (calls_of (one 1 zeros) 2)

run_test-passes_example :
    Runs
      (eager_link (pos 3))
      (run_test eager (pos 3) 2 (one 1 zeros))
      (peer (replies interpreter (length bytes) none_yet bytes ++ 99 ∷ []) 0)
      tt
      (99 ∷ [])
      ([] ++ bytes)
run_test-passes_example =
    run_test-passes (eager_link (pos 3)) interpreter names (eager-Prompt (pos 3)) refl (one 1 zeros)
      2 none_yet (omega arith, omega arith, refl, not_nan)
      (record { left_lem = refl; sent_lem = refl })
