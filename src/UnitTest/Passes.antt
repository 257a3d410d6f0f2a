-- ===== src/UnitTest/Passes.antt =====
-- The tests pass with a server that reads the bytes they send.
use c2r.Common.{
  ℕ, zero, suc, ◌+◌, ◌*◌, ◌%◌, ◌^◌, ◌<◌, ◌≡◌, refl, ap, subst, ◌∙◌, List, [], ◌++◌, some, Bool,
  true, false, not, ℤ, pos, is_nonpos, eq_int, length, codes, arith, append_assoc, append-nil, ◌==◌,
}
use c2r.Os.{Os}
use c2r.Os.Actions.{bad}
use c2r.Os.Link.{Link, At, Prompt, Runs, Runs-bind, Runs-pure, Runs-pass, Runs-guard}
use c2r.Query.Replies.{is_neg-nonpos}
use c2r.SetVec.{set_vec}
use c2r.GetVec.Stored.{IsHeld, value_of}
use c2r.GetVec.Store.{Runs-put, Runs-get}
use c2r.Server.{Vars, Evaluator, assign, replies, logical_sexp}
use c2r.Wire.{phdr_bytes}
use c2r.GetVec.Stored.{f8}
use c2r.Server.{ack, is_some}
use c2r.Session.{bound1, bound2, len_of, set_flag, get_flag, request_of, requests, store, load}
use c2r.Session.Answers.{length-requests}
use c2r.Session.Reads.{Runs-set_flag, Runs-get_flag, Runs-exists, Runs-len}
use c2r.Session.Values.{answers, replies-answers}
use c2r.UnitTest.Says.{append_three, At-first}
use c2r.UnitTest.Named.{Runs-test7_loop}
use c2r.UnitTest.Rounds.{Runs-test2_loop, Runs-test6_loop, Runs-test8_loop, Runs-test8_i4_loop}
use c2r.UnitTest.{
  Test, one, two, six, eight, eight_i4, four, five, nine, run_test, vec_f8, some_vec, same_bool,
  new_f8, test1_loop, test1, test4_loop, test4, test5_loop, test5, test9_loop, test9, seven,
}
use c2r.UnitTest.Programs.{name_x}
use c2r.Client.Transfer.{Runs-malloc}
use c2r.UnitTest.Calls.{
  IsFit, calls_of, one-IsHeld, nine-IsHeld, plays, HasNames, doubles_of, calls1, calls4,
  calls5_loop, calls9, plays1, plays4, plays5_loop, plays9, data5-IsHeld,
}
use c2r.UnitTest.Doubles.{chars, doubles, zero_doubles, any_nan, any_differs_self}

same_bool_self : (x : Bool) → not (same_bool x x) ≡ false
same_bool_self true = refl
same_bool_self false = refl

same_int : (n : ℕ) → not (eq_int (pos n) (pos n)) ≡ false
same_int n = ground arith

module _ {os : Os} {sock : ℤ} (link : Link os sock) (r : Evaluator) (names : HasNames r)
    (prompt : Prompt link) (fd : is_nonpos sock ≡ false) where
  Runs-test4_loop :
      {s : os.State} {left sent : List ℕ} (k i : ℕ) (vars : Vars)
      → At link s (answers (plays4 r names k i vars).does ++ left) sent
      → Runs link (test4_loop os sock k i) s tt left (sent ++ requests (calls4 k i))
  unfolding test4_loop
  Runs-test4_loop {sent} zero i vars at = rw append-nil (Runs-pure link tt at)
  Runs-test4_loop {s} {left} {sent} (suc k) i vars at =
      let short : length name_x < 2 ^ 30 = omega arith in
      let x = i % 2 == 0 in
      let vars' = assign vars name_x (logical_sexp x) in
      let rest = answers (plays4 r names k (i + 1) vars').does in
      rw
        (append_three sent (request_of (set_flag name_x x)) (request_of (get_flag name_x))
          (requests (calls4 k (i + 1))))
        (Runs-bind link _
          (Runs-set_flag link name_x x _ (is_neg-nonpos sock fd) (omega arith)
            (At-first link _ _ left at))
          λ s1 at1.
            Runs-bind link _ (Runs-get_flag link name_x x _ fd short (At-first link _ _ left at1))
              λ s2 at2.
                Runs-guard link bad _ (same_bool_self x)
                  (Runs-test4_loop {s = s2} k (i + 1) vars' at2))

  Runs-set_doubles :
      {s : os.State} {sent : List ℕ} (name : List ℕ) (n : ℕ) (bytes left : List ℕ)
      → IsHeld (doubles_of name n bytes)
      → 0 < length name
      → length name < 2 ^ 28
      → At link s (phdr_bytes ack ++ left) sent
      → Runs link
          (set_vec os sock (some name) (some (codes "F8")) (some bytes) n 0)
          s
          tt
          left
          (sent ++ request_of (store (doubles_of name n bytes) []))
  Runs-set_doubles {s} {sent} name n bytes left is h h' at =
      subst
        (λ buf.
          Runs link (set_vec os sock (some name) (some (codes "F8")) (some buf) n 0) s tt left
            (sent ++ request_of (store (doubles_of name n bytes) [])))
        (append-nil bytes)
        (Runs-put link (doubles_of name n bytes) [] (is_neg-nonpos sock fd) is h h' at)

  Runs-test1_loop :
      {s : os.State} {left sent : List ℕ} (n : ℕ) (bytes : List ℕ)
      (is : IsHeld (doubles_of vec_f8 n bytes)) (k : ℕ) (vars : Vars)
      → any_nan n bytes ≡ false
      → At link s (answers (plays1 r names n bytes is k vars).does ++ left) sent
      → Runs link (test1_loop os sock n bytes k) s tt left (sent ++ requests (calls1 n bytes k))
  unfolding test1_loop
  Runs-test1_loop {sent} n bytes is zero vars no_nan at = rw append-nil (Runs-pure link tt at)
  Runs-test1_loop {s} {left} {sent} n bytes is (suc k) vars no_nan at =
      let short : length vec_f8 < 2 ^ 30 = omega arith in
      let h = doubles_of vec_f8 n bytes in
      let vars' = assign vars vec_f8 (value_of h) in
      rw
        (append_three sent (request_of (store h [])) (request_of (load vec_f8 f8))
          (requests (calls1 n bytes k)))
        (Runs-bind link _
          (Runs-set_doubles vec_f8 n bytes _ is (omega arith) (omega arith)
            (At-first link _ _ left at))
          λ s1 at1.
            Runs-bind link _
              (Runs-get link h vec_f8 prompt (is_neg-nonpos sock fd) short is
                (At-first link _ _ left at1))
              λ s2 at2. Runs-guard link (pos 0) _ refl (
                Runs-guard link bad _ (same_int n) (
                  Runs-pass link bytes _ (
                    Runs-guard link bad _ (any_differs_self n bytes ∙ no_nan)
                      (Runs-test1_loop {s = s2} n bytes is k vars' no_nan at2)))))

  Runs-test9_loop :
      {s : os.State} {left sent : List ℕ} (n : ℕ) (bytes : List ℕ)
      (is : IsHeld (doubles_of vec_f8 n bytes)) (k : ℕ) (vars : Vars)
      → At link s (answers (plays9 r names n bytes is k vars).does ++ left) sent
      → Runs link (test9_loop os sock n bytes k) s tt left (sent ++ requests (calls9 n bytes k))
  unfolding test9_loop
  Runs-test9_loop {sent} n bytes is zero vars at = rw append-nil (Runs-pure link tt at)
  Runs-test9_loop {s} {left} {sent} n bytes is (suc k) vars at =
      let short : length vec_f8 < 2 ^ 29 = omega arith in
      let few : n < 2 ^ 31 = omega (arith, is.small, is.size) in
      let h = doubles_of vec_f8 n bytes in
      let vars' = assign vars vec_f8 (value_of h) in
      rw
        (append_three sent (request_of (store h [])) (request_of (len_of vec_f8))
          (requests (calls9 n bytes k)))
        (Runs-bind link _
          (Runs-set_doubles vec_f8 n bytes _ is (omega arith) (omega arith)
            (At-first link _ _ left at))
          λ s1 at1.
            Runs-bind link _
              (Runs-len link vec_f8 n _ (is_neg-nonpos sock fd) short few
                (At-first link _ _ left at1))
              λ s2 at2.
                Runs-guard link bad _ (same_int n)
                  (Runs-test9_loop {s = s2} n bytes is k vars' at2))

  Runs-test5_loop :
      {s : os.State} {left sent : List ℕ} (k : ℕ) (vars : Vars)
      → is_some (vars some_vec) ≡ true
      → At link s (answers (plays5_loop r names k vars).does ++ left) sent
      → Runs link (test5_loop os sock k) s tt left (sent ++ requests (calls5_loop k))
  unfolding test5_loop
  Runs-test5_loop {sent} zero vars found at = rw append-nil (Runs-pure link tt at)
  Runs-test5_loop {s} {left} {sent} (suc k) vars found at =
      let short : length some_vec < 2 ^ 29 = omega arith in
      let x = is_some (vars some_vec) in
      let there : not x ≡ false = ap not found in
      rw
        (append_three sent (request_of (bound1 some_vec)) (request_of (bound2 some_vec))
          (requests (calls5_loop k)))
        (Runs-bind link _
          (Runs-exists link some_vec x _ (is_neg-nonpos sock fd) short
            (At-first link _ _ left at)).0
          λ s1 at1. Runs-guard link bad _ there (
            Runs-bind link _
              (Runs-exists link some_vec x _ (is_neg-nonpos sock fd) short
                (At-first link _ _ left at1)).1
              λ s2 at2. Runs-guard link bad _ there (Runs-test5_loop {s = s2} k vars found at2)))

  Runs-new_f8 :
      {s : os.State} {left sent : List ℕ} (n : ℕ) (bytes : List ℕ)
      → n < 2 ^ 20
      → At link s left sent
      → Runs link (new_f8 os n bytes) s bytes left sent
  unfolding new_f8
  Runs-new_f8 n bytes h at =
      Runs-bind link _ (Runs-malloc link (n * 8 % 2 ^ 64) (omega arith) at)
        λ s1 at1. Runs-pure link bytes at1

  Runs-test :
      {s : os.State} {left sent : List ℕ} (t : Test) (niters : ℕ) (vars : Vars) (fit : IsFit t)
      → At link s (answers (plays r names t niters vars fit).does ++ left) sent
      → Runs link (run_test os sock niters t) s tt left (sent ++ requests (calls_of t niters))
  unfolding run_test test1 test4 test5 test9
  Runs-test (one n junk) niters vars fit at =
      let bytes = chars n 0 ++ junk in
      Runs-bind link _ (Runs-new_f8 n bytes fit.1 at)
        λ s1 at1. Runs-test1_loop n bytes (one-IsHeld n junk fit) niters vars fit.3 at1
  Runs-test four niters vars fit at = Runs-test4_loop niters 0 vars at
  Runs-test {left} {sent} five niters vars fit at =
      let h = doubles_of some_vec 1024 (doubles 1024 0) in
      let vars' = assign vars some_vec (value_of h) in
      Runs-bind link _ (Runs-new_f8 1024 (doubles 1024 0) (omega arith) at) λ s1 at1.
        rw (← append_assoc sent (request_of (store h [])) (requests (calls5_loop niters))) (
          Runs-bind link _
            (Runs-set_doubles some_vec 1024 (doubles 1024 0) _ data5-IsHeld (omega arith)
              (omega arith) (At-first link _ _ left at1))
            λ s2 at2. Runs-test5_loop niters vars' refl at2)
  Runs-test two niters vars fit at = Runs-test2_loop link r names.programs fd niters vars at
  Runs-test six niters vars fit at = Runs-test6_loop link r names.programs fd niters vars at
  Runs-test seven niters vars fit at = Runs-test7_loop link r names.named niters vars fd at
  Runs-test eight niters vars fit at =
      Runs-test8_loop link r names.programs fd niters vars prompt at
  Runs-test eight_i4 niters vars fit at =
      Runs-test8_i4_loop link r names.programs fd niters vars prompt at
  Runs-test (nine n) niters vars fit at =
      Runs-bind link _ (Runs-new_f8 n (zero_doubles n) fit.1 at)
        λ s1 at1. Runs-test9_loop n (zero_doubles n) (nine-IsHeld n fit) niters vars at1

  -- Nine tests of test/unit_test_1.c (one, two, four, five, six, seven, eight, eight_i4 and nine:
  -- test1, test2, test4, test5, test6, test7, test8, test8_I4 and test9) return 0, for any number of
  -- rounds, over a connection that cuts no message, with a server that reads the bytes of the test's
  -- requests as rincs/Rsrv.h says and has R evaluate texts; each call sends what it sends in a
  -- session, and nothing more is read than the answers. The vectors of test1 and test9 have one
  -- element at least and less than 2^20, and no double that the array of test1 happens to hold is a
  -- NaN. The names of the tests are names to R, the texts of test2, test6, test7, test8 and test8_I4
  -- define the function, the formula, the named vector and the numbers that they are meant to, and
  -- the socket is above 0.
  pub run_test-passes :
      {s : os.State} {left sent : List ℕ} (t : Test) (niters : ℕ) (vars : Vars)
      → IsFit t
      → let bytes = requests (calls_of t niters) in
        At link s (replies r (length bytes) vars bytes ++ left) sent
        → Runs link (run_test os sock niters t) s tt left (sent ++ requests (calls_of t niters))
  run_test-passes {left} t niters vars fit at =
      let cs = calls_of t niters in
      let ds = (plays r names t niters vars fit).does in
      Runs-test t niters vars fit (record {
        left_lem =
            at.left_lem
            ∙ ap (λ x. x ++ left) (replies-answers ds (length (requests cs)) (length-requests cs));
        sent_lem = at.sent_lem;
      })
