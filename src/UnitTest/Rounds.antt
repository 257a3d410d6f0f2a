-- ===== src/UnitTest/Rounds.antt =====
-- The rounds of the tests that have R run texts of their own pass over a working connection.
use c2r.Common.{
  ℕ, zero, suc, ◌^◌, ◌<◌, ◌≡◌, refl, sym, ◌∙◌, inl, List, [], ◌++◌, false, ℤ, pos, negsuc,
  is_nonpos, length, le32, codes, All, IsNonzero, append_assoc, append-nil, arith, ◌-◌,
}
use c2r.Common.{c_string-append}
use c2r.Os.{Os}
use c2r.Os.Actions.{bad}
use c2r.Os.Link.{Link, At, Prompt, Runs, Runs-bind, Runs-pure, Runs-pass, Runs-guard}
use c2r.Wire.Constants.{xt_array_str}
use c2r.Query.Replies.{is_neg-nonpos, Runs-ignore_status}
use c2r.Server.{Vars, Evaluator}
use c2r.Session.{command, run, load_one, request_of, requests}
use c2r.Session.Calls.{Runs-run, Runs-command}
use c2r.Session.Values.{answers}
use c2r.GetVec.Stored.{f8, i4}
use c2r.UnitTest.Programs.{
  name_y, name_f, fn_define, fn_execute, fn_class_in, fn_result, class_function, y_double,
  y_integer, name_frmla, name_compiled, load_library, formula_text, str_frmla, compile_frmla,
  frmla_class_in, class_formula, test6_loop, test2_loop, test8_loop, test8_i4_loop,
}
use c2r.UnitTest.Texts.{
  HasPrograms, after_text, string_data, string_word, calls2, calls8, calls8_i4, plays2, plays8,
  plays8_i4, calls6, plays6, frmla_typed, formula_typed, with_frmla, with_compiled, class_typed,
  result_typed,
}
use c2r.UnitTest.Says.{
  append_three, same_text, same_double, At-first, Runs-deref, Runs-string, Runs-check_text,
  Runs-class_of, Runs-y_f8, Runs-y_i4,
}

module _ {os : Os} {sock : ℤ} (link : Link os sock) (r : Evaluator) (programs : HasPrograms r)
    (fd : is_nonpos sock ≡ false) where
  pub Runs-test2_loop :
      {s : os.State} {left sent : List ℕ} (k : ℕ) (vars : Vars)
      → At link s (answers (plays2 r programs k vars).does ++ left) sent
      → Runs link (test2_loop os sock k) s tt left (sent ++ requests (calls2 k))
  unfolding test2_loop
  Runs-test2_loop {sent} zero vars at = rw append-nil (Runs-pure link tt at)
  Runs-test2_loop {s} {left} {sent} (suc k) vars at =
      let after = after_text r vars fn_define in
      let ask = request_of (run fn_class_in (pos xt_array_str)) in
      let call = request_of (run fn_execute (pos xt_array_str)) in
      let short : length fn_class_in < 2 ^ 30 = omega arith in
      let short' : length fn_execute < 2 ^ 30 = omega arith in
      let small : length (string_data class_function 3) < 2 ^ 24 - 8 = omega arith in
      let small' : length (string_data fn_result 1) < 2 ^ 24 - 8 = omega arith in
      let nonzero : All IsNonzero class_function = omega arith in
      let short_f : length name_f < 1017 = omega arith in
      let nonzero' : All IsNonzero fn_result = omega arith in
      rw
        (append_three sent (request_of (command fn_define)) ask
            (ask ++ (call ++ requests (calls2 k)))
          ∙ append_three ((sent ++ request_of (command fn_define)) ++ ask) ask call
              (requests (calls2 k)))
        (Runs-bind link _
          (Runs-command link fn_define (r.eval vars fn_define).1 _ (is_neg-nonpos sock fd)
            (omega arith) (At-first link _ _ left at))
          λ s1 at1.
            Runs-bind link _
              (Runs-ignore_status link (
                Runs-string link fn_class_in class_function 3 _ fd short small class_typed
                  (At-first link _ _ left at1)))
              λ s2 at2.
                Runs-bind link _ (Runs-check_text link class_function 3 nonzero at2) λ s3 at3.
                  Runs-bind link _
                    (Runs-class_of link name_f class_function 3 _ fd short_f nonzero small
                      class_typed (At-first link _ _ left at3))
                    λ s4 at4. Runs-guard link bad _ refl (
                      Runs-bind link _
                        (Runs-string link fn_execute fn_result 1 _ fd short' small' result_typed
                          (At-first link _ _ left at4))
                        λ s5 at5. Runs-guard link bad _ refl (
                          Runs-bind link _ (Runs-check_text link fn_result 1 nonzero' at5)
                            λ s6 at6. Runs-test2_loop {s = s6} k after at6)))

  pub Runs-test6_loop :
      {s : os.State} {left sent : List ℕ} (k : ℕ) (vars : Vars)
      → At link s (answers (plays6 r programs k vars).does ++ left) sent
      → Runs link (test6_loop os sock k) s tt left (sent ++ requests (calls6 k))
  unfolding test6_loop
  Runs-test6_loop {sent} zero vars at = rw append-nil (Runs-pure link tt at)
  Runs-test6_loop {s} {left} {sent} (suc k) vars at =
      let ask = request_of (run frmla_class_in (pos xt_array_str)) in
      let read = request_of (run name_frmla (pos xt_array_str)) in
      let loads = request_of (command load_library) in
      let sets = request_of (command str_frmla) in
      let compiles = request_of (command compile_frmla) in
      let short : length name_frmla < 2 ^ 30 = omega arith in
      let short' : length frmla_class_in < 2 ^ 30 = omega arith in
      let shorter : length name_compiled < 1017 = omega arith in
      let small : length (string_data formula_text 1) < 2 ^ 24 - 8 = omega arith in
      let small' : length (string_data class_formula 0) < 2 ^ 24 - 8 = omega arith in
      let nonzero : All IsNonzero class_formula = omega arith in
      let short_set : length str_frmla < 2 ^ 30 = omega arith in
      let short_compile : length compile_frmla < 2 ^ 30 = omega arith in
      let open_fd = is_neg-nonpos sock fd in
      rw
        (append_three sent loads sets (read ++ (compiles ++ (ask ++ (ask ++ requests (calls6 k)))))
          ∙ append_three ((sent ++ loads) ++ sets) read compiles
              (ask ++ (ask ++ requests (calls6 k)))
          ∙ append_three ((((sent ++ loads) ++ sets) ++ read) ++ compiles) ask ask
              (requests (calls6 k)))
        (Runs-bind link _
          (Runs-command link load_library (r.eval vars load_library).1 _ open_fd (omega arith)
            (At-first link _ _ left at))
          λ s1 at1.
            Runs-bind link _
              (Runs-command link str_frmla (r.eval (after_text r vars load_library) str_frmla).1 _
                open_fd short_set (At-first link _ _ left at1))
              λ s2 at2.
                Runs-bind link _
                  (Runs-ignore_status link (
                    Runs-string link name_frmla formula_text 1 _ fd short small frmla_typed
                      (At-first link _ _ left at2)))
                  λ s3 at3. Runs-pass link (string_data formula_text 1) _ (
                    Runs-bind link _
                      (Runs-command link compile_frmla (r.eval (with_frmla r vars) compile_frmla).1
                        _ open_fd short_compile (At-first link _ _ left at3))
                      λ s4 at4.
                        Runs-bind link _
                          (Runs-ignore_status link (
                            Runs-string link frmla_class_in class_formula 0 _ fd short' small'
                              formula_typed (At-first link _ _ left at4)))
                          λ s5 at5.
                            Runs-bind link _ (Runs-check_text link class_formula 0 nonzero at5)
                              λ s6 at6.
                                Runs-bind link _
                                  (Runs-class_of link name_compiled class_formula 0 _ fd shorter
                                    nonzero small' formula_typed (At-first link _ _ left at6))
                                  λ s7 at7.
                                    Runs-guard link bad _ refl
                                      (Runs-test6_loop {s = s7} k (with_compiled r vars) at7)))

  pub Runs-test8_loop :
      {s : os.State} {left sent : List ℕ} (k : ℕ) (vars : Vars)
      → Prompt link
      → At link s (answers (plays8 r programs k vars).does ++ left) sent
      → Runs link (test8_loop os sock k) s tt left (sent ++ requests (calls8 k))
  unfolding test8_loop
  Runs-test8_loop {sent} zero vars prompt at = rw append-nil (Runs-pure link tt at)
  Runs-test8_loop {s} {left} {sent} (suc k) vars prompt at =
      rw
        (append_three sent (request_of (command y_double)) (request_of (load_one name_y f8))
          (requests (calls8 k)))
        (Runs-bind link _
          (Runs-command link y_double (r.eval vars y_double).1 _ (is_neg-nonpos sock fd)
            (omega arith) (At-first link _ _ left at))
          λ s1 at1.
            Runs-bind link _ (Runs-y_f8 link _ prompt fd (At-first link _ _ left at1)) λ s2 at2.
              Runs-guard link bad _ same_double
                (Runs-test8_loop {s = s2} k (after_text r vars y_double) prompt at2))

  pub Runs-test8_i4_loop :
      {s : os.State} {left sent : List ℕ} (k : ℕ) (vars : Vars)
      → Prompt link
      → At link s (answers (plays8_i4 r programs k vars).does ++ left) sent
      → Runs link (test8_i4_loop os sock k) s tt left (sent ++ requests (calls8_i4 k))
  unfolding test8_i4_loop
  Runs-test8_i4_loop {sent} zero vars prompt at = rw append-nil (Runs-pure link tt at)
  Runs-test8_i4_loop {s} {left} {sent} (suc k) vars prompt at =
      let class = codes "integer" in
      let nonzero : All IsNonzero class = omega arith in
      let short : length (codes "class(y)") < 2 ^ 30 = omega arith in
      let small : length (string_data class 0) < 2 ^ 24 - 8 = omega arith in
      let ask = request_of (run (codes "class(y)") (negsuc 0)) in
      let load = request_of (load_one name_y i4) in
      let start = sent ++ request_of (command y_integer) in
      rw
        (sym (
            append_assoc sent (request_of (command y_integer))
              (ask ++ (load ++ requests (calls8_i4 k))))
          ∙ append_three start ask load (requests (calls8_i4 k)))
        (Runs-bind link _
          (Runs-command link y_integer (r.eval vars y_integer).1 _ (is_neg-nonpos sock fd)
            (omega arith) (At-first link _ _ left at))
          λ s1 at1.
            Runs-bind link _
              (Runs-run link (codes "class(y)") (negsuc 0) (string_word class 0)
                (string_data class 0) _ (is_neg-nonpos sock fd) short small (inl refl)
                (At-first link _ _ left at1))
              λ s2 at2. Runs-pass link (string_data class 0) _ (
                Runs-deref link _ class _ (c_string-append class [] nonzero) (
                  Runs-guard link bad _ (same_text class) (
                    Runs-bind link _ (Runs-y_i4 link _ prompt fd (At-first link _ _ left at2))
                      λ s3 at3.
                        Runs-guard link bad _ (same_text (le32 123456)) (
                          Runs-test8_i4_loop {s = s3} k (after_text r vars y_integer) prompt
                            at3)))))
