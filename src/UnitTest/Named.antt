-- ===== src/UnitTest/Named.antt =====
-- test7: the named vector that R makes, and what the test reads of it.
use c2r.Common.{
  ℕ, zero, suc, ◌+◌, ◌≡◌, refl, inl, List, [], ◌∷◌, ◌++◌, some, none, ℤ, negsuc, is_nonpos, le32,
  codes, false, append-nil, arith, replicate, take, drop, ◌*◌, c_string, c_string-append, All,
  IsNonzero, ap, ◌∙◌,
}
use c2r.Os.{Os}
use c2r.Os.Actions.{bad}
use c2r.Os.Link.{Link, At, Runs, Runs-bind, Runs-pure, Runs-guard}
use c2r.Wire.{pack, phdr_bytes}
use c2r.Query.Replies.{is_neg-nonpos}
use c2r.NamedVec.{NamedOut, count_zeros, get_named_vec_f8}
use c2r.NamedVec.Reads.{get_named_vec_f8-reply}
use c2r.Server.{Vars, Evaluator, sexp_reply, sexp_hdr}
use c2r.Session.{Call, command, run, value, over, next, commands, runs, request_of, requests}
use c2r.Session.Calls.{Runs-command}
use c2r.Session.Values.{answers}
use c2r.UnitTest.Doubles.{differs, is_nan}
use c2r.UnitTest.Programs.{
  name_x, str_mk_vec, double_1_23, double_4_56, double_7_89, double_1111, check_double, check_key,
  test7_loop,
}
use c2r.UnitTest.Texts.{after_text, Plays}
use c2r.UnitTest.Says.{append_three, At-first, Runs-deref, same_text}

-- the names and their padding, the symbol `names`, and the values
abbrev keys : List ℕ
keys = codes "a" ++ 0 ∷ (codes "bc" ++ 0 ∷ (codes "def" ++ 0 ∷ (codes "ghij" ++ 0 ∷ 1 ∷ 1 ∷ [])))

abbrev names_symbol : List ℕ
names_symbol = le32 (8 * 256 + 19) ++ (codes "names" ++ 0 ∷ 0 ∷ 0 ∷ [])

abbrev vals : List ℕ
vals = double_1_23 ++ (double_4_56 ++ (double_7_89 ++ double_1111))

-- an array of doubles with attributes, which are a list of one array of strings with its tag
abbrev pub named_word : ℕ
named_word = 68 * 256 + 161

abbrev pub named_data : List ℕ
named_data = le32 (32 * 256 + 21) ++ (le32 (16 * 256 + 34) ++ (keys ++ (names_symbol ++ vals)))

abbrev pub named_sexp : List ℕ
named_sexp = le32 named_word ++ named_data

-- The text of test7 makes the named vector.
pub record MakesNamed (r : Evaluator) : Type 0 where
  pub symbol : r.IsSymbol name_x
  pub named_lem : (vars : Vars) → after_text r vars str_mk_vec name_x ≡ some named_sexp

abbrev pub calls7 : ℕ → List Call
calls7 zero = []
calls7 (suc k) = command str_mk_vec ∷ run name_x (negsuc 0) ∷ calls7 k

abbrev out7 : NamedOut
out7 = record { key_blob = keys; vals = vals; n_key_blob = 16; n_vals = 4 }

-- the array of the names
abbrev key_blob : List ℕ
key_blob = keys ++ replicate 1008 0

four_keys : count_zeros keys ≡ 4
unfolding count_zeros
four_keys = refl

module _ (r : Evaluator) (makes : MakesNamed r) where
  abbrev pub plays7 : (k : ℕ) (vars : Vars) → Plays r vars (calls7 k)
  plays7 zero vars = record { after = vars; results = []; does = over }
  plays7 (suc k) vars =
      let after = after_text r vars str_mk_vec in
      let rest = plays7 k after in
      record {
        after = rest.after;
        results = value none ∷ value (some named_data) ∷ rest.results;
        does = next (commands str_mk_vec (omega arith, omega arith)) (
            next
              (runs name_x named_data (negsuc 0) named_word (omega arith, omega arith)
                (r.eval_lem after name_x named_sexp makes.symbol (makes.named_lem vars))
                (omega arith) (inl refl))
              rest.does);
      }

module _ {os : Os} {sock : ℤ} (link : Link os sock) where
  Runs-named :
      {s : os.State} {sent : List ℕ} (left : List ℕ)
      → is_nonpos sock ≡ false
      → At link s (sexp_reply named_sexp ++ left) sent
      → Runs link
          (get_named_vec_f8 os sock (some name_x) 1024 32)
          s
          out7
          left
          (sent ++ request_of (run name_x (negsuc 0)))
  unfolding pack phdr_bytes
  Runs-named left fd at =
      get_named_vec_f8-reply link name_x (sexp_hdr named_sexp) 1024 32 (72 * 256 + 10) named_word
        (32 * 256 + 21) (16 * 256 + 34) 4 keys names_symbol vals (is_neg-nonpos sock fd)
        (omega arith)
        (record { cmd = omega arith; len = omega arith; msg_id = omega arith; res = omega arith })
        (record {
          sexp = (refl, omega arith);
          long = refl;
          list_tag = (refl, omega arith);
          keys = (refl, omega arith);
          size = refl;
        })
        (omega arith) (omega arith) (omega arith) (omega arith) (omega arith) refl four_keys refl
        (omega arith) (omega arith) (omega arith)
        (record { left_lem = at.left_lem; sent_lem = at.sent_lem })

  Runs-check_double :
      {s : os.State} {left sent : List ℕ} (i : ℕ) (x : List ℕ)
      → differs (take 8 (drop (8 * i) vals)) x ≡ false
      → At link s left sent
      → Runs link (check_double os vals i x) s tt left sent
  unfolding check_double
  Runs-check_double i x e at = Runs-guard link bad _ e (Runs-pure link tt at)

  Runs-check_key :
      {s : os.State} {left sent : List ℕ} (i j : ℕ) (text : List ℕ)
      → All IsNonzero text
      → drop i key_blob ≡ text ++ 0 ∷ drop j key_blob
      → At link s left sent
      → Runs link (check_key os out7 i text) s tt left sent
  unfolding check_key
  Runs-check_key i j text nonzero e at =
      Runs-deref link _ text _ (ap c_string e ∙ c_string-append text (drop j key_blob) nonzero)
        (Runs-guard link bad _ (same_text text) (Runs-pure link tt at))

  pub Runs-test7_loop :
      {s : os.State} {left sent : List ℕ} (r : Evaluator) (makes : MakesNamed r) (k : ℕ)
      (vars : Vars)
      → is_nonpos sock ≡ false
      → At link s (answers (plays7 r makes k vars).does ++ left) sent
      → Runs link (test7_loop os sock k) s tt left (sent ++ requests (calls7 k))
  unfolding test7_loop differs is_nan
  Runs-test7_loop {sent} r makes zero vars fd at = rw append-nil (Runs-pure link tt at)
  Runs-test7_loop {s} {left} {sent} r makes (suc k) vars fd at =
      let nz_a : All IsNonzero (codes "a") = omega arith in
      let nz_bc : All IsNonzero (codes "bc") = omega arith in
      let nz_def : All IsNonzero (codes "def") = omega arith in
      let nz_ghij : All IsNonzero (codes "ghij") = omega arith in
      rw
        (append_three sent (request_of (command str_mk_vec)) (request_of (run name_x (negsuc 0)))
          (requests (calls7 k)))
        (Runs-bind link _
          (Runs-command link str_mk_vec (r.eval vars str_mk_vec).1 _ (is_neg-nonpos sock fd)
            (omega arith) (At-first link _ _ left at))
          λ s1 at1. Runs-bind link _ (Runs-named _ fd (At-first link _ _ left at1)) λ s2 at2.
            Runs-guard link bad _ refl (
              Runs-bind link _ (Runs-check_double 0 double_1_23 refl at2) λ s3 at3.
                Runs-bind link _ (Runs-check_double 1 double_4_56 refl at3) λ s4 at4.
                  Runs-bind link _ (Runs-check_double 2 double_7_89 refl at4) λ s5 at5.
                    Runs-bind link _ (Runs-check_double 3 double_1111 refl at5) λ s6 at6.
                      Runs-guard link bad _ refl (
                        Runs-bind link _ (Runs-check_key 0 2 (codes "a") nz_a refl at6) λ s7 at7.
                          Runs-bind link _ (Runs-check_key 2 5 (codes "bc") nz_bc refl at7)
                            λ s8 at8.
                              Runs-bind link _ (Runs-check_key 5 9 (codes "def") nz_def refl at8)
                                λ s9 at9.
                                  Runs-bind link _
                                    (Runs-check_key 9 14 (codes "ghij") nz_ghij refl at9)
                                    λ s10 at10.
                                      Runs-test7_loop {s = s10} r makes k
                                        (after_text r vars str_mk_vec) fd at10)))
