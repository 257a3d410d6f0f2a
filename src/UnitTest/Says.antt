-- ===== src/UnitTest/Says.antt =====
-- What the steps of the tests that have R run texts make of the answers.
use c2r.Common.{
  ℕ, ◌%◌, ◌^◌, ◌<◌, ◌≡◌, refl, sym, ap, ◌∙◌, inr, List, ◌++◌, some, true, false, not, ℤ, pos,
  is_nonpos, length, le32, codes, bytes_eq, bytes_eq_self, All, IsNonzero, append_assoc, arith,
  Option, subst, ◌-◌,
}
use c2r.Common.{c_string-append, replicate}
use c2r.Os.{Os}
use c2r.Os.Actions.{bad, M, deref, ◌>>=◌}
use c2r.Client.{exec_str}
use c2r.Os.Link.{Link, At, Prompt, Runs, Runs-pure, Runs-pass, Runs-guard}
use c2r.Wire.{pack}
use c2r.Wire.Constants.{cmd_eval, dt_sexp, xt_array_double, xt_array_int, xt_array_str}
use c2r.Query.Replies.{is_neg-nonpos}
use c2r.Frame.Replies.{Runs-chk_r_class}
use c2r.Scalar.{get_f8, get_i4}
use c2r.Server.{sexp_hdr, sexp_reply}
use c2r.Frame.{chk_r_class, call_text}
use c2r.Client.Exec.{request}
use c2r.Session.{run, load_one, request_of}
use c2r.Session.Calls.{Runs-run}
use c2r.Session.Reads.{IsReply-sexp, At-reply, Runs-one}
use c2r.GetVec.Stored.{f8, i4, sexp_of}
use c2r.UnitTest.Doubles.{differs, is_nan}
use c2r.UnitTest.Programs.{name_y, double_123_456, check_text}
use c2r.UnitTest.Texts.{string_data, string_word, string_sexp}

pub append_three : (xs ys zs ws : List ℕ) → xs ++ (ys ++ (zs ++ ws)) ≡ ((xs ++ ys) ++ zs) ++ ws
append_three xs ys zs ws = sym (append_assoc xs ys (zs ++ ws)) ∙ sym (append_assoc (xs ++ ys) zs ws)

pub same_text : (text : List ℕ) → not (bytes_eq text text) ≡ false
same_text text = ap not (bytes_eq_self text)

pub same_double : differs double_123_456 double_123_456 ≡ false
unfolding differs is_nan
same_double = refl

module _ {os : Os} {sock : ℤ} (link : Link os sock) where
  -- the first of two answers in front of the rest
  pub At-first :
      {s : os.State} {sent : List ℕ} (xs ys left : List ℕ)
      → At link s ((xs ++ ys) ++ left) sent
      → At link s (xs ++ (ys ++ left)) sent
  At-first xs ys left at = record {
    left_lem = at.left_lem ∙ append_assoc xs ys left;
    sent_lem = at.sent_lem;
  }

  pub Runs-deref :
      {A B : Type 0} (p : Option A) (a : A) (f : A → M os.State B) {s : os.State} {b : B}
      {left sent : List ℕ}
      → p ≡ some a
      → Runs link (f a) s b left sent
      → Runs link (deref p >>= f) s b left sent
  Runs-deref p a f {s} {b} {left} {sent} e runs =
      subst (λ q. Runs link (deref q >>= f) s b left sent) (sym e) (Runs-pass link a f runs)

  -- the string that `text` evaluates to
  pub Runs-string :
      {s : os.State} {sent : List ℕ} (text string : List ℕ) (pad : ℕ) (left : List ℕ)
      → is_nonpos sock ≡ false
      → length text < 2 ^ 30
      → length (string_data string pad) < 2 ^ 24 - 8
      → string_word string pad % 256 ≡ xt_array_str
      → At link s (sexp_reply (string_sexp string pad) ++ left) sent
      → Runs link
          (exec_str os sock (some text) true (pos xt_array_str))
          s
          (some (string_data string pad))
          left
          (sent ++ request_of (run text (pos xt_array_str)))
  Runs-string text string pad left fd ht hs typed at =
      Runs-run link text (pos xt_array_str) (string_word string pad) (string_data string pad) left
        (is_neg-nonpos sock fd) ht hs (inr (ap pos (sym typed))) at

  pub Runs-check_text :
      {s : os.State} {left sent : List ℕ} (text : List ℕ) (pad : ℕ)
      → All IsNonzero text
      → At link s left sent
      → Runs link (check_text os (some (string_data text pad)) text) s tt left sent
  unfolding check_text
  Runs-check_text text pad nonzero at = Runs-pass link (string_data text pad) _ (
      Runs-deref _ text _ (c_string-append text _ nonzero)
        (Runs-guard link bad _ (same_text text) (Runs-pure link tt at)))

  -- the test of the class of a value that is no vector of numbers
  pub Runs-class_of :
      {s : os.State} {sent : List ℕ} (name class : List ℕ) (pad : ℕ) (left : List ℕ)
      → is_nonpos sock ≡ false
      → length name < 1017
      → All IsNonzero class
      → length (string_data class pad) < 2 ^ 24 - 8
      → string_word class pad % 256 ≡ xt_array_str
      → At link s (sexp_reply (string_sexp class pad) ++ left) sent
      → Runs link
          (chk_r_class os sock (some name) (some class))
          s
          true
          left
          (sent ++ request cmd_eval (call_text (codes "class") name))
  Runs-class_of {s} {sent} name class pad left fd hn nonzero small typed at =
      let w = string_word class pad in
      let out = string_data class pad in
      let sexp = le32 w ++ out in
      subst
        (λ b.
          Runs link (chk_r_class os sock (some name) (some class)) s b left
            (sent ++ request cmd_eval (call_text (codes "class") name)))
        (bytes_eq_self class)
        (Runs-chk_r_class link name class (sexp_hdr sexp) (pack (length sexp) dt_sexp) w class
          (replicate pad 1) fd hn nonzero (IsReply-sexp w xt_array_str out small typed)
          (At-reply link w out left at))

  pub Runs-y_f8 :
      {s : os.State} {sent : List ℕ} (left : List ℕ)
      → Prompt link
      → is_nonpos sock ≡ false
      → At link s (sexp_reply (sexp_of f8 double_123_456) ++ left) sent
      → Runs link
          (get_f8 os sock (some name_y))
          s
          double_123_456
          left
          (sent ++ request_of (load_one name_y f8))
  unfolding get_f8
  Runs-y_f8 left prompt fd at =
      Runs-one link xt_array_double 8 name_y double_123_456 left prompt (is_neg-nonpos sock fd)
        (omega arith) (omega arith) refl (omega arith) (omega arith) at

  pub Runs-y_i4 :
      {s : os.State} {sent : List ℕ} (left : List ℕ)
      → Prompt link
      → is_nonpos sock ≡ false
      → At link s (sexp_reply (sexp_of i4 (le32 123456)) ++ left) sent
      → Runs link
          (get_i4 os sock (some name_y))
          s
          (le32 123456)
          left
          (sent ++ request_of (load_one name_y i4))
  unfolding get_i4
  Runs-y_i4 left prompt fd at =
      Runs-one link xt_array_int 4 name_y (le32 123456) left prompt (is_neg-nonpos sock fd)
        (omega arith) (omega arith) refl (omega arith) (omega arith) at
