-- ===== src/Frame/Replies.antt =====
-- src/n_df.c and src/chk_R_class.c: the replies over a working connection, and names that are long.
use c2r.Common.{
  ℕ, ◌+◌, ◌^◌, ◌<◌, ◌≤◌, ◌≡◌, ◌↔◌, refl, sym, ap, ◌∙◌, List, ◌∷◌, ◌++◌, some, Bool, true, false, ℤ,
  pos, is_neg, is_nonpos, length, length-append, codes, String, arith, ◌==◌, inr, bytes_eq,
  bytes_eq_self, eq_of_bytes_eq, le32, All, IsNonzero, c_string-append, ltb-false,
}
use c2r.Os.{Os}
use c2r.Os.Actions.{fault, ◌>>=◌}
use c2r.Os.Link.{Link, At, Runs, Runs-bind, Runs-pure, Runs-pass}
use c2r.Wire.{Phdr}
use c2r.Wire.Constants.{cmd_eval, xt_array_int, xt_array_str}
use c2r.Client.Exec.{request, reply, IsReply, exec_str-reply}
use c2r.Query.Replies.{is_neg-nonpos, Runs-ignore_status, Runs-sprintf, int_at-le32}
use c2r.Frame.{call_text, read_count, n_df, compare_class, query_class, chk_r_class}

length-call_text : (fn name : List ℕ) → length (call_text fn name) ≡ length fn + (length name + 2)
length-call_text fn name =
    omega
      (arith, length-append fn (codes "(" ++ (name ++ codes ")")), length-append name (codes ")"))

module _ {os : Os} {sock : ℤ} (link : Link os sock) where
  Runs-read_count :
      {s : os.State} {left sent : List ℕ} (n : ℕ) (more : List ℕ)
      → n < 2 ^ 31
      → At link s left sent
      → Runs link (read_count os (some (le32 n ++ more))) s n left sent
  unfolding read_count
  Runs-read_count n more h at =
      let full : (length (le32 n ++ more) == 0) ≡ false = ground arith in
      rw (full, int_at-le32 n more h) (Runs-pass link (pos n) _ (Runs-pure link n at))

  -- Over a working connection the count that `ncols_df` and `nrows_df` ask for is the first int of
  -- the reply, if it is not negative, and the whole reply is taken off the socket. The command, the
  -- call of R's function with the name, fits its array of 1024 bytes. The reply is an array of
  -- ints, and the socket is not negative.
  pub n_df-reply :
      {s : os.State} {left sent : List ℕ} (fn : String) (name : List ℕ) (ph : Phdr) (dt w n : ℕ)
      (more : List ℕ)
      → is_neg sock ≡ false
      → length (codes fn) + length name < 1022
      → n < 2 ^ 31
      → IsReply ph dt w xt_array_int (le32 n ++ more)
      → At link s (reply ph dt w (le32 n ++ more) left) sent
      → Runs link
          (n_df os sock fn (some name))
          s
          n
          left
          (sent ++ request cmd_eval (call_text (codes fn) name))
  unfolding n_df
  n_df-reply fn name ph dt w n more fd hn h is at =
      let len = length-call_text (codes fn) name in
      rw fd (
        Runs-pass link name _ (
          Runs-bind link _ (Runs-sprintf link 1024 (call_text (codes fn) name) (omega arith) at)
            λ s1 at1.
              Runs-bind link _
                (Runs-ignore_status link (
                  exec_str-reply link (call_text (codes fn) name) (pos xt_array_int) ph dt w
                    xt_array_int (le32 n ++ more) fd (omega arith) is (inr refl) at1))
                λ s2 at2. Runs-read_count n more h at2))

  Runs-compare_class :
      {s : os.State} {left sent : List ℕ} (class found more : List ℕ)
      → All IsNonzero found
      → At link s left sent
      → Runs link
          (compare_class os class (some (found ++ 0 ∷ more)))
          s
          (bytes_eq found class)
          left
          sent
  unfolding compare_class
  Runs-compare_class class found more nonzero at =
      let some_bytes : (length (found ++ 0 ∷ more) == 0) ≡ false =
        ground (arith, length-append found (0 ∷ more)) in
      rw some_bytes (
        rw (c_string-append found more nonzero)
          (Runs-pass link found _ (Runs-pure link (bytes_eq found class) at)))

  pub Runs-chk_r_class :
      {s : os.State} {left sent : List ℕ} (name class : List ℕ) (ph : Phdr) (dt w : ℕ)
      (found more : List ℕ)
      → is_nonpos sock ≡ false
      → length name < 1017
      → All IsNonzero found
      → IsReply ph dt w xt_array_str (found ++ 0 ∷ more)
      → At link s (reply ph dt w (found ++ 0 ∷ more) left) sent
      → Runs link
          (chk_r_class os sock (some name) (some class))
          s
          (bytes_eq found class)
          left
          (sent ++ request cmd_eval (call_text (codes "class") name))
  unfolding chk_r_class query_class
  Runs-chk_r_class name class ph dt w found more fd hn nonzero is at =
      let len = length-call_text (codes "class") name in
      rw fd (
        Runs-bind link _ (Runs-sprintf link 1024 (call_text (codes "class") name) (omega arith) at)
          λ s1 at1.
            Runs-bind link _
              (Runs-ignore_status link (
                exec_str-reply link (call_text (codes "class") name) (pos xt_array_str) ph dt w
                  xt_array_str (found ++ 0 ∷ more) (is_neg-nonpos sock fd) (omega arith) is
                  (inr refl) at1))
              λ s2 at2. Runs-compare_class class found more nonzero at2)

  -- Over a working connection `chk_R_class` answers with the test whether the first string of the
  -- reply, the first class of the value in R, is the class asked for, and takes the whole reply off
  -- the socket. The command fits its array of 1024 bytes. The reply is an array of strings, and the
  -- socket is above 0.
  pub chk_r_class-reply :
      {s : os.State} {left sent : List ℕ} (name class : List ℕ) (ph : Phdr) (dt w : ℕ)
      (found more : List ℕ)
      → is_nonpos sock ≡ false
      → length name < 1017
      → All IsNonzero found
      → IsReply ph dt w xt_array_str (found ++ 0 ∷ more)
      → At link s (reply ph dt w (found ++ 0 ∷ more) left) sent
      → (answer : Bool) × Runs link
          (chk_r_class os sock (some name) (some class))
          s
          answer
          left
          (sent ++ request cmd_eval (call_text (codes "class") name))
        × ((answer ≡ true) ↔ (found ≡ class))
  chk_r_class-reply name class ph dt w found more fd hn nonzero is at = (
    bytes_eq found class,
    Runs-chk_r_class name class ph dt w found more fd hn nonzero is at,
    (eq_of_bytes_eq found class, λ e. ap (bytes_eq found) (sym e) ∙ bytes_eq_self found),
  )

-- A name that is too long for the array of 1024 bytes, with R's function and the parentheses, makes
-- the call of `ncols_df` or `nrows_df` write past it, before anything is sent. The socket is not
-- negative.
n_df-long :
    (os : Os) (sock : ℤ) (fn : String) (name : List ℕ) (s : os.State)
    → is_neg sock ≡ false
    → 1022 ≤ length (codes fn) + length name
    → n_df os sock fn (some name) s ≡ (fault, s)
unfolding n_df ◌>>=◌
n_df-long os sock fn name s fd h =
    let len = length-call_text (codes fn) name in
    rw fd (rw (ltb-false (length (call_text (codes fn) name)) 1024 (omega arith)) refl)
