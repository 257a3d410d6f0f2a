-- ===== src/VecLen/Replies.antt =====
-- The two functions of the name `get_vec_len` on the same reply.
use c2r.Common.{
  ℕ, ◌+◌, ◌^◌, ◌<◌, ◌≡◌, refl, List, ◌++◌, some, false, ℤ, pos, is_neg, length, codes, le32,
  length-append, arith, ◌==◌, inr,
}
use c2r.Os.{Os}
use c2r.Os.Actions.{bad}
use c2r.Os.Link.{Link, At, Runs, Runs-bind, Runs-pure, Runs-pass, Runs-guard, Runs-try}
use c2r.Wire.{Phdr}
use c2r.Wire.Constants.{cmd_eval, xt_array_int}
use c2r.Client.Exec.{request, reply, IsReply, exec_str-reply}
use c2r.Client.Transfer.{Runs-alloc}
use c2r.Frame.{call_text}
use c2r.Query.Replies.{Runs-sprintf, int_at-le32}
use c2r.VecLen.{len_out, query_len, get_vec_len, checked_vec_len}

length-length_call : (name : List ℕ) → length (call_text (codes "length") name) ≡ length name + 8
length-length_call name = omega (arith, length-append name (codes ")"))

module _ {os : Os} {sock : ℤ} (link : Link os sock) where
  Runs-query_len :
      {s : os.State} {left sent : List ℕ} (extra : ℕ) (name : List ℕ) (ph : Phdr) (dt w n : ℕ)
      (more : List ℕ)
      → 8 < extra
      → extra < 2 ^ 10
      → is_neg sock ≡ false
      → length name < 2 ^ 29
      → n < 2 ^ 31
      → IsReply ph dt w xt_array_int (le32 n ++ more)
      → At link s (reply ph dt w (le32 n ++ more) left) sent
      → Runs link
          (query_len os extra sock name)
          s
          (pos n)
          left
          (sent ++ request cmd_eval (call_text (codes "length") name))
  unfolding query_len
  Runs-query_len extra name ph dt w n more hx hx' fd hn h is at =
      let cmd = call_text (codes "length") name in
      let len = length-length_call name in
      let full : (length (le32 n ++ more) == 0) ≡ false = ground arith in
      Runs-bind link _ (Runs-alloc link (length name + extra) (omega arith) at) λ s1 at1.
        Runs-bind link _ (Runs-sprintf link (length name + extra) cmd (omega arith) at1) λ s2 at2.
          Runs-bind link _
            (exec_str-reply link cmd (pos xt_array_int) ph dt w xt_array_int (le32 n ++ more) fd
              (omega arith) is (inr refl) at2)
            λ s3 at3.
              Runs-pass link (le32 n ++ more) _ (
                Runs-guard link bad _ full (rw (int_at-le32 n more h) (Runs-pure link (pos n) at3)))

  -- Over a working connection both functions send the same command, and return the same length and
  -- 0 on a reply whose first int is not negative; the buffers of 16 and of 24 bytes beside the name
  -- both hold the command. The name has less than 2^29 bytes, and the socket is not negative.
  pub get_vec_len-checked_vec_len :
      {s : os.State} {left sent : List ℕ} (name : List ℕ) (ph : Phdr) (dt w n : ℕ) (more : List ℕ)
      → is_neg sock ≡ false
      → length name < 2 ^ 29
      → n < 2 ^ 31
      → IsReply ph dt w xt_array_int (le32 n ++ more)
      → At link s (reply ph dt w (le32 n ++ more) left) sent
      → Runs link
          (get_vec_len os sock (some name))
          s
          (pos n)
          left
          (sent ++ request cmd_eval (call_text (codes "length") name))
        × Runs link
            (checked_vec_len os sock (some name))
            s
            (record { status = pos 0; n = some (pos n) })
            left
            (sent ++ request cmd_eval (call_text (codes "length") name))
  unfolding get_vec_len checked_vec_len
  get_vec_len-checked_vec_len name ph dt w n more fd hn h is at = (
    Runs-pass link name _
        (Runs-query_len 16 name ph dt w n more (omega arith) (omega arith) fd hn h is at),
    Runs-guard link bad _ fd (
        Runs-pass link name _ (
          Runs-try link _ len_out
            (Runs-query_len 24 name ph dt w n more (omega arith) (omega arith) fd hn h is at)
            refl)),
  )
