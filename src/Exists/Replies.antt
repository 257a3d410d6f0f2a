-- ===== src/Exists/Replies.antt =====
-- The two ways of src/exists.c to ask whether a name is bound, on the same reply.
use c2r.Common.{
  ℕ, ◌+◌, ◌%◌, ◌^◌, ◌<◌, ◌≡◌, refl, List, ◌++◌, some, false, not, ℤ, pos, is_neg, length,
  length-append, codes, String, arith, ◌==◌, inr,
}
use c2r.Os.{Os}
use c2r.Os.Actions.{bad}
use c2r.Os.Link.{Link, At, Runs, Runs-bind, Runs-pure, Runs-pass, Runs-guard}
use c2r.Wire.{Phdr}
use c2r.Wire.Constants.{cmd_eval, xt_array_bool}
use c2r.Client.Exec.{request, reply, IsReply, exec_str-reply}
use c2r.Client.Transfer.{Runs-alloc}
use c2r.Query.{byte_at}
use c2r.Query.Replies.{logical, Runs-ignore_status, Runs-sprintf, Runs-decode_bool}
use c2r.Exists.{quoted, ask, read_flag, exists2, exists1}

pub length-quoted :
    (prefix : String) (name : List ℕ)
    → length (quoted prefix name) ≡ length (codes prefix) + (length name + 2)
length-quoted prefix name =
    omega
      (arith, length-append (codes prefix) (name ++ codes "\")"), length-append name (codes "\")"))

module _ {os : Os} {sock : ℤ} (link : Link os sock) where
  Runs-ask :
      {s : os.State} {left sent : List ℕ} (prefix : String) (extra : ℕ) (name : List ℕ) (ph : Phdr)
      (dt w : ℕ) (out : List ℕ)
      → is_neg sock ≡ false
      → length name < 2 ^ 29
      → length (codes prefix) < extra
      → extra < 2 ^ 10
      → IsReply ph dt w xt_array_bool out
      → At link s (reply ph dt w out left) sent
      → Runs link
          (ask os prefix extra sock (some name))
          s
          (some out)
          left
          (sent ++ request cmd_eval (quoted prefix name))
  unfolding ask
  Runs-ask prefix extra name ph dt w out fd hn hp he is at =
      let len = length-quoted prefix name in
      Runs-guard link bad _ fd (
        Runs-pass link name _ (
          Runs-bind link _ (Runs-alloc link (length name + extra + 16) (omega arith) at) λ s1 at1.
            Runs-bind link _
              (Runs-sprintf link (length name + extra + 16) (quoted prefix name) (omega arith) at1)
              λ s2 at2. Runs-ignore_status link (
                exec_str-reply link (quoted prefix name) (pos xt_array_bool) ph dt w xt_array_bool
                  out fd (omega arith) is (inr refl) at2)))

  Runs-read_flag :
      {s : os.State} {left sent : List ℕ} (v p q r : ℕ)
      → At link s left sent
      → Runs link (read_flag os (some (logical v p q r))) s (not (v == 0)) left sent
  unfolding read_flag byte_at
  Runs-read_flag v p q r at =
      Runs-pass link (logical v p q r) _
        (Runs-guard link bad _ refl (Runs-pass link v _ (Runs-pure link (not (v == 0)) at)))

  -- Over a working connection `exists1` and `exists2` ask the same question in the same words. On a
  -- reply of one logical the first returns its lowest bit and the second whether it is not 0: they
  -- agree on TRUE and FALSE, and not on NA, which is 2. The name has less than 2^29 bytes, and the
  -- socket is not negative.
  pub exists1-exists2 :
      {s : os.State} {left sent : List ℕ} (name : List ℕ) (ph : Phdr) (dt w v p q r : ℕ)
      → is_neg sock ≡ false
      → length name < 2 ^ 29
      → IsReply ph dt w xt_array_bool (logical v p q r)
      → At link s (reply ph dt w (logical v p q r) left) sent
      → Runs link
          (exists1 os sock (some name))
          s
          (v % 2 == 1)
          left
          (sent ++ request cmd_eval (quoted "exists(\"" name))
        × Runs link
            (exists2 os sock (some name))
            s
            (not (v == 0))
            left
            (sent ++ request cmd_eval (quoted "exists(\"" name))
  unfolding exists1 exists2
  exists1-exists2 name ph dt w v p q r fd hn is at =
      let asked =
        Runs-ask "exists(\"" 10 name ph dt w (logical v p q r) fd hn (omega arith) (omega arith) is
          at in
      (
        Runs-bind link _ asked
            λ s1 at1. Runs-pass link (logical v p q r) _ (Runs-decode_bool link v p q r at1),
        Runs-bind link _ asked λ s1 at1. Runs-read_flag v p q r at1,
      )
