-- ===== src/Flags/Replies.antt =====
-- `get_bool` and `set_bool` of src/get_bool.c over a working connection.
use c2r.Common.{
  ℕ, ◌+◌, ◌%◌, ◌^◌, ◌<◌, ◌≡◌, refl, List, ◌++◌, some, Bool, true, false, ℤ, pos, negsuc, is_neg,
  is_nonpos, length, length-append, codes, arith, ◌==◌, inl, inr, if◌then◌else◌,
}
use c2r.Os.{Os}
use c2r.Os.Actions.{bad}
use c2r.Os.Link.{Link, At, Runs, Runs-bind, Runs-pure, Runs-pass, Runs-guard}
use c2r.Wire.{Phdr}
use c2r.Wire.Constants.{cmd_eval, xt_array_bool}
use c2r.Client.Exec.{request, reply, IsReply, exec_str-reply}
use c2r.Client.Transfer.{Runs-alloc}
use c2r.Flags.{get_bool, set_bool}
use c2r.Query.Replies.{is_neg-nonpos, logical, Runs-ignore_status, Runs-sprintf, Runs-decode_bool}

-- the command that sets a boolean
abbrev pub assignment : List ℕ → Bool → List ℕ
assignment name x = name ++ (if x then codes " <- TRUE " else codes " <- FALSE ")

length-assignment : (name : List ℕ) (x : Bool) → length (assignment name x) < length name + 10 + 16
length-assignment name true = omega (arith, length-append name (codes " <- TRUE "))
length-assignment name false = omega (arith, length-append name (codes " <- FALSE "))

-- a logical of R
abbrev pub bit : Bool → ℕ
bit true = 1
bit false = 0

module _ {os : Os} {sock : ℤ} (link : Link os sock) where
  -- Over a working connection `get_bool` evaluates the name and returns 0 and the lowest bit of the
  -- value, if the reply is one logical: TRUE for TRUE, FALSE for FALSE and FALSE for NA. The whole
  -- reply is taken off the socket. The name has less than 2^30 bytes, and the socket is above 0.
  get_bool-reply :
      {s : os.State} {left sent : List ℕ} (name : List ℕ) (ph : Phdr) (dt w v p q r : ℕ)
      → is_nonpos sock ≡ false
      → length name < 2 ^ 30
      → IsReply ph dt w xt_array_bool (logical v p q r)
      → At link s (reply ph dt w (logical v p q r) left) sent
      → Runs link (get_bool os sock (some name)) s (v % 2 == 1) left (sent ++ request cmd_eval name)
  unfolding get_bool
  get_bool-reply name ph dt w v p q r fd hn is at = Runs-guard link bad _ fd (
      Runs-pass link name _ (
        Runs-bind link _
          (Runs-ignore_status link (
            exec_str-reply link name (pos xt_array_bool) ph dt w xt_array_bool (logical v p q r)
              (is_neg-nonpos sock fd) hn is (inr refl) at))
          λ s1 at1. Runs-pass link (logical v p q r) _ (Runs-decode_bool link v p q r at1)))

  -- Over a working connection `set_bool` sends one request that assigns TRUE or FALSE to the name,
  -- takes the whole reply off the socket whatever the type of its value, and returns 0. The command
  -- never outgrows the buffer that it is printed into. The name has less than 2^29 bytes, the
  -- reply's data less than 2^30, and the socket is not negative.
  pub set_bool-reply :
      {s : os.State} {left sent : List ℕ} (name : List ℕ) (x : Bool) (ph : Phdr) (dt w xt : ℕ)
      (out : List ℕ)
      → is_neg sock ≡ false
      → length name < 2 ^ 29
      → IsReply ph dt w xt out
      → At link s (reply ph dt w out left) sent
      → Runs link
          (set_bool os sock (some name) x)
          s
          tt
          left
          (sent ++ request cmd_eval (assignment name x))
  unfolding set_bool
  set_bool-reply name x ph dt w xt out fd hn is at =
      let short = length-assignment name x in
      Runs-pass link name _ (
        Runs-bind link _ (Runs-alloc link (length name + 10 + 16) (omega arith) at) λ s1 at1.
          Runs-bind link _ (Runs-sprintf link (length name + 10 + 16) (assignment name x) short at1)
            λ s2 at2.
              Runs-bind link _
                (exec_str-reply link (assignment name x) (negsuc 0) ph dt w xt out fd (omega arith)
                  is (inl refl) at2)
                λ s3 at3. Runs-pure link tt at3)

  pub get_bool-bit :
      {s : os.State} {left sent : List ℕ} (name : List ℕ) (x : Bool) (ph : Phdr) (dt w p q r : ℕ)
      → is_nonpos sock ≡ false
      → length name < 2 ^ 30
      → IsReply ph dt w xt_array_bool (logical (bit x) p q r)
      → At link s (reply ph dt w (logical (bit x) p q r) left) sent
      → Runs link (get_bool os sock (some name)) s x left (sent ++ request cmd_eval name)
  get_bool-bit name true ph dt w p q r = get_bool-reply name ph dt w 1 p q r
  get_bool-bit name false ph dt w p q r = get_bool-reply name ph dt w 0 p q r
