-- ===== src/GetVec/Reads.antt =====
-- `get_vec` over a connection.
use c2r.Common.{
  ℕ, ◌+◌, ◌*◌, ◌/◌, ◌%◌, ◌^◌, ◌<◌, ◌≡◌, ◌≢◌, refl, List, ◌++◌, some, true, false, ℤ, pos, is_neg,
  length, arith, le32, int_of, sub_nat, ◌==◌, int_of-small,
}
use c2r.Os.{Os}
use c2r.Os.Actions.{ok}
use c2r.Os.Link.{Link, At, Prompt, Runs, Runs-bind, Runs-pure, Runs-pass, Runs-guard, Runs-try}
use c2r.Wire.{Phdr, phdr_bytes, command_code}
use c2r.Wire.Constants.{cmd_eval, dt_sexp, xt_array_bool}
use c2r.Wire.Header.{IsPhdr}
use c2r.Wire.DtString.{Runs-mk_dt_string}
use c2r.Client.Transfer.{Runs-alloc, get_buf_from_sock-want, Runs-read_hdr}
use c2r.Client.Exec.{request, Runs-send_request}
use c2r.Scalar.Reads.{IsTyped, left_over, Runs-read_types}
use c2r.SetVec.{Elem}
use c2r.GetVec.{readable_of, early, vec_out, skip_count, request_vec, read_vec, get_vec}

mul_div : (n k : ℕ) → 0 < k → n * k / k ≡ n
mul_div n k h = grind arith

module _ {os : Os} {sock : ℤ} (link : Link os sock) where
  Runs-read_vec :
      {s : os.State} {left sent : List ℕ} (out : List ℕ) (n : ℕ)
      → is_neg sock ≡ false
      → length out ≡ n
      → 0 < n
      → n < 2 ^ 30
      → At link s (out ++ left) sent
      → Runs link (read_vec os sock (int_of n)) s out left sent
  unfolding read_vec
  Runs-read_vec out n fd e h h' at = rw (int_of-small n (omega arith)) (
      Runs-bind link _ (Runs-alloc link (n % 2 ^ 64) (omega arith) at) λ s1 at1.
        Runs-bind link _ (get_buf_from_sock-want link out n fd e h (omega arith) at1)
          λ s2 at2. Runs-pure link out at2)

  Runs-request_vec :
      {s : os.State} {left left' sent : List ℕ} (name qtype : List ℕ) (e : Elem) (dt w : ℕ)
      (ph : Phdr) (len : ℕ) (rest : ℤ)
      → Prompt link
      → is_neg sock ≡ false
      → readable_of qtype ≡ ok e
      → length name < 2 ^ 30
      → IsPhdr ph
      → ph.len ≡ 8 + len
      → dt % 256 ≡ dt_sexp
      → IsTyped w e.xt len
      → ((t : os.State)
          → At link t left (sent ++ request cmd_eval name)
          → Runs link (skip_count os sock e (pos len)) t rest left' (sent ++ request cmd_eval name))
      → At link s (phdr_bytes ph ++ ((le32 dt ++ le32 w) ++ left)) sent
      → Runs link
          (request_vec os sock (some name) (some qtype))
          s
          (e.width, rest)
          left'
          (sent ++ request cmd_eval name)
  unfolding request_vec command_code
  Runs-request_vec name qtype e dt w ph len rest prompt fd q hn is h is_sexp typed skip at =
      let small : len < 2 ^ 30 = omega arith in
      Runs-bind link _ (Runs-mk_dt_string link name (omega arith) at) λ s1 at1.
        Runs-pass link qtype _ (
          rw q (
            Runs-pass link e _ (
              Runs-bind link _ (Runs-send_request link "CMD_eval" name cmd_eval refl hn at1)
                λ s2 at2. Runs-bind link _ (Runs-read_hdr link ph fd is at2) λ s3 at3.
                  Runs-bind link _ (Runs-read_types link dt w e.xt len prompt is_sexp typed at3)
                    λ s4 at4. rw (left_over ph.len len h small) (
                      Runs-guard link _ _ (rw (int_of-small len (omega arith)) (ground arith)) (
                        Runs-bind link _ (skip s4 at4)
                          λ s5 at5. Runs-pure link (e.width, rest) at5)))))

  Runs-get_vec :
      {s : os.State} {left' sent : List ℕ} (name qtype : List ℕ) (width n : ℕ) (out : List ℕ)
      → is_neg sock ≡ false
      → length out ≡ n * width
      → 0 < n
      → 0 < width
      → length out < 2 ^ 30
      → Runs link
          (request_vec os sock (some name) (some qtype))
          s
          (width, pos (n * width))
          (out ++ left')
          sent
      → Runs link
          (get_vec os sock (some name) (some qtype))
          s
          (record { status = pos 0; bytes = some out; n = pos n })
          left'
          sent
  unfolding get_vec
  Runs-get_vec name qtype width n out fd e hn hw h r =
      let small : n * width % 2 ^ 32 ≡ n * width = omega arith in
      let count : n * width % 2 ^ 32 / width ≡ n = rw small (mul_div n width hw) in
      let pos_len : 0 < n * width = grind arith in
      let fits : n < 2 ^ 30 = grind arith in
      Runs-bind link _ (Runs-try link _ early r refl) λ s1 at1. rw count (
        rw (int_of-small n (omega arith)) (
          Runs-try link _ (vec_out (pos n))
            (Runs-read_vec out (n * width) fd e pos_len (omega arith) at1) refl))

  -- Over a connection that cuts no message, `get_vec` of numbers returns 0, all of the vector's
  -- bytes and their count n, if the reply is a header, the words of one SEXP of the type that was
  -- asked for, and n > 0 elements of its width, less than 2^30 bytes. The name has less than 2^30
  -- bytes, and the socket is not negative.
  pub get_vec-numbers :
      {s : os.State} {left sent : List ℕ} (name qtype : List ℕ) (e : Elem) (dt w : ℕ) (ph : Phdr)
      (n : ℕ) (out : List ℕ)
      → Prompt link
      → is_neg sock ≡ false
      → readable_of qtype ≡ ok e
      → e.xt ≢ xt_array_bool
      → length name < 2 ^ 30
      → IsPhdr ph
      → ph.len ≡ 8 + length out
      → dt % 256 ≡ dt_sexp
      → IsTyped w e.xt (length out)
      → length out ≡ n * e.width
      → 0 < n
      → 0 < e.width
      → At link s (phdr_bytes ph ++ ((le32 dt ++ le32 w) ++ (out ++ left))) sent
      → Runs link
          (get_vec os sock (some name) (some qtype))
          s
          (record { status = pos 0; bytes = some out; n = pos n })
          left
          (sent ++ request cmd_eval name)
  unfolding skip_count
  get_vec-numbers name qtype e dt w ph n out prompt fd q ne hn is h is_sexp typed len h0 hw at =
      Runs-get_vec name qtype e.width n out fd len h0 hw (omega arith) (
        Runs-request_vec name qtype e dt w ph (length out) (pos (n * e.width)) prompt fd q hn is h
          is_sexp typed
          (λ t at'.
            rw (let z : (e.xt == xt_array_bool) ≡ false = ground arith in z)
              (rw len (Runs-pure link (pos (n * e.width)) at')))
          at)

  -- Over a connection that cuts no message, `get_vec` of booleans returns 0 and all the bytes
  -- behind the count in the reply; the number that it returns is that of these bytes, padding
  -- included, whatever the count says. There is one byte at least, the name has less than 2^30
  -- bytes, and the socket is not negative.
  get_vec-booleans :
      {s : os.State} {left sent : List ℕ} (name qtype : List ℕ) (e : Elem) (dt w count : ℕ)
      (ph : Phdr) (out : List ℕ)
      → Prompt link
      → is_neg sock ≡ false
      → readable_of qtype ≡ ok e
      → e.xt ≡ xt_array_bool
      → e.width ≡ 1
      → length name < 2 ^ 30
      → IsPhdr ph
      → ph.len ≡ 12 + length out
      → dt % 256 ≡ dt_sexp
      → IsTyped w e.xt (4 + length out)
      → 0 < length out
      → At link s (phdr_bytes ph ++ ((le32 dt ++ le32 w) ++ (le32 count ++ (out ++ left)))) sent
      → Runs link
          (get_vec os sock (some name) (some qtype))
          s
          (record { status = pos 0; bytes = some out; n = pos (length out) })
          left
          (sent ++ request cmd_eval name)
  unfolding skip_count
  get_vec-booleans name qtype e dt w count ph out prompt fd q xb wb hn is h is_sexp typed h0 at =
      let len : length out ≡ length out * e.width = rw wb (omega arith) in
      Runs-get_vec name qtype e.width (length out) out fd len h0 (omega arith) (omega arith) (
        Runs-request_vec name qtype e dt w ph (4 + length out) (pos (length out * e.width)) prompt
          fd q hn is (omega arith) is_sexp typed
          (λ t at'. rw (let z : (e.xt == xt_array_bool) ≡ true = ground arith in z) (
            Runs-bind link _
              (get_buf_from_sock-want link (le32 count) 4 fd refl (omega arith) (omega arith) at')
              λ t' at''.
                rw
                  (let z : sub_nat (pos (4 + length out)) 4 ≡ pos (length out * e.width) =
                      ground (arith, len) in
                    z)
                  (Runs-pure link (pos (length out * e.width)) at'')))
          at)
