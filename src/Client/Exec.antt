-- ===== src/Client/Exec.antt =====
-- `exec_str` of src/aux_rcli.c over a working connection: what it sends, and what it makes of a reply.
use c2r.Common.{
  ℕ, ◌+◌, ◌-◌, ◌%◌, ◌^◌, ◌<◌, ◌≡◌, ◌⊎◌, inl, inr, refl, List, [], ◌∷◌, ◌++◌, none, some, true,
  false, not, ◌&&◌, ℤ, pos, is_neg, length, arith, append_assoc, le32, word32, word_of, int_of,
  eq_int, codes, String, int_of-small,
}
use c2r.Os.{Os}
use c2r.Os.Actions.{◌>>=◌, pure}
use c2r.Os.Link.{Link, At, Runs, Runs-bind, Runs-pure, Runs-pass, Runs-guard}
use c2r.Wire.{Phdr, phdr_bytes, valid, mk_hdr, command_code}
use c2r.Wire.Constants.{cmd_eval, cmd_void_eval, dt_sexp}
use c2r.Wire.Header.{IsPhdr, request_hdr, mk_hdr-ok, length-phdr_bytes}
use c2r.Wire.DtString.{param, length-param, Runs-mk_dt_string}
use c2r.Client.{fill_buf, get_buf_from_sock, send_request, read_output, exec_str}
use c2r.Client.Transfer.{Runs-alloc, Runs-send_all, get_buf_from_sock-want, Runs-read_hdr}

-- the bytes of a request with one string parameter
abbrev pub request : ℕ → List ℕ → List ℕ
request code str = phdr_bytes (request_hdr code (length (param str))) ++ param str

-- the bytes behind the header of a reply: two words of types, and the data
abbrev pub sexp : ℕ → ℕ → List ℕ → List ℕ
sexp dt xt out = (le32 dt ++ le32 xt) ++ out

-- A reply with one SEXP of type xt: its header, two words and the data, with what follows it.
abbrev pub reply : Phdr → ℕ → ℕ → List ℕ → List ℕ → List ℕ
reply ph dt w out left = phdr_bytes ph ++ (sexp dt w out ++ left)

pub record IsReply (ph : Phdr) (dt w xt : ℕ) (out : List ℕ) : Type 0 where
  pub header : IsPhdr ph
  pub len : ph.len ≡ 8 + length out
  pub small : length out < 2 ^ 30
  pub is_sexp : dt % 256 ≡ dt_sexp
  pub typed : w % 256 ≡ xt

pub payload_len : (len n : ℕ) → len ≡ 8 + n → n < 2 ^ 30 → word_of 64 (int_of len) ≡ 8 + n
payload_len len n e h = ground arith

-- The low byte of a word is its first byte.
pub low_byte : (w : ℕ) → word32 (le32 w) 0 % 256 ≡ w % 256
low_byte w = omega arith

xt_accepted :
    (expected_xt : ℤ) (xt : ℕ)
    → (is_neg expected_xt ≡ true) ⊎ (expected_xt ≡ pos (xt % 256))
    → (not (is_neg expected_xt) && not (eq_int (pos (word32 (le32 xt) 0 % 256)) expected_xt))
      ≡ false
xt_accepted expected_xt xt (inl neg) = rw neg
xt_accepted expected_xt xt (inr e) = rw (e, low_byte xt) (ground arith)

module _ {os : Os} {sock : ℤ} (link : Link os sock) where
  pub Runs-mk_hdr :
      {s : os.State} {left sent : List ℕ} (command : List ℕ) (len code : ℕ)
      → command_code command ≡ some code
      → len < 2 ^ 31
      → At link s left sent
      → Runs link (mk_hdr (some command) (int_of len) valid) s (request_hdr code len) left sent
  Runs-mk_hdr {s} command len code known h at =
      rw (int_of-small len h)
        (record { final = s; runs = mk_hdr-ok command len code s known (omega arith); at = at })

  pub Runs-send_request :
      {s : os.State} {left sent : List ℕ} (command : String) (str : List ℕ) (code : ℕ)
      → command_code (codes command) ≡ some code
      → length str < 2 ^ 30
      → At link s left sent
      → Runs link (send_request os sock command (param str)) s tt left (sent ++ request code str)
  unfolding send_request
  Runs-send_request {sent} command str code known h at =
      let ph = request_hdr code (length (param str)) in
      Runs-bind link _
        (Runs-mk_hdr (codes command) (length (param str)) code known
          (omega (arith, length-param str)) at)
        λ s' at'.
          Runs-bind link _
            (Runs-send_all link (phdr_bytes ph) (omega (arith, length-phdr_bytes ph)) at')
            λ s'' at''.
              rw (← append_assoc sent (phdr_bytes ph) (param str))
                (Runs-send_all link (param str) (omega (arith, length-param str)) at'')

  -- the data, of any length, none included
  Runs-get_data :
      {s : os.State} {left sent : List ℕ} (out : List ℕ) (n : ℕ)
      → is_neg sock ≡ false
      → length out ≡ n
      → n < 2 ^ 31
      → At link s (out ++ left) sent
      → Runs link (get_buf_from_sock os sock valid (int_of n) >>= λ b. pure b.bytes) s out left sent
  unfolding get_buf_from_sock fill_buf ◌>>=◌
  Runs-get_data [] n fd e h at =
      rw (let z : n ≡ 0 = omega arith in z) (record { final = _; runs = rw (fd, ◌>>=◌); at = at })
  Runs-get_data (x ∷ out) n fd e h at = rw (int_of-small n h) (
      Runs-bind link _ (get_buf_from_sock-want link (x ∷ out) n fd e (omega arith) h at)
        λ s' at'. Runs-pure link (x ∷ out) at')

  Runs-read_output :
      {s : os.State} {left sent : List ℕ} (expected_xt : ℤ) (dt xt : ℕ) (out : List ℕ) (n : ℕ)
      → is_neg sock ≡ false
      → dt % 256 ≡ dt_sexp
      → (is_neg expected_xt ≡ true) ⊎ (expected_xt ≡ pos (xt % 256))
      → n ≡ 8 + length out
      → length out < 2 ^ 30
      → At link s (sexp dt xt out ++ left) sent
      → Runs link (read_output os sock expected_xt n) s out left sent
  unfolding read_output
  Runs-read_output {left} expected_xt dt xt out n fd is_sexp xt_ok e h at =
      Runs-guard link _ _ (ground arith) (
        Runs-bind link _ (Runs-alloc link ((n + 2 ^ 64 - 8) % 2 ^ 64) (omega arith) at) λ s' at'.
          Runs-bind link _
            (get_buf_from_sock-want link (le32 dt ++ le32 xt) 8 fd refl (omega arith) (omega arith)
              at')
            λ s'' at''. Runs-guard link _ _ (rw (low_byte dt, is_sexp)) (
              Runs-guard link _ _ (xt_accepted expected_xt xt xt_ok) (
                Runs-get_data out ((n + 2 ^ 64 - 8) % 2 ^ 64) fd (omega arith) (omega arith) at'')))

  -- Over a working connection `exec_str` with an output sends one CMD_eval request that carries the
  -- command, takes one whole reply off the socket and returns its data, if the type of the reply is
  -- the one expected, or none is (a negative number). However the reply is cut on its way, neither
  -- a byte of what follows it is taken nor one of the reply left. The command and the data have
  -- less than 2^30 bytes each, and the socket is not negative.
  pub exec_str-reply :
      {s : os.State} {left sent : List ℕ} (str : List ℕ) (expected_xt : ℤ) (ph : Phdr) (dt w xt : ℕ)
      (out : List ℕ)
      → is_neg sock ≡ false
      → length str < 2 ^ 30
      → IsReply ph dt w xt out
      → (is_neg expected_xt ≡ true) ⊎ (expected_xt ≡ pos xt)
      → At link s (reply ph dt w out left) sent
      → Runs link
          (exec_str os sock (some str) true expected_xt)
          s
          (some out)
          left
          (sent ++ request cmd_eval str)
  unfolding exec_str command_code
  exec_str-reply str expected_xt ph dt w xt out fd hs r xt_ok at = Runs-guard link _ _ fd (
      Runs-pass link str _ (
        Runs-bind link _ (Runs-mk_dt_string link str (omega arith) at) λ s1 at1.
          Runs-bind link _ (Runs-send_request "CMD_eval" str cmd_eval refl hs at1) λ s2 at2.
            Runs-bind link _ (Runs-read_hdr link ph fd r.header at2) λ s3 at3.
              Runs-bind link _
                (Runs-read_output expected_xt dt w out (word_of 64 (int_of ph.len)) fd r.is_sexp
                  (rw r.typed xt_ok) (payload_len ph.len (length out) r.len r.small) r.small at3)
                λ s4 at4. Runs-pure link (some out) at4))

  -- `exec_str` with no output sends one CMD_voidEval request and returns 0 whatever header comes
  -- back: a response that reports an error is not told from one that does not, and the bytes that
  -- the header announces are left on the socket, in front of the next reply. The command has less
  -- than 2^30 bytes, and the socket is not negative.
  pub exec_str-void :
      {s : os.State} {left sent : List ℕ} (str : List ℕ) (expected_xt : ℤ) (ph : Phdr)
      → is_neg sock ≡ false
      → length str < 2 ^ 30
      → IsPhdr ph
      → At link s (phdr_bytes ph ++ left) sent
      → Runs link
          (exec_str os sock (some str) false expected_xt)
          s
          none
          left
          (sent ++ request cmd_void_eval str)
  unfolding exec_str command_code
  exec_str-void str expected_xt ph fd hs is at = Runs-guard link _ _ fd (
      Runs-pass link str _ (
        Runs-bind link _ (Runs-mk_dt_string link str (omega arith) at) λ s1 at1.
          Runs-bind link _ (Runs-send_request "CMD_voidEval" str cmd_void_eval refl hs at1)
            λ s2 at2.
              Runs-bind link _ (Runs-read_hdr link ph fd is at2) λ s3 at3. Runs-pure link none at3))
