-- ===== src/Client/Errors.antt =====
-- `exec_str` of src/aux_rcli.c on replies that it does not accept.
use c2r.Common.{
  ℕ, ◌+◌, ◌-◌, ◌%◌, ◌^◌, ◌<◌, ◌≡◌, ◌≢◌, refl, sym, ◌∙◌, List, ◌++◌, some, true, false, not, ◌&&◌, ℤ,
  pos, is_neg, length, arith, le32, word32, word_of, int_of, eq_int,
}
use c2r.Os.{Os}
use c2r.Os.Actions.{bad}
use c2r.Os.Link.{Link, At}
use c2r.Os.Fails.{Fails, Fails-bind, Fails-first, Fails-pass, Fails-guard, Fails-reject}
use c2r.Wire.{Phdr, phdr_bytes, command_code}
use c2r.Wire.Constants.{cmd_eval}
use c2r.Wire.Header.{IsPhdr}
use c2r.Wire.DtString.{Runs-mk_dt_string}
use c2r.Client.{read_output, exec_str}
use c2r.Client.Transfer.{Runs-alloc, get_buf_from_sock-want, Runs-read_hdr}
use c2r.Client.Exec.{request, reply, IsReply, low_byte, payload_len, Runs-send_request}

other_type :
    (xt xt' : ℕ)
    → xt % 256 ≢ xt'
    → (true && not (eq_int (pos (word32 (le32 xt) 0 % 256)) (pos xt'))) ≡ true
other_type xt xt' h = let low = low_byte xt in ground (arith, low)

module _ {os : Os} {sock : ℤ} (link : Link os sock) where
  -- a header that came back, and what `read_output` makes of it
  Fails-output :
      {s : os.State} {left left' sent : List ℕ} (str : List ℕ) (expected_xt e : ℤ) (ph : Phdr)
      → is_neg sock ≡ false
      → length str < 2 ^ 30
      → IsPhdr ph
      → ((t : os.State)
          → At link t left (sent ++ request cmd_eval str)
          → Fails link
              (read_output os sock expected_xt (word_of 64 (int_of ph.len)))
              t
              e
              left'
              (sent ++ request cmd_eval str))
      → At link s (phdr_bytes ph ++ left) sent
      → Fails link
          (exec_str os sock (some str) true expected_xt)
          s
          e
          left'
          (sent ++ request cmd_eval str)
  unfolding exec_str command_code
  Fails-output str expected_xt e ph fd hs is next at = Fails-guard link bad _ fd (
      Fails-pass link str _ (
        Fails-bind link _ (Runs-mk_dt_string link str (omega arith) at) λ s1 at1.
          Fails-bind link _ (Runs-send_request link "CMD_eval" str cmd_eval refl hs at1) λ s2 at2.
            Fails-bind link _ (Runs-read_hdr link ph fd is at2)
              λ s3 at3. Fails-first link _ (next s3 at3)))

  -- Where the header that comes back announces no payload, as for an R error, `exec_str` with an
  -- output returns -1, and what follows the header is left. The command has less than 2^30 bytes,
  -- and the socket is not negative.
  exec_str-no_payload :
      {s : os.State} {left sent : List ℕ} (str : List ℕ) (expected_xt : ℤ) (ph : Phdr)
      → is_neg sock ≡ false
      → length str < 2 ^ 30
      → IsPhdr ph
      → ph.len ≡ 0
      → At link s (phdr_bytes ph ++ left) sent
      → Fails link
          (exec_str os sock (some str) true expected_xt)
          s
          bad
          left
          (sent ++ request cmd_eval str)
  unfolding read_output
  exec_str-no_payload str expected_xt ph fd hs is z at =
      Fails-output str expected_xt bad ph fd hs is
        (λ t at'. Fails-reject link bad _ (rw z refl) at') at

  -- Where the reply is one SEXP of another type than the one expected, `exec_str` returns -1 behind
  -- its two words, and the data of the reply, if there is any, is left on the socket in front of
  -- what follows. The command and the data have less than 2^30 bytes each, and the socket is not
  -- negative.
  pub exec_str-other_type :
      {s : os.State} {sent : List ℕ} (left str : List ℕ) (xt' : ℕ) (ph : Phdr) (dt w xt : ℕ)
      (out : List ℕ)
      → is_neg sock ≡ false
      → length str < 2 ^ 30
      → IsReply ph dt w xt out
      → xt ≢ xt'
      → At link s (reply ph dt w out left) sent
      → Fails link
          (exec_str os sock (some str) true (pos xt'))
          s
          bad
          (out ++ left)
          (sent ++ request cmd_eval str)
  unfolding read_output
  exec_str-other_type left str xt' ph dt w xt out fd hs r ne at =
      Fails-output str (pos xt') bad ph fd hs r.header
        (λ t at'.
          let n = word_of 64 (int_of ph.len) in
          let len : n ≡ 8 + length out = payload_len ph.len (length out) r.len r.small in
          Fails-guard link bad _ (ground (arith, len, r.small)) (
            Fails-bind link _
              (Runs-alloc link ((n + 2 ^ 64 - 8) % 2 ^ 64) (omega (arith, len, r.small)) at')
              λ s1 at1.
                Fails-bind link _
                  (get_buf_from_sock-want link (le32 dt ++ le32 w) 8 fd refl (omega arith)
                    (omega arith) at1)
                  λ s2 at2.
                    Fails-guard link bad _ (rw (low_byte dt, r.is_sexp))
                      (Fails-reject link bad _ (other_type w xt' (λ e. ne (sym r.typed ∙ e))) at2)))
        at
