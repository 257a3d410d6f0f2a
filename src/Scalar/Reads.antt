-- ===== src/Scalar/Reads.antt =====
-- `get_F8` and `get_I4` over a connection, and what a short read does to them.
use c2r.Common.{
  ℕ, ◌+◌, ◌/◌, ◌%◌, ◌^◌, ◌<◌, ◌≡◌, refl, List, ◌++◌, some, false, ℤ, pos, is_neg, length, arith,
  le32, word32, int_of, word_of, sub_nat, ◌==◌, int_of-small,
}
use c2r.Os.{Os, got}
use c2r.Os.Actions.{err, bad, ◌>>=◌}
use c2r.Os.Link.{Link, At, Prompt, Runs, Runs-bind, Runs-pure, Runs-guard}
use c2r.Wire.{Phdr, phdr_bytes, command_code}
use c2r.Wire.Constants.{cmd_eval, dt_sexp}
use c2r.Wire.Header.{IsPhdr, word-le32}
use c2r.Wire.DtString.{Runs-mk_dt_string}
use c2r.Client.{received, read_some}
use c2r.Client.Transfer.{Runs-read_hdr, Runs-read_prompt}
use c2r.Client.Exec.{request, low_byte, Runs-send_request}
use c2r.Scalar.{read_types, get_scalar}

-- A type word names the type and the length of what follows.
abbrev pub IsTyped : ℕ → ℕ → ℕ → Type 0
IsTyped w xt len = (w < 2 ^ 32) × (w % 256 ≡ xt) × (w / 256 ≡ len)

-- what is left of a reply behind the words
pub left_over : (len n : ℕ) → len ≡ 8 + n → n < 2 ^ 30 → sub_nat (int_of len) 8 ≡ pos n
left_over len n e h = ground arith

one_value : (k : ℕ) → 0 < k → k < 2 ^ 30 → int_of (word_of 64 (pos k) / k) ≡ pos 1
one_value k h h' = let e : k % 2 ^ 64 / k ≡ 1 = grind arith in rw e

module _ {os : Os} {sock : ℤ} (link : Link os sock) where
  pub Runs-read_types :
      {s : os.State} {left sent : List ℕ} (dt w xt len : ℕ)
      → Prompt link
      → dt % 256 ≡ dt_sexp
      → IsTyped w xt len
      → At link s ((le32 dt ++ le32 w) ++ left) sent
      → Runs link (read_types os sock xt) s len left sent
  unfolding read_types
  Runs-read_types dt w xt len prompt is_sexp typed at =
      Runs-bind link _ (Runs-read_prompt link (le32 dt ++ le32 w) prompt (omega arith) at) λ s1 at1.
        Runs-guard link bad _ refl (
          Runs-guard link _ _ (rw (low_byte dt, is_sexp)) (
            Runs-guard link _ _ (rw (low_byte w, typed.1) (ground arith)) (
              rw (let e : word32 (le32 w) 0 ≡ w = word-le32 w typed.0 in e)
                (rw typed.2 (Runs-pure link len at1)))))

  -- Over a connection that cuts no message, `get_F8` and `get_I4` (the type xt and the width of the
  -- value) send one CMD_eval request for the name, and return the value's bytes, if the reply is a
  -- header, the words of one SEXP of type xt and the value alone. The name has less than 2^30
  -- bytes, and the socket is not negative.
  pub get_scalar-reply :
      {s : os.State} {left sent : List ℕ} (name : List ℕ) (xt dt w : ℕ) (ph : Phdr) (value : List ℕ)
      → Prompt link
      → is_neg sock ≡ false
      → length name < 2 ^ 30
      → IsPhdr ph
      → ph.len ≡ 8 + length value
      → 0 < length value
      → dt % 256 ≡ dt_sexp
      → IsTyped w xt (length value)
      → At link s (phdr_bytes ph ++ ((le32 dt ++ le32 w) ++ (value ++ left))) sent
      → Runs link
          (get_scalar os xt (length value) sock (some name))
          s
          value
          left
          (sent ++ request cmd_eval name)
  unfolding get_scalar command_code
  get_scalar-reply name xt dt w ph value prompt fd hn is e hv is_sexp typed at =
      let small : length value < 2 ^ 30 = omega arith in
      Runs-bind link _ (Runs-mk_dt_string link name (omega arith) at) λ s1 at1.
        Runs-bind link _ (Runs-send_request link "CMD_eval" name cmd_eval refl hn at1) λ s2 at2.
          Runs-bind link _ (Runs-read_hdr link ph fd is at2) λ s3 at3.
            Runs-bind link _ (Runs-read_types dt w xt (length value) prompt is_sexp typed at3)
              λ s4 at4.
                Runs-guard link _ _
                  (rw
                    (
                      left_over ph.len (length value) e small,
                      int_of-small (length value) (omega arith),
                    )
                    (ground arith))
                  (Runs-guard link _ _
                    (rw
                      (left_over ph.len (length value) e small, one_value (length value) hv small))
                    (Runs-read_prompt link value prompt hv at4))

-- The words in front of a value are lost if they come in pieces: where `read` returns some of the 8
-- bytes that were asked for and not all, `get_F8` and `get_I4` give up with -1 and leave the rest of
-- the reply on the socket.
read_types-short :
    (os : Os) (sock : ℤ) (xt : ℕ) (s s' : os.State) (bs : List ℕ)
    → os.read sock 8 s ≡ (got bs, s')
    → 0 < length bs
    → length bs < 8
    → read_types os sock xt s ≡ (err bad, s')
unfolding read_types read_some received ◌>>=◌
read_types-short os sock xt s s' bs e h h' = rw e (
    let z : (length bs == 0) ≡ false = ground arith in
    let n : (length bs == 8) ≡ false = ground arith in rw z (rw n))
