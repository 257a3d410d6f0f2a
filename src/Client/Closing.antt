-- ===== src/Client/Closing.antt =====
-- `get_buf_from_sock` of src/aux_rcli.c where the server closes the connection too early.
use c2r.Common.{
  ℕ, zero, suc, ◌+◌, ◌-◌, ◌%◌, ◌^◌, ◌<◌, ◌≡◌, ◌≢◌, refl, sym, ap, ◌∙◌, List, [], ◌∷◌, ◌++◌, false,
  ℤ, pos, is_neg, length, length-append, length_pos, arith, ◌==◌, leb-false,
}
use c2r.Os.{Os, got}
use c2r.Os.Actions.{bad, at_eof}
use c2r.Os.Link.{Link, At}
use c2r.Os.Fails.{Fails, Fails-bind, Fails-first, Fails-guard}
use c2r.Wire.{valid}
use c2r.Client.{received, read_some, read_loop, fill_buf, get_buf_from_sock}
use c2r.Client.Transfer.{Runs-got}

module _ {os : Os} {sock : ℤ} (link : Link os sock) where
  -- Once all has been read, a read returns 0, the end of the file.
  abbrev pub Closes : Type 0
  Closes =
      (n : ℕ) (s : os.State)
      → link.incoming s ≡ []
      → (s' : os.State) × (os.read sock n s ≡ (got [], s'))
        × (link.incoming s' ≡ [])
        × (link.outgoing s' ≡ link.outgoing s)

  Fails-at_eof :
      {s : os.State} {sent : List ℕ} (n : ℕ)
      → Closes
      → At link s [] sent
      → Fails link (read_some os sock n) s at_eof [] sent
  unfolding read_some received
  Fails-at_eof {s} n closes at =
      let (s', e, l, o) = closes n s at.left_lem in
      record {
        final = s';
        fails = rw e refl;
        at = record { left_lem = l; sent_lem = o ∙ at.sent_lem };
      }

  Fails-read_loop :
      (fuel : ℕ) {s : os.State} {sent : List ℕ} (num_to_read buflen total : ℕ) (buf want : List ℕ)
      → Closes
      → length want < fuel
      → length want < buflen
      → total + buflen ≡ num_to_read
      → At link s want sent
      → Fails link (read_loop os fuel sock num_to_read buflen total buf) s at_eof [] sent
  unfolding read_loop
  Fails-read_loop zero num_to_read buflen total buf want closes h h' e at = absurd (omega arith)
  Fails-read_loop (suc fuel) num_to_read buflen total buf [] closes h h' e at =
      Fails-first link _ (Fails-at_eof buflen closes at)
  Fails-read_loop (suc fuel) {s} num_to_read buflen total buf (w ∷ want) closes h h' e at =
      let ne : link.incoming s ≢ [] = λ none. absurd (cc (none, at.left_lem)) in
      let (bs, s', run, bs_ne, le, inc, out) = link.read_lem buflen s (omega arith) ne in
      let nz : 0 < length bs = length_pos bs bs_ne in
      let rest = link.incoming s' in
      let sum : length (w ∷ want) ≡ length bs + length rest =
        ap length (sym at.left_lem ∙ inc) ∙ length-append bs rest in
      Fails-bind link _
        (Runs-got link buflen bs run nz (record { left_lem = refl; sent_lem = out ∙ at.sent_lem }))
        λ t at'. rw (leb-false num_to_read (total + length bs) (omega arith)) (
          Fails-read_loop fuel num_to_read (buflen - length bs) (total + length bs) (buf ++ bs) rest
            closes (omega arith) (omega arith) (omega arith) at')

  -- Where the server sends fewer than the n bytes that are asked for, n < 2^31, and closes the
  -- connection, `get_buf_from_sock` returns -2 after it has read what there was. The socket is not
  -- negative.
  pub get_buf_from_sock-Closes :
      {s : os.State} {sent : List ℕ} (n : ℕ) (want : List ℕ)
      → Closes
      → is_neg sock ≡ false
      → length want < n
      → n < 2 ^ 31
      → At link s want sent
      → Fails link (get_buf_from_sock os sock valid (pos n)) s at_eof [] sent
  unfolding get_buf_from_sock fill_buf
  get_buf_from_sock-Closes n want closes fd h h' at =
      let m : n % 2 ^ 31 ≡ n = omega arith in
      let some_bytes : (n == 0) ≡ false = ground arith in
      Fails-guard link bad _ fd (
        Fails-guard link bad _ refl (
          Fails-guard link bad _ refl
            (rw m (rw some_bytes (Fails-read_loop n n n 0 [] want closes h h (omega arith) at)))))
