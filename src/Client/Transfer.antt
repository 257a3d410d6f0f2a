-- ===== src/Client/Transfer.antt =====
-- `send_all`, `alloc`, `get_buf_from_sock` and `read_hdr` of src/aux_rcli.c over a working connection.
use c2r.Common.{
  ℕ, zero, suc, ◌+◌, ◌-◌, ◌%◌, ◌^◌, ◌≤◌, ◌<◌, ◌≡◌, ◌≢◌, refl, sym, ap, ◌∙◌, List, [], ◌∷◌, ◌++◌,
  some, true, false, ℤ, pos, is_neg, length, arith, ◌==◌, append_split, append_assoc, length-append,
  append-ne-nil, length_pos, leb, le→leb, leb-false, append-nil, if◌then◌else◌,
}
use c2r.Os.{Os, got}
use c2r.Os.Actions.{◌>>=◌, pure, bad, call}
use c2r.Os.Link.{Link, At, Prompt, Runs, Runs-bind, Runs-pure, Runs-guard}
use c2r.Wire.{Phdr, phdr_bytes, hdr_len, valid}
use c2r.Wire.Header.{IsPhdr, phdr_of-phdr_bytes, length-phdr_bytes}
use c2r.Client.{
  Fill, received, read_some, send_all, alloc, read_loop, fill_buf, get_buf_from_sock, read_hdr,
}

abbrev pub filled : List ℕ → Fill
filled bs = record { bytes = bs; num_read = some (length bs) }

module _ {os : Os} {sock : ℤ} (link : Link os sock) where
  pub Runs-malloc :
      {s : os.State} {left sent : List ℕ} (n : ℕ)
      → n < 2 ^ 63
      → At link s left sent
      → Runs link (call (os.malloc n)) s true left sent
  Runs-malloc {s} n h at =
      let (s', e, l, o) = link.malloc_lem n s h in
      record {
        final = s';
        runs = rw e;
        at = record { left_lem = l ∙ at.left_lem; sent_lem = o ∙ at.sent_lem };
      }

  pub Runs-alloc :
      {s : os.State} {left sent : List ℕ} (n : ℕ)
      → n < 2 ^ 63
      → At link s left sent
      → Runs link (alloc os n) s tt left sent
  unfolding alloc
  Runs-alloc n h at = Runs-bind link _ (Runs-malloc n h at) λ s' at'. Runs-pure link tt at'

  pub Runs-send_all :
      {s : os.State} {left sent : List ℕ} (bs : List ℕ)
      → length bs < 2 ^ 63
      → At link s left sent
      → Runs link (send_all os sock bs) s tt left (sent ++ bs)
  unfolding send_all ◌>>=◌
  Runs-send_all {s} bs h at =
      let (s', e, l, o) = link.send_lem bs s in
      record {
        final = s';
        runs = rw e (ground arith);
        at = record { left_lem = l ∙ at.left_lem; sent_lem = o ∙ ap (λ x. x ++ bs) at.sent_lem };
      }

  -- A read that returns `bs` hands them on, unless it is at the end of the file.
  pub Runs-got :
      {s s' : os.State} {left sent : List ℕ} (n : ℕ) (bs : List ℕ)
      → os.read sock n s ≡ (got bs, s')
      → 0 < length bs
      → At link s' left sent
      → Runs link (read_some os sock n) s bs left sent
  unfolding read_some received
  Runs-got {s'} n bs e h at = record {
    final = s';
    runs = rw (e, read_some) (ground arith);
    at = at;
  }

  -- one round, where `bs` comes in and `vs` is still missing
  Runs-round :
      (fuel num_to_read total : ℕ) {s : os.State} {left sent : List ℕ} (buf bs vs : List ℕ)
      → total + length bs + length vs ≡ num_to_read
      → length buf ≡ total
      → At link s (vs ++ left) sent
      → (0 < length vs
          → Runs link
              (read_loop os fuel sock num_to_read (length vs) (total + length bs) (buf ++ bs))
              s
              (filled ((buf ++ bs) ++ vs))
              left
              sent)
      → Runs link
          (if leb num_to_read (total + length bs)
            then pure (record { bytes = buf ++ bs; num_read = some (total + length bs) })
            else read_loop os fuel sock num_to_read
                (length (bs ++ vs) - length bs)
                (total + length bs)
                (buf ++ bs))
          s
          (filled (buf ++ (bs ++ vs)))
          left
          sent
  Runs-round fuel num_to_read total buf bs [] e b at again =
      rw (le→leb num_to_read (total + length bs) (omega arith), append-nil)
        (rw
          (let d : total + length bs ≡ length (buf ++ bs) = omega (arith, length-append buf bs) in
            d)
          (Runs-pure link (filled (buf ++ bs)) at))
  Runs-round fuel num_to_read total buf bs (v ∷ vs) e b at again =
      let d : length (bs ++ v ∷ vs) - length bs ≡ length (v ∷ vs) =
        omega (arith, length-append bs (v ∷ vs)) in
      rw (leb-false num_to_read (total + length bs) (omega arith))
        (rw (d, ← append_assoc buf bs (v ∷ vs)) (again (omega arith)))

  Runs-read_step :
      (fuel : ℕ) {s s' : os.State} {left sent : List ℕ} (num_to_read total : ℕ)
      (buf want bs vs : List ℕ)
      → os.read sock (length want) s ≡ (got bs, s')
      → 0 < length bs
      → want ≡ bs ++ vs
      → At link s' (vs ++ left) sent
      → total + length want ≡ num_to_read
      → length buf ≡ total
      → ((t : os.State)
          → At link t (vs ++ left) sent
          → 0 < length vs
          → Runs link
              (read_loop os fuel sock num_to_read (length vs) (total + length bs) (buf ++ bs))
              t
              (filled ((buf ++ bs) ++ vs))
              left
              sent)
      → Runs link
          (read_loop os (suc fuel) sock num_to_read (length want) total buf)
          s
          (filled (buf ++ want))
          left
          sent
  unfolding read_loop
  Runs-read_step fuel num_to_read total buf want bs vs e nz p at sum b again =
      Runs-bind link _ (Runs-got (length want) bs e nz at) λ t at'. rw p (
        Runs-round fuel num_to_read total buf bs vs
          (omega (arith, ap length p, length-append bs vs)) b at' (again t at'))

  Runs-read_loop :
      (fuel : ℕ) {s : os.State} {left sent : List ℕ} (num_to_read total : ℕ) (buf want : List ℕ)
      → length want ≤ fuel
      → 0 < length want
      → total + length want ≡ num_to_read
      → length buf ≡ total
      → At link s (want ++ left) sent
      → Runs link
          (read_loop os fuel sock num_to_read (length want) total buf)
          s
          (filled (buf ++ want))
          left
          sent
  Runs-read_loop zero num_to_read total buf want h h' e b at = absurd (omega arith)
  Runs-read_loop (suc fuel) {s} {left} num_to_read total buf want h h' e b at =
      let ne : link.incoming s ≢ [] = λ none. append-ne-nil want left h' (sym at.left_lem ∙ none) in
      let (bs, s', run, bs_ne, le, inc, out) = link.read_lem (length want) s h' ne in
      let (vs, p, q) = append_split bs (link.incoming s') want left (sym inc ∙ at.left_lem) le in
      let nz : 0 < length bs = length_pos bs bs_ne in
      let sum : length want ≡ length bs + length vs = ap length p ∙ length-append bs vs in
      Runs-read_step fuel num_to_read total buf want bs vs run nz p
        (record { left_lem = q; sent_lem = out ∙ at.sent_lem }) e b
        λ t at' more.
          Runs-read_loop fuel num_to_read (total + length bs) (buf ++ bs) vs (omega arith) more
            (omega arith) (omega (arith, length-append buf bs)) at'

  Runs-fill_buf :
      {s : os.State} {left sent : List ℕ} (want : List ℕ) (n : ℕ)
      → length want ≡ n
      → 0 < n
      → At link s (want ++ left) sent
      → Runs link (fill_buf os sock n) s (filled want) left sent
  unfolding fill_buf
  Runs-fill_buf want n e h at =
      rw (let d : (n == 0) ≡ false = ground arith in d, ← e)
        (Runs-read_loop (length want) (length want) 0 [] want (omega arith) (omega arith)
          (omega arith) refl at)

  -- Over a working connection on which n bytes are to come, 0 < n < 2^31, `get_buf_from_sock` of n
  -- bytes returns 0, those bytes in order and n as their number, in whatever pieces they come; it
  -- sends nothing, and what follows them stays on the socket. The socket is not negative.
  pub get_buf_from_sock-want :
      {s : os.State} {left sent : List ℕ} (want : List ℕ) (n : ℕ)
      → is_neg sock ≡ false
      → length want ≡ n
      → 0 < n
      → n < 2 ^ 31
      → At link s (want ++ left) sent
      → Runs link (get_buf_from_sock os sock valid (pos n)) s (filled want) left sent
  unfolding get_buf_from_sock
  get_buf_from_sock-want want n fd e h h' at = Runs-guard link _ _ fd (
      Runs-guard link bad _ refl (
        Runs-guard link bad _ refl
          (Runs-fill_buf want (n % 2 ^ 31) (omega arith) (omega arith) at)))

  pub Runs-read_hdr :
      {s : os.State} {left sent : List ℕ} (ph : Phdr)
      → is_neg sock ≡ false
      → IsPhdr ph
      → At link s (phdr_bytes ph ++ left) sent
      → Runs link (read_hdr os sock) s ph left sent
  unfolding read_hdr
  Runs-read_hdr ph fd is at =
      Runs-bind link _
        (get_buf_from_sock-want (phdr_bytes ph) hdr_len fd (length-phdr_bytes ph) (omega arith)
          (omega arith) at)
        λ s' at'. rw (phdr_of-phdr_bytes ph is) (Runs-pure link ph at')

  -- one `read` that takes all of a message
  pub Runs-read_prompt :
      {s : os.State} {left sent : List ℕ} (bs : List ℕ)
      → Prompt link
      → 0 < length bs
      → At link s (bs ++ left) sent
      → Runs link (read_some os sock (length bs)) s bs left sent
  Runs-read_prompt {s} {left} bs prompt h at =
      let (s', e, l, o) = prompt s bs left h at.left_lem in
      Runs-got (length bs) bs e h (record { left_lem = l; sent_lem = o ∙ at.sent_lem })
