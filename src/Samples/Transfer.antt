-- ===== src/Samples/Transfer.antt =====
-- Reads into a buffer over a working connection, as the samples make them: a read may ask for more
-- than is still to come, and gets some of that.
use c2r.Common.{
  ℕ, ◌+◌, ◌≤◌, ◌<◌, ◌≡◌, ◌≢◌, refl, sym, ap, ◌∙◌, List, [], ◌∷◌, ◌++◌, some, true, ℤ, pos, length,
  drop, length-append, drop_add, length_pos, take-append, drop-append, arith, leb, le→leb,
}
use c2r.Os.Actions.{call, ◌>>=◌}
use c2r.Os.Link.{Prompt, Link, At, Runs}
use c2r.Client.Closing.{Closes}
use c2r.Samples.{Net, store, store_at, received_at, read_at}

-- Bytes that fit behind `done` take the place of as many.
pub store_at-append :
    (done room bs : List ℕ)
    → length bs ≤ length room
    → store_at (done ++ room) (pos (length done)) bs ≡ some (done ++ (bs ++ drop (length bs) room))
unfolding store_at store
store_at-append done room [] h = refl
store_at-append done room (b ∷ bs) h =
    let k = length (b ∷ bs) in
    let fits : leb (length done + k) (length (done ++ room)) ≡ true =
      le→leb (length done + k) (length (done ++ room)) (omega (arith, length-append done room)) in
    let rest : drop (length done + k) (done ++ room) ≡ drop k room =
      drop_add (length done) k (done ++ room) ∙ ap (drop k) (drop-append done room) in
    rw fits (rw rest (rw (take-append done room) refl))

module _ (net : Net) {sock : ℤ} (link : Link net.os sock) where
  -- A blocking `write` takes all of a buffer.
  abbrev pub Writes : Type 0
  Writes =
      (bs : List ℕ) (s : net.State)
      → (s' : net.State) × (net.write sock bs s ≡ (pos (length bs), s'))
        × (link.incoming s' ≡ link.incoming s)
        × (link.outgoing s' ≡ link.outgoing s ++ bs)

  pub Runs-write :
      {s : net.State} {left sent : List ℕ} (bs : List ℕ)
      → Writes
      → At link s left sent
      → Runs link (call (net.write sock bs)) s (pos (length bs)) left (sent ++ bs)
  Runs-write {s} bs writes at =
      let (s', e, l, o) = writes bs s in
      record {
        final = s';
        runs = rw e refl;
        at = record { left_lem = l ∙ at.left_lem; sent_lem = o ∙ ap (λ x. x ++ bs) at.sent_lem };
      }

  -- the size in front of a message, where the network does not cut it
  pub Runs-read_size :
      {s : net.State} {left sent : List ℕ} (size buf : List ℕ)
      → Prompt link
      → length size ≡ 4
      → 4 ≤ length buf
      → At link s (size ++ left) sent
      → Runs link (read_at net sock buf (pos 0) 4) s (pos 4, size ++ drop 4 buf) left sent
  unfolding read_at received_at ◌>>=◌
  Runs-read_size {s} {left} size buf prompt e h at =
      let (s', run, inc, out) = prompt s size left (omega arith) at.left_lem in
      let stored = store_at-append [] buf size (omega arith) in
      rw (← e) (record {
        final = s';
        runs = rw run (rw stored refl);
        at = record { left_lem = inc; sent_lem = out ∙ at.sent_lem };
      })

  -- a read of up to n bytes behind `done`, where `want` is all that is to come
  pub record Piece (s : net.State) (n : ℕ) (done room want sent : List ℕ) : Type 0 where
    pub bs : List ℕ
    pub vs : List ℕ
    pub split : want ≡ bs ++ vs
    pub some_bytes : 0 < length bs
    pub few : length bs ≤ n
    pub runs :
        Runs link
          (read_at net sock (done ++ room) (pos (length done)) n)
          s
          (pos (length bs), done ++ (bs ++ drop (length bs) room))
          vs
          sent

  pub next-Piece :
      (s : net.State) (n : ℕ) (done room want sent : List ℕ)
      → 0 < n
      → 0 < length want
      → length want ≤ length room
      → At link s want sent
      → Piece s n done room want sent
  unfolding read_at received_at ◌>>=◌
  next-Piece s n done room want sent hn hw fits at =
      let ne : link.incoming s ≢ [] = λ none. length-ne-nil want hw (sym at.left_lem ∙ none) in
      let (bs, s', run, bs_ne, le, inc, out) = link.read_lem n s hn ne in
      let split : want ≡ bs ++ link.incoming s' = sym at.left_lem ∙ inc in
      let sum : length want ≡ length bs + length (link.incoming s') =
        ap length split ∙ length-append bs (link.incoming s') in
      let stored = store_at-append done room bs (omega arith) in
      record {
        bs = bs;
        vs = link.incoming s';
        split = split;
        some_bytes = length_pos bs bs_ne;
        few = le;
        runs = record {
          final = s';
          runs = rw run (rw stored refl);
          at = record { left_lem = refl; sent_lem = out ∙ at.sent_lem };
        };
      }
    where
      length-ne-nil : (xs : List ℕ) → 0 < length xs → xs ≢ []
      length-ne-nil [] h e = absurd (omega arith)
      length-ne-nil (x ∷ xs) h e = cc

  -- a read at the end of the file
  pub read_at-eof :
      Closes link
      → (s : net.State) (sent buf : List ℕ) (i : ℤ) (n : ℕ) → At link s [] sent
      → Runs link (read_at net sock buf i n) s (pos 0, buf) [] sent
  unfolding read_at received_at store_at ◌>>=◌
  read_at-eof closes s sent buf i n at =
      let (s', e, l, o) = closes n s at.left_lem in
      record {
        final = s';
        runs = rw e refl;
        at = record { left_lem = l; sent_lem = o ∙ at.sent_lem };
      }
