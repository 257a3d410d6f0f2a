-- ===== src/Samples/MyServer/Serve.antt =====
-- A round of `func` of sample_client_socket/my_server.c.
use c2r.Common.{
  ℕ, zero, suc, ◌+◌, ◌-◌, ◌%◌, ◌^◌, ◌≤◌, ◌<◌, ◌≡◌, refl, sym, ap, ◌∙◌, List, [], ◌∷◌, ◌++◌, false,
  ℤ, pos, is_nonpos, ◌||◌, length, take, drop, replicate, le32, length-append, length-drop,
  length-replicate, drop_add, take-append, append_assoc, arith, ltb-false, lt→ltb, ◌==◌,
}
use c2r.Os.Actions.{ok, bad}
use c2r.Os.Link.{Link, At, Prompt, Runs, Runs-bind, Runs-pure, Runs-pass, Runs-guard}
use c2r.Os.Fails.{Fails, Fails-bind, Fails-first, Fails-pass, Fails-guard, Fails-reject}
use c2r.Client.Closing.{Closes}
use c2r.Query.Replies.{int_at-le32}
use c2r.Samples.{Net, lt_int}
use c2r.Samples.Transfer.{next-Piece, Writes, Runs-write, Runs-read_size, read_at-eof}
use c2r.Samples.MyClient.Reply.{request, reply, length-reply}
use c2r.Samples.MyServer.{to_twos, fill_loop, serve}

pub to_twos-replicate :
    (k : ℕ) (rest : List ℕ) → to_twos k (replicate k 1 ++ rest) ≡ ok (replicate k 2 ++ rest)
unfolding to_twos
to_twos-replicate zero rest = refl
to_twos-replicate (suc k) rest = rw (to_twos-replicate k rest, to_twos) refl

module _ (net : Net) {sock : ℤ} (link : Link net.os sock) where
  Runs-fill_loop :
      (fuel : ℕ) {s : net.State} {sent : List ℕ} (n : ℕ) (done room want : List ℕ)
      → length want < fuel
      → length want ≤ length room
      → length done + length want ≡ n
      → n < 2 ^ 31
      → At link s want sent
      → Runs link
          (fill_loop net fuel sock (done ++ room) (pos (length done)) (pos n))
          s
          (done ++ (want ++ drop (length want) room))
          []
          sent
  unfolding fill_loop
  Runs-fill_loop zero n done room want f h e small at = absurd (omega arith)
  Runs-fill_loop (suc fuel) n done room [] f h e small at =
      rw (ltb-false (length done) n (omega arith)) (Runs-pure link (done ++ room) at)
  Runs-fill_loop (suc fuel) {s} {sent} n done room (w ∷ want) f h e small at =
      let m : n % 2 ^ 64 ≡ n = omega arith in
      let p = next-Piece net link s n done room (w ∷ want) sent (omega arith) (omega arith) h at in
      let sum : length (w ∷ want) ≡ length p.bs + length p.vs =
        ap length p.split ∙ length-append p.bs p.vs in
      let more : (length p.bs == 0) ≡ false = ground (arith, p.some_bytes) in
      let room' = drop (length p.bs) room in
      let last : done ++ ((w ∷ want) ++ drop (length (w ∷ want)) room)
          ≡ (done ++ p.bs) ++ (p.vs ++ drop (length p.vs) room') =
        ap (λ x. done ++ (x ++ drop (length (w ∷ want)) room)) p.split
        ∙ ap (λ k. done ++ ((p.bs ++ p.vs) ++ drop k room)) sum
        ∙ ap (λ x. done ++ ((p.bs ++ p.vs) ++ x)) (drop_add (length p.bs) (length p.vs) room)
        ∙ ap (λ x. done ++ x) (append_assoc p.bs p.vs (drop (length p.vs) room'))
        ∙ sym (append_assoc done p.bs (p.vs ++ drop (length p.vs) room')) in
      rw (lt→ltb (length done) n (omega arith)) (
        rw m (
          rw last (
            Runs-bind link _ p.runs λ s' at'. Runs-guard link bad _ more (
              rw (← append_assoc done p.bs room', ← length-append done p.bs)
                (Runs-fill_loop fuel n (done ++ p.bs) room' p.vs (omega (arith, sum, p.some_bytes))
                  (omega (arith, sum, length-drop (length p.bs) room))
                  (omega (arith, sum, length-append done p.bs)) small at')))))

  -- Over a working connection that does not cut the size in front, a round of the server takes a
  -- message of n bytes, 4 ≤ n < 2^31, that fits its buffer, in whatever pieces it comes, and answers
  -- with the size and n - 4 bytes of 2. No byte is stored outside the buffer, although each read
  -- asks for n, if the client sends no more than the message; the rest of the buffer is left alone.
  pub serve-request :
      {s : net.State} {sent : List ℕ} (fuel n : ℕ) (buf : List ℕ)
      → Prompt link
      → Writes net link
      → 4 ≤ n
      → n < 2 ^ 31
      → n ≤ fuel
      → n ≤ length buf
      → At link s (request n) sent
      → Runs link
          (serve net fuel sock buf (length buf))
          s
          (reply n ++ drop n buf)
          []
          (sent ++ reply n)
  unfolding serve
  serve-request fuel n buf prompt writes h small f fits at =
      let ones : List ℕ = replicate (n - 4) 1 in
      let twos : List ℕ = replicate (n - 4) 2 in
      let count : length ones ≡ n - 4 = length-replicate {A = ℕ} (n - 4) 1 in
      let room : List ℕ = drop 4 buf in
      let in_range : (is_nonpos (pos n) || lt_int (pos (length buf)) (pos n)) ≡ false =
        ground arith in
      let tail : drop (length ones) room ≡ drop n buf =
        sym (drop_add 4 (length ones) buf)
        ∙ ap (λ k. drop k buf) (let e : 4 + length ones ≡ n = omega (arith, count) in e) in
      let out : take (n % 2 ^ 31) (reply n ++ drop n buf) ≡ reply n =
        ap (λ k. take k (reply n ++ drop n buf))
          (let e : n % 2 ^ 31 ≡ length (reply n) = omega (arith, length-reply n 2 h) in e)
        ∙ take-append (reply n) (drop n buf) in
      let order : le32 n ++ (twos ++ drop n buf) ≡ reply n ++ drop n buf = refl in
      Runs-bind link _ (Runs-read_size net link (le32 n) buf prompt refl (omega arith) at) λ s1 at1.
        rw (int_at-le32 n room small) (
          Runs-pass link (pos n) _ (
            Runs-guard link bad _ in_range (
              Runs-bind link _
                (Runs-fill_loop fuel n (le32 n) room ones (omega (arith, count))
                  (omega (arith, count, length-drop 4 buf)) (omega (arith, count)) small at1)
                λ s2 at2. rw tail (
                  rw (to_twos-replicate (n - 4) (drop n buf)) (
                    Runs-pass link (twos ++ drop n buf) _ (
                      rw out (
                        Runs-bind link _ (Runs-write net link (reply n) writes at2) λ s3 at3.
                          Runs-guard link bad _ refl
                            (Runs-pure link (reply n ++ drop n buf) at3))))))))

  Fails-eof :
      (fuel n : ℕ) {s : net.State} {sent : List ℕ} (buf : List ℕ)
      → Closes link
      → 4 < n
      → 0 < fuel
      → At link s [] sent
      → Fails link (fill_loop net fuel sock buf (pos 4) (pos n)) s bad [] sent
  unfolding fill_loop
  Fails-eof zero n buf closes h f at = absurd (omega arith)
  Fails-eof (suc fuel) n buf closes h f at = rw (lt→ltb 4 n h) (
      Fails-bind link _ (read_at-eof net link closes _ _ buf (pos 4) (n % 2 ^ 64) at)
        λ s1 at1. Fails-reject link bad _ refl at1)

  -- Once the client has closed the connection, a server whose buffer holds the answer of the last
  -- round, of more than 4 bytes, ends: the size of that answer is taken for the size of the next
  -- message, and the loop finds the end of the file.
  pub serve-Closes :
      {s : net.State} {sent : List ℕ} (fuel n : ℕ) (more : List ℕ)
      → Closes link
      → 4 < n
      → n < 2 ^ 31
      → 0 < fuel
      → n ≤ length (reply n ++ more)
      → At link s [] sent
      → Fails link (serve net fuel sock (reply n ++ more) (length (reply n ++ more))) s bad [] sent
  unfolding serve
  serve-Closes fuel n more closes h small f fits at =
      let buf : List ℕ = reply n ++ more in
      let in_range : (is_nonpos (pos n) || lt_int (pos (length buf)) (pos n)) ≡ false =
        ground arith in
      Fails-bind link _ (read_at-eof net link closes _ _ buf (pos 0) 4 at) λ s1 at1.
        rw (int_at-le32 n (replicate (n - 4) 2 ++ more) small) (
          Fails-pass link (pos n) _ (
            Fails-guard link bad _ in_range
              (Fails-first link _ (Fails-eof fuel n buf closes h f at1))))
