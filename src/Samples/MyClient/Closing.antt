-- ===== src/Samples/MyClient/Closing.antt =====
-- `func` of sample_client_socket/my_client.c where the server closes the connection too early.
use c2r.Common.{
  ℕ, zero, suc, ◌+◌, ◌-◌, ◌%◌, ◌^◌, ◌≤◌, ◌<◌, ◌≡◌, refl, ap, ◌∙◌, List, [], ◌∷◌, ◌++◌, false, ℤ,
  pos, is_nonpos, ◌||◌, length, take, drop, replicate, le32, length-append, length-drop,
  append_assoc, take_all, arith, lt→ltb,
}
use c2r.Os.Actions.{stuck}
use c2r.Os.Ends.{Ends-bind, Stuck-first}
use c2r.Os.Link.{Link, At, Prompt}
use c2r.Client.Closing.{Closes}
use c2r.Query.Replies.{int_at-le32}
use c2r.Samples.{Net, lt_int}
use c2r.Samples.Transfer.{next-Piece, Writes, Runs-write, Runs-read_size, read_at-eof}
use c2r.Samples.MyClient.{rcv_loop, round_trip, func}
use c2r.Samples.MyClient.Reply.{request, length-reply}

module _ (net : Net) {sock : ℤ} (link : Link net.os sock) (closes : Closes link) where
  rcv_loop-eof :
      (fuel : ℕ) (s : net.State) (sent buf : List ℕ) (k n : ℕ)
      → k < n
      → At link s [] sent
      → (rcv_loop net fuel sock buf (pos k) (pos n) s).0 ≡ stuck
  unfolding rcv_loop
  rcv_loop-eof zero s sent buf k n h at = refl
  rcv_loop-eof (suc fuel) s sent buf k n h at =
      let r = read_at-eof net link closes s sent buf (pos k) (n % 2 ^ 64) at in
      let same : k + 0 ≡ k = omega arith in
      rw (lt→ltb k n h) (
        Ends-bind _ _ s r.final (pos 0, buf) stuck r.runs
          (rw same (rcv_loop-eof fuel r.final sent buf k n h r.at)))

  rcv_loop-short :
      (fuel : ℕ) (s : net.State) (sent : List ℕ) (n : ℕ) (done room want : List ℕ)
      → length want < length room
      → length done + length room ≡ n
      → n < 2 ^ 31
      → At link s want sent
      → (rcv_loop net fuel sock (done ++ room) (pos (length done)) (pos n) s).0 ≡ stuck
  unfolding rcv_loop
  rcv_loop-short zero s sent n done room want h e small at = refl
  rcv_loop-short (suc fuel) s sent n done room [] h e small at =
      rcv_loop-eof (suc fuel) s sent (done ++ room) (length done) n (omega arith) at
  rcv_loop-short (suc fuel) s sent n done room (w ∷ want) h e small at =
      let m : n % 2 ^ 64 ≡ n = omega arith in
      let p =
        next-Piece net link s n done room (w ∷ want) sent (omega arith) (omega arith) (omega arith)
          at in
      let sum : length (w ∷ want) ≡ length p.bs + length p.vs =
        ap length p.split ∙ length-append p.bs p.vs in
      let room' = drop (length p.bs) room in
      rw (lt→ltb (length done) n (omega arith)) (
        rw m (
          Ends-bind _ _ s p.runs.final _ stuck p.runs.runs (
            rw (← append_assoc done p.bs room', ← length-append done p.bs)
              (rcv_loop-short fuel p.runs.final sent n (done ++ p.bs) room' p.vs
                (omega (arith, sum, length-drop (length p.bs) room))
                (omega (arith, sum, length-drop (length p.bs) room, length-append done p.bs)) small
                p.runs.at))))

  -- Where the server closes the connection after the size and fewer than the n - 4 bytes that are to
  -- follow, `func` never returns: its loop takes the 0 that `read` returns for progress of 0 bytes,
  -- whatever the number of rounds. The buffers have n bytes, 4 ≤ n < 2^31, and the size is not cut.
  pub func-Closes :
      (s : net.State) (sent : List ℕ) (fuel n : ℕ) (rcvbuf want : List ℕ)
      → Prompt link
      → Writes net link
      → 4 ≤ n
      → n < 2 ^ 31
      → length rcvbuf ≡ n
      → 4 + length want < n
      → At link s (le32 n ++ want) sent
      → (func net fuel sock (request n) rcvbuf n s).0 ≡ stuck
  unfolding func round_trip
  func-Closes s sent fuel n rcvbuf want prompt writes h small len few at =
      let all : take n (request n) ≡ request n =
        take_all n (request n) (omega (arith, length-reply n 1 h)) in
      let in_range : (is_nonpos (pos n) || lt_int (pos n) (pos n)) ≡ false = ground arith in
      let room : List ℕ = drop 4 rcvbuf in
      let w = Runs-write net link (request n) writes at in
      let r = Runs-read_size net link (le32 n) rcvbuf prompt refl (omega arith) w.at in
      rw (int_at-le32 n (replicate (n - 4) 1) small) (
        Ends-bind _ _ s s (pos n) stuck refl (
          rw in_range (
            rw all (
              Ends-bind _ _ s w.final _ stuck w.runs (
                Ends-bind _ _ w.final r.final _ stuck r.runs (
                  rw (int_at-le32 n room small) (
                    Ends-bind _ _ r.final r.final (pos n) stuck refl (
                      Stuck-first _ _ r.final (
                        rcv_loop-short fuel r.final (sent ++ request n) n (le32 n) room want
                          (omega (arith, length-drop 4 rcvbuf))
                          (omega (arith, length-drop 4 rcvbuf)) small r.at)))))))))
