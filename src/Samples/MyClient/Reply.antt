-- ===== src/Samples/MyClient/Reply.antt =====
-- `func` of sample_client_socket/my_client.c on a reply that comes in any pieces.
use c2r.Common.{
  ℕ, zero, suc, ◌+◌, ◌-◌, ◌%◌, ◌^◌, ◌≤◌, ◌<◌, ◌≡◌, refl, ap, ◌∙◌, List, [], ◌∷◌, ◌++◌, true, false,
  ℤ, pos, is_nonpos, ◌||◌, length, take, drop, replicate, le32, length-append, length-drop,
  length-replicate, append_assoc, take_all, arith, ltb-false, lt→ltb,
}
use c2r.Os.Actions.{ok}
use c2r.Os.Link.{Link, At, Prompt, Runs, Runs-bind, Runs-pure, Runs-pass}
use c2r.Query.Replies.{int_at-le32}
use c2r.Samples.{Net, lt_int}
use c2r.Samples.Transfer.{next-Piece, Writes, Runs-write, Runs-read_size}
use c2r.Samples.MyClient.{all_twos, rcv_loop, round_trip, func}

-- the buffers that go to and fro
abbrev pub request : ℕ → List ℕ
request n = le32 n ++ replicate (n - 4) 1

abbrev pub reply : ℕ → List ℕ
reply n = le32 n ++ replicate (n - 4) 2

pub length-reply : (n b : ℕ) → 4 ≤ n → length (le32 n ++ replicate (n - 4) b) ≡ n
length-reply n b h = omega (arith, length-replicate {A = ℕ} (n - 4) b)

pub all_twos-replicate : (k : ℕ) → all_twos k (replicate k 2) ≡ ok true
unfolding all_twos
all_twos-replicate zero = refl
all_twos-replicate (suc k) = all_twos-replicate k

module _ (net : Net) {sock : ℤ} (link : Link net.os sock) where
  Runs-rcv_loop :
      (fuel : ℕ) {s : net.State} {sent : List ℕ} (n : ℕ) (done room want : List ℕ)
      → length want < fuel
      → length want ≡ length room
      → length done + length want ≡ n
      → n < 2 ^ 31
      → At link s want sent
      → Runs link
          (rcv_loop net fuel sock (done ++ room) (pos (length done)) (pos n))
          s
          (done ++ want)
          []
          sent
  unfolding rcv_loop
  Runs-rcv_loop zero n done room want f h e small at = absurd (omega arith)
  Runs-rcv_loop (suc fuel) n done [] [] f h e small at =
      rw (ltb-false (length done) n (omega arith)) (Runs-pure link (done ++ []) at)
  Runs-rcv_loop (suc fuel) n done (x ∷ room) [] f h e small at = absurd (omega arith)
  Runs-rcv_loop (suc fuel) {s} {sent} n done room (w ∷ want) f h e small at =
      let m : n % 2 ^ 64 ≡ n = omega arith in
      let p =
        next-Piece net link s n done room (w ∷ want) sent (omega arith) (omega arith) (omega arith)
          at in
      let sum : length (w ∷ want) ≡ length p.bs + length p.vs =
        ap length p.split ∙ length-append p.bs p.vs in
      let room' = drop (length p.bs) room in
      rw (lt→ltb (length done) n (omega arith)) (
        rw m (
          Runs-bind link _ p.runs λ s' at'.
            rw
              (
                p.split,
                ← append_assoc done p.bs p.vs,
                ← append_assoc done p.bs room',
                ← length-append done p.bs,
              )
              (Runs-rcv_loop fuel n (done ++ p.bs) room' p.vs (omega (arith, sum, p.some_bytes))
                (omega (arith, sum, length-drop (length p.bs) room))
                (omega (arith, sum, length-append done p.bs)) small at')))

  Runs-round_trip :
      {s : net.State} {sent : List ℕ} (fuel n : ℕ) (rcvbuf : List ℕ)
      → Prompt link
      → Writes net link
      → 4 ≤ n
      → n < 2 ^ 31
      → n ≤ fuel
      → length rcvbuf ≡ n
      → At link s (reply n) sent
      → Runs link
          (round_trip net fuel sock (request n) rcvbuf n)
          s
          (pos 0, reply n)
          []
          (sent ++ request n)
  unfolding round_trip
  Runs-round_trip fuel n rcvbuf prompt writes h small f len at =
      let twos : List ℕ = replicate (n - 4) 2 in
      let count : length twos ≡ n - 4 = length-replicate {A = ℕ} (n - 4) 2 in
      let room : List ℕ = drop 4 rcvbuf in
      let all : take n (request n) ≡ request n =
        take_all n (request n) (omega (arith, length-reply n 1 h)) in
      rw all (
        Runs-bind link _ (Runs-write net link (request n) writes at) λ s1 at1.
          Runs-bind link _ (Runs-read_size net link (le32 n) rcvbuf prompt refl (omega arith) at1)
            λ s2 at2. rw (int_at-le32 n room small) (
              Runs-pass link (pos n) _ (
                Runs-bind link _
                  (Runs-rcv_loop fuel n (le32 n) room twos (omega (arith, count))
                    (omega (arith, count, length-drop 4 rcvbuf)) (omega (arith, count)) small at2)
                  λ s3 at3.
                    rw (all_twos-replicate (n - 4))
                      (Runs-pass link true _ (Runs-pure link (pos 0, reply n) at3)))))

  -- Over a working connection that does not cut the size in front, `func` of a buffer of n bytes,
  -- 4 ≤ n < 2^31, sends it whole and returns 0 and the reply, if the server answers with n, in 4
  -- bytes, and n - 4 bytes of 2, in whatever pieces those come. No byte is stored outside the buffer,
  -- although each read asks for n, and the loop takes n rounds at most.
  pub func-reply :
      {s : net.State} {sent : List ℕ} (fuel n : ℕ) (rcvbuf : List ℕ)
      → Prompt link
      → Writes net link
      → 4 ≤ n
      → n < 2 ^ 31
      → n ≤ fuel
      → length rcvbuf ≡ n
      → At link s (reply n) sent
      → Runs link
          (func net fuel sock (request n) rcvbuf n)
          s
          (pos 0, reply n)
          []
          (sent ++ request n)
  unfolding func
  func-reply fuel n rcvbuf prompt writes h small f len at =
      rw (int_at-le32 n (replicate (n - 4) 1) small) (
        Runs-pass link (pos n) _ (
          rw
            (let in_range : (is_nonpos (pos n) || lt_int (pos n) (pos n)) ≡ false = ground arith in
              in_range)
            (Runs-round_trip fuel n rcvbuf prompt writes h small f len at)))
