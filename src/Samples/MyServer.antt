-- ===== src/Samples/MyServer.antt =====
-- sample_client_socket/my_server.c: the benchmark's server.
pub mod Serve
use c2r.Common.{
  ℕ, zero, suc, ◌+◌, ◌-◌, ◌^◌, List, [], ◌∷◌, ◌++◌, Option, none, some, Bool, true, false, not,
  ◌||◌, ℤ, pos, negsuc, is_neg, is_nonpos, word_of, int_of, eq_int, length, take, replicate, le32,
  drop, ltb, leb, ◌==◌, if◌then◌else◌,
}
use c2r.Os.Actions.{
  Outcome, ok, err, fault, stuck, M, bad, pure, lift, crash, call, reject, deref, ◌>>=◌, ◌>>◌,
}
use c2r.Query.{int_at}
use c2r.Samples.{Net, port, lt_int, add_count, read_at}
use c2r.Samples.MyClient.{past_size}

-- the last loop of a round: `k` bytes of the buffer, which must be 1, become 2
unfoldable pub to_twos : ℕ → List ℕ → Outcome (List ℕ)
to_twos zero buf = ok buf
to_twos (suc k) [] = fault
to_twos (suc k) (b ∷ buf) = elim (b == 1) [
  | false ↦ err bad
  | true ↦ elim (to_twos k buf) [
    | ok rest ↦ ok (2 ∷ rest)
    | err e ↦ err e
    | fault ↦ fault
    | stuck ↦ stuck
  ]
]

module _ (net : Net) where
  open net use {State, write, malloc, socket, bind, listen, accept, close, fresh}

  -- The loop ends on a result of 0, with `exit`, and takes a result of -1 into the sum. It may not
  -- end: the fuel bounds the rounds that are looked at.
  pub fill_loop : ℕ → ℤ → List ℕ → ℤ → ℤ → M State (List ℕ)
  fill_loop zero sockfd buf num_read num_to_read = lift stuck
  fill_loop (suc fuel) sockfd buf num_read num_to_read =
      if lt_int num_read num_to_read
      then (do
        (nr, buf) ← read_at net sockfd buf num_read (word_of 64 num_to_read)
        reject (eq_int nr (pos 0)) bad
        fill_loop fuel sockfd buf (add_count num_read nr) num_to_read)
      else pure buf

  -- one round of the loop of `func`; the result is the buffer
  pub serve : ℕ → ℤ → List ℕ → ℕ → M State (List ℕ)
  serve fuel sockfd buf szbuf = do
    (nr, buf) ← read_at net sockfd buf (pos 0) 4
    n ← deref (int_at buf)
    reject (is_nonpos n || lt_int (pos szbuf) n) bad
    buf ← fill_loop fuel sockfd buf (pos 4) n
    twos ← lift (to_twos (past_size n) (drop 4 buf))
    let buf = take 4 buf ++ twos
    nw ← call (write sockfd (take (word_of 31 n) buf))
    reject (is_neg nw) bad
    pure buf

  -- `func` has no other end than `exit`: `rounds` bounds the rounds that are looked at.
  unfoldable pub func : ℕ → ℕ → ℤ → List ℕ → ℕ → M State (Unit {0})
  func zero fuel sockfd buf szbuf = lift stuck
  func (suc rounds) fuel sockfd buf szbuf = do
    buf ← serve fuel sockfd buf szbuf
    func rounds fuel sockfd buf szbuf

  -- behind the call of `socket`, where BYE closes nothing
  unfoldable pub run : ℕ → ℕ → ℤ → M State (Unit {0})
  run rounds fuel sockfd = do
    bound ← call (bind sockfd port)
    reject (not (eq_int bound (pos 0))) bad
    listening ← call (listen sockfd 5)
    reject (not (eq_int listening (pos 0))) (pos 0)
    connfd ← call (accept sockfd)
    reject (is_neg connfd) bad
    done ← call (malloc 1048576)
    reject (not done) bad
    func rounds fuel connfd (fresh 1048576) 1048576

  unfoldable pub main : ℕ → ℕ → M State (Unit {0})
  main rounds fuel = do
    sockfd ← call socket
    if eq_int sockfd bad
        then (do closed ← call (close sockfd); lift (err bad))
        else run rounds fuel sockfd
