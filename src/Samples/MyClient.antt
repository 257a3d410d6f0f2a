-- ===== src/Samples/MyClient.antt =====
-- sample_client_socket/my_client.c: the benchmark's client.
pub mod Closing
pub mod Reply
use c2r.Common.{
  ℕ, zero, suc, ◌+◌, ◌-◌, ◌^◌, List, [], ◌∷◌, ◌++◌, Option, none, some, Bool, true, false, not,
  ◌||◌, ℤ, pos, negsuc, is_neg, is_nonpos, word_of, int_of, eq_int, length, take, replicate, le32,
  drop, ltb, leb, ◌==◌, if◌then◌else◌,
}
use c2r.Os.Actions.{
  Outcome, ok, err, fault, stuck, M, bad, pure, lift, crash, call, reject, deref, ◌>>=◌, ◌>>◌, try,
}
use c2r.Query.{int_at}
use c2r.Samples.{Net, port, localhost, lt_int, add_count, read_at}

-- the last loop of `func`: whether `k` bytes of the buffer are 2
unfoldable pub all_twos : ℕ → List ℕ → Outcome Bool
all_twos zero rcvbuf = ok true
all_twos (suc k) [] = fault
all_twos (suc k) (b ∷ rcvbuf) = let rest = all_twos k rcvbuf in if b == 2 then rest else ok false

-- the rounds of `for ( int j = sizeof(int); j < n; j++ )`
abbrev pub past_size : ℤ → ℕ
past_size (pos n) = n - 4
past_size (negsuc n) = 0

-- `argv[i]`, where `argc` is above i
abbrev pub arg_at : List (List ℕ) → ℕ → Option (List ℕ)
arg_at [] i = none
arg_at (arg ∷ argv) zero = some arg
arg_at (arg ∷ argv) (suc i) = arg_at argv i

-- `sendbuf`, with its size in front; a block of less than 4 bytes is written past its end
unfoldable pub message : ℕ → Option (List ℕ)
message n = if ltb n 4 then none else some (le32 n ++ replicate (n - 4) 1)

module _ (net : Net) where
  open net use {State, write, malloc, socket, connect, close, atoi, fresh}

  -- The loop reads up to `num_to_read` bytes in every round, whatever is missing, and takes a result
  -- of -1 into the sum. It may not end: the fuel bounds the rounds that are looked at.
  unfoldable pub rcv_loop : ℕ → ℤ → List ℕ → ℤ → ℤ → M State (List ℕ)
  rcv_loop zero sockfd rcvbuf num_read num_to_read = lift stuck
  rcv_loop (suc fuel) sockfd rcvbuf num_read num_to_read =
      if lt_int num_read num_to_read
      then (do
        (nr, buf) ← read_at net sockfd rcvbuf num_read (word_of 64 num_to_read)
        rcv_loop fuel sockfd buf (add_count num_read nr) num_to_read)
      else pure rcvbuf

  -- what follows the test of `n`: the results of `write` and of the first `read` are not looked at
  unfoldable pub round_trip : ℕ → ℤ → List ℕ → List ℕ → ℕ → M State (ℤ × List ℕ)
  round_trip fuel sockfd sendbuf rcvbuf bufsz = do
    nw ← call (write sockfd (take bufsz sendbuf))
    (nr, buf) ← read_at net sockfd rcvbuf (pos 0) 4
    num_to_read ← deref (int_at buf)
    buf ← rcv_loop fuel sockfd buf (pos 4) num_to_read
    twos ← lift (all_twos (past_size num_to_read) (drop 4 buf))
    pure (if twos then pos 0 else bad, buf)

  -- the status, and what `rcvbuf` holds
  unfoldable pub func : ℕ → ℤ → List ℕ → List ℕ → ℕ → M State (ℤ × List ℕ)
  func fuel sockfd sendbuf rcvbuf bufsz = do
    n ← deref (int_at sendbuf)
    if is_nonpos n || lt_int (pos bufsz) n
        then pure (bad, rcvbuf)
        else round_trip fuel sockfd sendbuf rcvbuf bufsz

  -- the loop of `main`, which drops the status of `func`
  unfoldable pub iterate : ℕ → ℕ → ℤ → List ℕ → List ℕ → ℕ → M State (Unit {0})
  iterate zero fuel sockfd sendbuf rcvbuf n = pure tt
  iterate (suc niters) fuel sockfd sendbuf rcvbuf n = do
    (status, buf) ← func fuel sockfd sendbuf rcvbuf n
    iterate niters fuel sockfd sendbuf buf n

  -- an argument that must be above 0, or the default
  unfoldable pub count_arg : Option (List ℕ) → ℕ → M State ℕ
  count_arg none default = pure default
  count_arg (some text) default = do
    reject (is_nonpos (atoi text)) bad
    pure (word_of 31 (atoi text))

  -- up to the call of `socket`: the size, the rounds and the socket
  unfoldable pub prepare : List (List ℕ) → M State (ℕ × ℕ × ℤ)
  prepare argv = do
    n ← count_arg (arg_at argv 1) 65536
    niters ← count_arg (arg_at argv 2) 16
    sent ← call (malloc n)
    reject (not sent) bad
    received ← call (malloc n)
    reject (not received) bad
    sockfd ← call socket
    reject (eq_int sockfd bad) bad
    pure (n, niters, sockfd)

  unfoldable pub run : ℕ → ℕ → ℕ → ℤ → M State ℤ
  run fuel n niters sockfd = do
    result ← call (connect sockfd port localhost)
    reject (not (eq_int result (pos 0))) bad
    sendbuf ← deref (message n)
    iterate niters fuel sockfd sendbuf (fresh n) n
    pure (pos 0)

  -- `BYE`: the socket is closed if it is negative
  unfoldable pub finish : Outcome (ℕ × ℕ × ℤ) → ℕ → M State ℤ
  finish (ok (n, niters, sockfd)) fuel = run fuel n niters sockfd
  finish (err e) fuel = do closed ← call (close (negsuc 0)); lift (err e)
  finish fault fuel = crash
  finish stuck fuel = lift stuck

  unfoldable pub main : ℕ → List (List ℕ) → M State ℤ
  main fuel argv = try (prepare argv) (λ r. finish r fuel)
