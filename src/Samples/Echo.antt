-- ===== src/Samples/Echo.antt =====
-- The programs of sample_client_socket/my_client.c and my_server.c together: every call of `read` and
-- `write` is a step, the two take their steps in any order, and the connection is a queue of bytes
-- each way. A call may fail at any time (-1); a `write` puts some of its bytes in the queue, and a `read`
-- takes some of those there are, or, where there are none, returns 0 once the other end is closed. A
-- store outside a buffer is undefined behaviour and no step. Signals are left out.
pub mod Phases
pub mod Steps
pub mod Messages
pub mod Invariant
pub mod Reached
pub mod Progress
pub mod Safety
use c2r.Common.{
  ℕ, zero, suc, ◌-◌, ◌^◌, ◌≤◌, ◌<◌, ◌≡◌, refl, List, [], ◌∷◌, ◌++◌, Option, none, some, Bool, true,
  false, ◌||◌, ℤ, pos, negsuc, ◌⊎◌, is_nonpos, word_of, length, take, drop, if◌then◌else◌,
}
use c2r.Os.Actions.{Outcome, ok, err}
use c2r.Query.{int_at}
use c2r.Samples.{lt_int, add_nat, add_count, store_at}
use c2r.Samples.MyClient.{message, past_size}
use c2r.Samples.MyServer.{to_twos}

-- where the client is in a round of the loop of `main`: at the call of `write`, of the first `read`,
-- or at the head of the loop that reads the rest, with `num_read` and `num_to_read`; `c_ended` when the
-- program has ended, which closes its end of the connection
pub data ClientAt : Type 0 where
  c_write : ClientAt
  c_size : ClientAt
  c_read : ℤ → ℤ → ClientAt
  c_ended : ClientAt

-- where the server is in a round of `func`; `s_exited` after a call of `exit`, which closes its end
pub data ServerAt : Type 0 where
  s_size : ServerAt
  s_read : ℤ → ℤ → ServerAt
  s_exited : ServerAt

-- `size` and `szbuf` are the sizes of the buffers, `rounds` those that the client has not ended;
-- `up` has the bytes on the way to the server, `down` those on the way back.
pub record World : Type 0 where
  pub size : ℕ
  pub szbuf : ℕ
  pub rounds : ℕ
  pub client : ClientAt
  pub server : ServerAt
  pub rcvbuf : List ℕ
  pub buf : List ℕ
  pub up : List ℕ
  pub down : List ℕ

-- what a `read` of n bytes may give of a queue: some bytes, and the rest
pub record Chunk (queue : List ℕ) (n : ℕ) (bs rest : List ℕ) : Type 0 where
  pub split : queue ≡ bs ++ rest
  pub some_bytes : 0 < length bs
  pub few : length bs ≤ n

-- the server after the test of a size
abbrev pub checked : ℕ → ℤ → ServerAt
checked szbuf n = if is_nonpos n || lt_int (pos szbuf) n then s_exited else s_read (pos 4) n

pub data ClientStep (w w' : World) : Type 0 where
  -- The result of `write` is not looked at: some bytes, none after an error, may be lost.
  writes :
      (r : ℕ) (sendbuf out lost : List ℕ) (n : ℤ)
      → w.client ≡ c_write
      → w.rounds ≡ suc r
      → message w.size ≡ some sendbuf
      → int_at sendbuf ≡ some n
      → (is_nonpos n || lt_int (pos w.size) n) ≡ false
      → sendbuf ≡ out ++ lost
      → w' ≡ record w { client = c_size; up = w.up ++ out }
      → ClientStep w w'
  -- `func` refuses the size, and `main` drops its status.
  skips :
      (r : ℕ) (sendbuf : List ℕ) (n : ℤ)
      → w.client ≡ c_write
      → w.rounds ≡ suc r
      → message w.size ≡ some sendbuf
      → int_at sendbuf ≡ some n
      → (is_nonpos n || lt_int (pos w.size) n) ≡ true
      → w' ≡ record w { rounds = r }
      → ClientStep w w'
  -- Nor is that of the first `read`: a size may be cut, or be what the buffer held before.
  reads_size :
      (size rest buf' : List ℕ) (n : ℤ)
      → w.client ≡ c_size
      → w.down ≡ size ++ rest
      → length size ≤ 4
      → store_at w.rcvbuf (pos 0) size ≡ some buf'
      → int_at buf' ≡ some n
      → w' ≡ record w { client = c_read (pos 4) n; rcvbuf = buf'; down = rest }
      → ClientStep w w'
  reads :
      (k n : ℤ) (bs rest buf' : List ℕ)
      → w.client ≡ c_read k n
      → lt_int k n ≡ true
      → Chunk w.down (word_of 64 n) bs rest
      → store_at w.rcvbuf k bs ≡ some buf'
      → w' ≡ record w { client = c_read (add_nat k (length bs)) n; rcvbuf = buf'; down = rest }
      → ClientStep w w'
  -- a result of 0, of a closed connection or a read of no bytes, and one of -1
  reads_none :
      (k n : ℤ)
      → w.client ≡ c_read k n
      → lt_int k n ≡ true
      → ((w.down ≡ []) × (w.server ≡ s_exited)) ⊎ (n ≡ pos 0)
      → w' ≡ record w { client = c_read (add_count k (pos 0)) n }
      → ClientStep w w'
  read_fails :
      (k n : ℤ)
      → w.client ≡ c_read k n
      → lt_int k n ≡ true
      → w' ≡ record w { client = c_read (add_count k (negsuc 0)) n }
      → ClientStep w w'
  -- `main` drops the status that the test of the buffer gives.
  ends_round :
      (k n : ℤ) (r : ℕ)
      → w.client ≡ c_read k n
      → lt_int k n ≡ false
      → w.rounds ≡ suc r
      → w' ≡ record w { client = c_write; rounds = r }
      → ClientStep w w'
  ends : w.client ≡ c_write → w.rounds ≡ 0 → w' ≡ record w { client = c_ended } → ClientStep w w'

pub data ServerStep (w w' : World) : Type 0 where
  -- The result of the first `read` is not looked at.
  reads_size :
      (size rest buf' : List ℕ) (n : ℤ)
      → w.server ≡ s_size
      → w.up ≡ size ++ rest
      → length size ≤ 4
      → store_at w.buf (pos 0) size ≡ some buf'
      → int_at buf' ≡ some n
      → w' ≡ record w { server = checked w.szbuf n; buf = buf'; up = rest }
      → ServerStep w w'
  reads :
      (k n : ℤ) (bs rest buf' : List ℕ)
      → w.server ≡ s_read k n
      → lt_int k n ≡ true
      → Chunk w.up (word_of 64 n) bs rest
      → store_at w.buf k bs ≡ some buf'
      → w' ≡ record w { server = s_read (add_nat k (length bs)) n; buf = buf'; up = rest }
      → ServerStep w w'
  -- `nr == 0`
  sees_end :
      (k n : ℤ)
      → w.server ≡ s_read k n
      → lt_int k n ≡ true
      → w.up ≡ []
      → w.client ≡ c_ended
      → w' ≡ record w { server = s_exited }
      → ServerStep w w'
  read_fails :
      (k n : ℤ)
      → w.server ≡ s_read k n
      → lt_int k n ≡ true
      → w' ≡ record w { server = s_read (add_count k (negsuc 0)) n }
      → ServerStep w w'
  answers :
      (k n : ℤ) (twos out lost : List ℕ)
      → w.server ≡ s_read k n
      → lt_int k n ≡ false
      → to_twos (past_size n) (drop 4 w.buf) ≡ ok twos
      → take (word_of 31 n) (take 4 w.buf ++ twos) ≡ out ++ lost
      → w' ≡ record w { server = s_size; buf = take 4 w.buf ++ twos; down = w.down ++ out }
      → ServerStep w w'
  -- `nw < 0`
  write_fails :
      (k n : ℤ) (twos : List ℕ)
      → w.server ≡ s_read k n
      → lt_int k n ≡ false
      → to_twos (past_size n) (drop 4 w.buf) ≡ ok twos
      → w' ≡ record w { server = s_exited; buf = take 4 w.buf ++ twos }
      → ServerStep w w'
  refuses :
      (k n e : ℤ)
      → w.server ≡ s_read k n
      → lt_int k n ≡ false
      → to_twos (past_size n) (drop 4 w.buf) ≡ err e
      → w' ≡ record w { server = s_exited }
      → ServerStep w w'

pub data Step (w w' : World) : Type 0 where
  by_client : ClientStep w w' → Step w w'
  by_server : ServerStep w w' → Step w w'

-- a run of so many steps
pub data Run (w : World) : ℕ → World → Type 0 where
  here : Run w 0 w
  next : {m : ℕ} {v w' : World} → Run w m v → Step v w' → Run w (suc m) w'

-- Steps in which nothing goes wrong: a size is read whole, a message written whole, and no call fails.
abbrev pub IsWholeClient : {w w' : World} → ClientStep w w' → Type 0
IsWholeClient (ClientStep.writes r sendbuf out lost n at e m int valid split to) = lost ≡ []
IsWholeClient (ClientStep.skips r sendbuf n at e m int bad_size to) = Unit
IsWholeClient (ClientStep.reads_size size rest buf' n at q few st int to) = length size ≡ 4
IsWholeClient (ClientStep.reads k n bs rest buf' at lt ch st to) = Unit
IsWholeClient (ClientStep.reads_none k n at lt gone to) = Unit
IsWholeClient (ClientStep.read_fails k n at lt to) = ⊥
IsWholeClient (ClientStep.ends_round k n r at lt e to) = Unit
IsWholeClient (ClientStep.ends at e to) = Unit

abbrev pub IsWholeServer : {w w' : World} → ServerStep w w' → Type 0
IsWholeServer (ServerStep.reads_size size rest buf' n at q few st int to) = length size ≡ 4
IsWholeServer (ServerStep.reads k n bs rest buf' at lt ch st to) = Unit
IsWholeServer (ServerStep.sees_end k n at lt gone ended to) = Unit
IsWholeServer (ServerStep.read_fails k n at lt to) = ⊥
IsWholeServer (ServerStep.answers k n twos out lost at lt e split to) = lost ≡ []
IsWholeServer (ServerStep.write_fails k n twos at lt e to) = ⊥
IsWholeServer (ServerStep.refuses k n e at lt er to) = Unit

abbrev pub IsWhole : {w w' : World} → Step w w' → Type 0
IsWhole (by_client st) = IsWholeClient st
IsWhole (by_server st) = IsWholeServer st

-- Nothing goes wrong up to the end of the client, after which the server reads a closed connection.
abbrev pub IsWholeRun : {w w' : World} {m : ℕ} → Run w m w' → Type 0
IsWholeRun here = Unit
IsWholeRun (next {v} run st) = IsWholeRun run × (IsWhole st ⊎ (v.client ≡ c_ended))

-- when both have connected; the blocks of `malloc` hold anything
abbrev pub start : ℕ → List ℕ → List ℕ → World
start rounds rcvbuf buf = record {
  size = length rcvbuf;
  szbuf = length buf;
  rounds = rounds;
  client = c_write;
  server = s_size;
  rcvbuf = rcvbuf;
  buf = buf;
  up = [];
  down = [];
}
