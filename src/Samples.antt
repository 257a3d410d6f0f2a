-- ===== src/Samples.antt =====
-- The sample programs of sample_client_socket/: a benchmark of two programs that pass a buffer back
-- and forth, and a chat. What the programs print and the clock are not modelled. The `int` counts of
-- bytes that `read` returns are integers, since the programs add a -1 to them.
pub mod MyClient
pub mod MyServer
pub mod Chat
pub mod Transfer
pub mod Echo
pub mod Console
pub mod Examples
use c2r.Common.{
  ℕ, zero, suc, ◌+◌, ◌-◌, List, [], ◌∷◌, ◌++◌, Option, none, some, Bool, true, false, ℤ, pos,
  negsuc, sub_nat, length, take, drop, ltb, leb, if◌then◌else◌,
}
use c2r.Os.{Os, ReadResult, got, failed}
use c2r.Os.Actions.{M, pure, crash, call, deref, ◌>>=◌}

-- What the samples call beside the calls of the library. `exit(e)` ends an action with `err e`.
pub record Net : Type 1 where
  pub os : Os
  pub open os use *
  -- `write(fd, buf, n)`: the count of the bytes written, or -1
  pub write : ℤ → List ℕ → State → ℤ × State
  -- `bind` to a port of any address, `listen` and `accept`
  pub bind : ℤ → ℕ → State → ℤ × State
  pub listen : ℤ → ℕ → State → ℤ × State
  pub accept : ℤ → State → ℤ × State
  -- what a block of n bytes holds when `malloc` returns it
  pub fresh : ℕ → List ℕ
  -- `getchar()`: a byte, or -1 at the end of the input
  pub getchar : State → ℤ × State

-- `#define PORT 8080`
abbrev pub port : ℕ
port = 8080

-- 127.0.0.1, as `inet_addr` gives it
abbrev pub localhost : ℕ
localhost = 0x0100007f

-- `a < b`
abbrev pub lt_int : ℤ → ℤ → Bool
lt_int (pos a) (pos b) = ltb a b
lt_int (pos a) (negsuc b) = false
lt_int (negsuc a) (pos b) = true
lt_int (negsuc a) (negsuc b) = ltb b a

-- `a + b`, for a count b
abbrev pub add_nat : ℤ → ℕ → ℤ
add_nat (pos a) b = pos (a + b)
add_nat (negsuc a) b = if leb b a then negsuc (a - b) else pos (b - a - 1)

-- Bytes stored from an index on; `none` where one lies outside the buffer.
pub store : List ℕ → ℕ → List ℕ → Option (List ℕ)
store buf i bs =
    if leb (i + length bs) (length buf)
    then some (take i buf ++ (bs ++ drop (i + length bs) buf))
    else none

-- The same from an index that may be negative; to store nothing is no fault.
pub store_at : List ℕ → ℤ → List ℕ → Option (List ℕ)
store_at buf i [] = some buf
store_at buf (pos i) (b ∷ bs) = store buf i (b ∷ bs)
store_at buf (negsuc i) (b ∷ bs) = none

-- `num_read += nr`, for the result of a `read`
abbrev pub add_count : ℤ → ℤ → ℤ
add_count num_read (pos nr) = add_nat num_read nr
add_count num_read (negsuc nr) = sub_nat num_read (nr + 1)

-- the result of a `read` into `buf + i`, and the buffer
pub received_at : {S : Type 0} → List ℕ → ℤ → ReadResult → M S (ℤ × List ℕ)
received_at buf i failed = pure (negsuc 0, buf)
received_at buf i (got bs) = do buf' ← deref (store_at buf i bs); pure (pos (length bs), buf')

module _ (net : Net) where
  open net use {State, read}

  -- `nr = read(fd, buf + i, n)`
  pub read_at : ℤ → List ℕ → ℤ → ℕ → M State (ℤ × List ℕ)
  read_at fd buf i n = do r ← call (read fd n); received_at buf i r
