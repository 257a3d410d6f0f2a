-- ===== src/Os.antt =====
-- What the client calls and does not implement: sockets, the allocator, `inet_pton` and `atoi`,
-- as a record of operations over an unknown state; and the actions of the library's functions,
-- which return, go to BYE with a negative status, or run into undefined behaviour.
pub mod Actions
pub mod Clean
pub mod Ends
pub mod Fails
pub mod Link
pub mod Returns
pub mod Script
pub mod Settles
use c2r.Common.{ℕ, List, Bool, ℤ}

-- `read` returns the bytes that it put into the buffer (none at the end of the file), or -1.
pub data ReadResult : Type 0 where
  got : List ℕ → ReadResult
  failed : ReadResult

-- The options that `rconnect` sets, with the value handed over.
pub data SockOpt : Type 0 where
  tcp_nodelay rcv_timeout snd_timeout : ℤ → SockOpt

pub record Os : Type 1 where
  pub State : Type 0
  -- `read(fd, buf, n)`
  pub read : ℤ → ℕ → State → ReadResult × State
  -- `send(fd, buf, n, 0)`: the count of the bytes sent, or -1
  pub send : ℤ → List ℕ → State → ℤ × State
  pub close : ℤ → State → ℤ × State
  -- `socket(AF_INET, SOCK_STREAM, 0)`
  pub socket : State → ℤ × State
  -- `connect` to a port and an IPv4 address
  pub connect : ℤ → ℕ → ℕ → State → ℤ × State
  pub setsockopt : ℤ → SockOpt → State → ℤ × State
  -- `inet_pton(AF_INET, text, &addr)`: its result, and the address, 0 where it sets none
  pub inet_pton : List ℕ → ℤ × ℕ
  -- `malloc(n)`: whether it returns a block
  pub malloc : ℕ → State → Bool × State
  -- `posix_memalign(&p, 16, n)`: 0 and a block, or an error number
  pub posix_memalign : ℕ → State → ℤ × State
  pub atoi : List ℕ → ℤ
