-- ===== src/Samples/Chat.antt =====
-- sample_client_socket/client.c and sample_client_socket/server.c: a chat, a line at a time.
pub mod Lines
pub mod Rounds
pub mod Session
pub mod Examples
use c2r.Common.{
  ℕ, zero, suc, ◌+◌, ◌-◌, ◌^◌, List, [], ◌∷◌, ◌++◌, Option, none, some, Bool, true, false, not,
  ◌||◌, ℤ, pos, negsuc, is_neg, is_nonpos, word_of, int_of, eq_int, length, take, replicate, le32,
  drop, ltb, leb, ◌==◌, if◌then◌else◌, codes, bytes_eq, c_string,
}
use c2r.Os.Actions.{
  Outcome, ok, err, fault, stuck, M, bad, pure, lift, crash, call, reject, deref, ◌>>=◌, ◌>>◌,
}
use c2r.Samples.{Net, port, localhost, read_at}

-- `#define MAX 80`
abbrev pub max : ℕ
max = 80

-- `bzero(buff, sizeof(buff))`
abbrev pub zeros : List ℕ
zeros = replicate max 0

-- a line in the buffer, the rest of which is 0
abbrev pub padded_line : List ℕ → List ℕ
padded_line line = line ++ replicate (max - length line) 0

-- the byte that `getchar` returns, stored in a `char`
abbrev pub char_of : ℤ → ℕ
char_of c = word_of 8 c

-- `strncmp(buff, "exit", 4) == 0`
abbrev pub is_exit : List ℕ → Bool
is_exit buff = bytes_eq (take 4 buff) (codes "exit")

module _ (net : Net) where
  open net use {State, write, socket, bind, listen, accept, connect, close, getchar}

  -- `while ((buff[n++] = getchar()) != '\n')`: with `room` bytes left in the buffer
  pub read_line : ℕ → List ℕ → M State (List ℕ)
  read_line zero line = do c ← call getchar; crash
  read_line (suc room) line = do
    c ← call getchar
    let line' = line ++ char_of c ∷ []
    if char_of c == 10 then pure line' else read_line room line'

  -- one round of the client's chat: whether it is the last. What comes in is printed as a C string.
  pub client_round : ℤ → M State Bool
  client_round sockfd = do
    line ← read_line max []
    nw ← call (write sockfd (padded_line line))
    (nr, buff) ← read_at net sockfd zeros (pos 0) max
    shown ← deref (c_string buff)
    pure (is_exit buff)

  pub server_round : ℤ → M State Bool
  server_round sockfd = do
    (nr, buff) ← read_at net sockfd zeros (pos 0) max
    shown ← deref (c_string buff)
    line ← read_line max []
    nw ← call (write sockfd (padded_line line))
    pure (is_exit (padded_line line))

  -- a chat, up to its last round; `rounds` bounds those that are looked at
  unfoldable pub chat : ℕ → M State Bool → M State (Unit {0})
  chat zero round = lift stuck
  chat (suc rounds) round = do last ← round; if last then pure tt else chat rounds round

  unfoldable pub client : ℕ → M State ℤ
  client rounds = do
    sockfd ← call socket
    reject (eq_int sockfd bad) (pos 0)
    result ← call (connect sockfd port localhost)
    reject (not (eq_int result (pos 0))) (pos 0)
    chat rounds (client_round sockfd)
    status ← call (close sockfd)
    pure (pos 0)

  unfoldable pub server : ℕ → M State ℤ
  server rounds = do
    sockfd ← call socket
    reject (eq_int sockfd bad) (pos 0)
    bound ← call (bind sockfd port)
    reject (not (eq_int bound (pos 0))) (pos 0)
    listening ← call (listen sockfd 5)
    reject (not (eq_int listening (pos 0))) (pos 0)
    connfd ← call (accept sockfd)
    reject (is_neg connfd) (pos 0)
    chat rounds (server_round connfd)
    status ← call (close sockfd)
    pure (pos 0)
