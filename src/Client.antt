-- ===== src/Client.antt =====
-- The functions of src/aux_rcli.c that talk to the server. What the program prints is not
-- modelled, nor the release of memory. An `int` that holds a count of bytes is a number.
pub mod Closing
pub mod Connect
pub mod Errors
pub mod Greeting
pub mod Examples
pub mod Exec
pub mod Session
pub mod Settles
pub mod Status
pub mod Transfer
use c2r.Common.{
  ℕ, zero, suc, ◌+◌, ◌-◌, ◌%◌, ◌^◌, List, [], ◌++◌, Option, none, some, Bool, not, ◌&&◌, String, ℤ,
  pos, is_neg, is_nonpos, word_of, int_of, eq_int, word32, length, take, codes, bytes_eq, ◌==◌, leb,
  if◌then◌else◌,
}
use c2r.Os.{Os, ReadResult, got, failed, SockOpt, tcp_nodelay, rcv_timeout, snd_timeout}
use c2r.Os.Actions.{
  Outcome, ok, err, stuck, M, bad, at_eof, read_failed, pure, lift, call, reject, c_bye, non_null,
  ◌>>=◌, ◌>>◌,
}
use c2r.Wire.{Phdr, hdr_len, phdr_bytes, phdr_of, mk_hdr, mk_dt_string, Pointer, valid, is_null}
use c2r.Wire.Constants.{dt_sexp}

-- What a successful `get_buf_from_sock` leaves: the bytes in the buffer, and what it stores in
-- `*ptr_num_read`, if it does.
pub record Fill : Type 0 where
  pub bytes : List ℕ
  pub num_read : Option ℕ

-- the start of the ID string of a server
abbrev pub server_id : List ℕ
server_id = codes "Rsrv0103QAP1"

unfoldable pub received : ReadResult → Outcome (List ℕ)
received failed = err read_failed
received (got bs) = if length bs == 0 then err at_eof else ok bs

module _ (os : Os) where
  open os use {State, read, send, close, socket, connect, setsockopt, inet_pton, malloc}

  -- `read`, and the two tests of its result
  unfoldable pub read_some : ℤ → ℕ → M State (List ℕ)
  read_some sock n s = let (r, s') = read sock n s in (received r, s')

  -- `num_sent = send(...)`, and `if ( num_sent != ... ) { go_BYE(-1); }` in 64 bits
  unfoldable pub send_all : ℤ → List ℕ → M State (Unit {0})
  send_all sock bs = do
    num_sent ← call (send sock bs)
    reject (not (word_of 64 num_sent == length bs)) bad

  -- `malloc` and `return_if_malloc_failed`
  pub alloc : ℕ → M State (Unit {0})
  alloc n = do done ← call (malloc n); reject (not done) bad

  -- One round reads at most `buflen` bytes behind those in `buf`, of which `total_num_read` are in.
  unfoldable pub read_loop : ℕ → ℤ → ℕ → ℕ → ℕ → List ℕ → M State Fill
  read_loop zero sock num_to_read buflen total_num_read buf = lift stuck
  read_loop (suc fuel) sock num_to_read buflen total_num_read buf = do
    bs ← read_some sock buflen
    let total = total_num_read + length bs
    if leb num_to_read total
        then pure (record { bytes = buf ++ bs; num_read = some total })
        else read_loop fuel sock num_to_read (buflen - length bs) total (buf ++ bs)

  -- Each round reads a byte at least.
  unfoldable pub fill_buf : ℤ → ℕ → M State Fill
  fill_buf sock buflen =
      if buflen == 0
      then pure (record { bytes = []; num_read = none })
      else read_loop buflen sock buflen buflen 0 []

  unfoldable pub get_buf_from_sock : ℤ → Pointer → ℤ → M State Fill
  get_buf_from_sock sock buf buflen = do
    reject (is_neg sock) bad
    reject (is_neg buflen) bad
    reject (is_null buf) bad
    fill_buf sock (word_of 31 buflen)

  -- A header of another length, or a `res` other than 0, is only reported.
  pub read_hdr : ℤ → M State Phdr
  read_hdr sock = do hdr ← get_buf_from_sock sock valid (pos hdr_len); pure (phdr_of hdr.bytes)

  unfoldable pub close_conn : ℤ → M State ℤ
  close_conn sock = do
    reject (is_neg sock) bad
    status ← call (close sock)
    c_bye status
    pure status

  -- The payload of the reply, whose length is `payload_len`, behind 8 bytes of types.
  pub read_output : ℤ → ℤ → ℕ → M State (List ℕ)
  read_output sock expected_xt payload_len = do
    reject (payload_len == 0) bad
    let sz_out_buf = (payload_len + 2 ^ 64 - 8) % 2 ^ 64
    alloc sz_out_buf
    hdr ← get_buf_from_sock sock valid (pos 8)
    reject (not (word32 hdr.bytes 0 % 256 == dt_sexp)) bad
    let xt_val = word32 hdr.bytes 1 % 256
    reject (not (is_neg expected_xt) && not (eq_int (pos xt_val) expected_xt)) bad
    out_buf ← get_buf_from_sock sock valid (int_of sz_out_buf)
    pure out_buf.bytes

  -- `send` of the header and of `param1`
  unfoldable pub send_request : ℤ → String → List ℕ → M State (Unit {0})
  send_request sock r_cmd param1 = do
    ph ← mk_hdr (some (codes r_cmd)) (int_of (length param1)) valid
    send_all sock (phdr_bytes ph)
    send_all sock param1

  -- `want` says that `ptr_output` is not NULL; the result is then `*ptr_output`, and its length
  -- is `*ptr_len_out`.
  pub exec_str : ℤ → Option (List ℕ) → Bool → ℤ → M State (Option (List ℕ))
  exec_str sock str want expected_xt = do
    reject (is_neg sock) bad
    str ← non_null str
    param1 ← mk_dt_string os (some str)
    send_request sock (if want then "CMD_eval" else "CMD_voidEval") param1
    ph ← read_hdr sock
    if want
        then (do out ← read_output sock expected_xt (word_of 64 (int_of ph.len)); pure (some out))
        else pure none

  unfoldable pub rshutdown : ℤ → M State ℤ
  rshutdown sock = do
    ph ← mk_hdr (some (codes "CMD_shutdown")) (pos 0) valid
    send_all sock (phdr_bytes ph)
    outbuf ← read_some sock 32
    close_conn sock

  -- one call of `setsockopt` for a timeout, if it is above 0
  unfoldable pub set_timeout : ℤ → SockOpt → ℤ → M State (Unit {0})
  set_timeout sock opt sec =
      if is_nonpos sec then pure tt else do status ← call (setsockopt sock opt); c_bye status

  -- the ID string that the server sends first
  unfoldable pub check_id : ℤ → M State (Unit {0})
  check_id sock = do
    hdr ← get_buf_from_sock sock valid (pos 32)
    num_read ← non_null hdr.num_read
    reject (not (num_read == 32)) bad
    reject (not (bytes_eq (take 12 hdr.bytes) server_id)) bad

  -- The result is `*ptr_sock`. `htons` keeps 16 bits of the port.
  unfoldable pub rconnect : Option (List ℕ) → ℤ → ℤ → ℤ → M State ℤ
  rconnect server portnum snd_timeout_sec rcv_timeout_sec = do
    server ← non_null server
    reject (is_nonpos portnum) bad
    sock ← call socket
    reject (is_neg sock) bad
    c_bye (inet_pton server).0
    status ← call (connect sock (word_of 16 portnum) (inet_pton server).1)
    c_bye status
    result ← call (setsockopt sock (tcp_nodelay (pos 1)))
    reject (is_neg result) bad
    set_timeout sock (rcv_timeout rcv_timeout_sec) rcv_timeout_sec
    set_timeout sock (snd_timeout snd_timeout_sec) snd_timeout_sec
    check_id sock
    pure sock
