-- ===== src/Wire.antt =====
-- The messages of src/aux_rcli.c: the header and the string parameter of a request, with the
-- constants of rincs/Rsrv.h that the client uses. A `char *` is an Option of the bytes before the
-- NUL; a struct in memory is the list of its bytes, on a little-endian machine.
pub mod Commands
pub mod Constants
pub mod Padding
pub mod DtString
pub mod Examples
pub mod Header
use c2r.Common.{
  ℕ, zero, suc, ◌+◌, ◌-◌, ◌*◌, ◌/◌, ◌%◌, ◌^◌, List, ◌++◌, Option, none, some, Bool, true, false,
  not, ℤ, pos, is_neg, eq_int, word_of, le32, word32, length, replicate, codes, bytes_eq, ◌==◌,
  if◌then◌else◌,
}
use c2r.Os.{Os}
use c2r.Os.Actions.{
  Outcome, ok, stuck, M, bad, pure, lift, call, reject, c_bye, non_null, ◌>>=◌, ◌>>◌,
}
use Constants.{cmd_shutdown, cmd_set_sexp, cmd_eval, cmd_void_eval, dt_string}

-- `struct phdr`: four ints, here as their bit patterns
pub record Phdr : Type 0 where
  pub cmd : ℕ
  pub len : ℕ
  pub msg_id : ℕ
  pub res : ℕ

-- `HDR_LEN`
abbrev pub hdr_len : ℕ
hdr_len = 16

-- The bytes of a header, as `send` takes them, and the header that `read` fills in.
unfoldable pub phdr_bytes : Phdr → List ℕ
phdr_bytes ph = le32 ph.cmd ++ (le32 ph.len ++ (le32 ph.msg_id ++ le32 ph.res))

unfoldable pub phdr_of : List ℕ → Phdr
phdr_of b = record { cmd = word32 b 0; len = word32 b 1; msg_id = word32 b 2; res = word32 b 3 }

-- `(len << 8) | type`, in 32 bits: the low byte of `len << 8` is 0, so `|` adds
unfoldable pub pack : ℕ → ℕ → ℕ
pack len type = (len * 256 + type) % 2 ^ 32

-- An address, where only NULL or not matters.
pub data Pointer : Type 0 where
  null valid : Pointer

abbrev pub is_null : Pointer → Bool
is_null null = true
is_null valid = false

-- the number of the command, if `mk_hdr` knows it
unfoldable pub command_code : List ℕ → Option ℕ
command_code command =
    if bytes_eq command (codes "CMD_shutdown")
    then some cmd_shutdown
    else if bytes_eq command (codes "CMD_setSEXP")
    then some cmd_set_sexp
    else if bytes_eq command (codes "CMD_eval")
    then some cmd_eval
    else if bytes_eq command (codes "CMD_voidEval")
    then some cmd_void_eval
    else none

-- The header is set field by field after the `memset`.
unfoldable pub mk_hdr : {S : Type 0} → Option (List ℕ) → ℤ → Pointer → M S Phdr
mk_hdr command payload_len ph = do
  command ← non_null command
  reject (is_null ph) bad
  reject (is_neg payload_len) bad
  code ← non_null (command_code command)
  pure (record { cmd = code; len = word_of 32 payload_len; msg_id = 0; res = 0 })

-- `for ( ; ; )`: stops at the first length for which the test fails
unfoldable pub pad_loop : ℕ → ℕ → Option ℕ
pad_loop zero len_name = none
pad_loop (suc fuel) len_name =
    let rest = pad_loop fuel (len_name + 1) in
    if ((len_name + 4) / 8) * 8 == len_name then some len_name else rest

-- A multiple of 8 is at most 7 steps away.
abbrev pub pad_fuel : ℕ
pad_fuel = 8

unfoldable pub padded : ℕ → Outcome ℕ
padded len_name = elim (pad_loop pad_fuel len_name) [ none ↦ stuck | some n ↦ ok n ]

-- the `memset` to 0, the header word and the `strcpy`
unfoldable pub dt_string_bytes : ℕ → List ℕ → List ℕ
dt_string_bytes len_name name =
    le32 (pack len_name dt_string) ++ (name ++ replicate (len_name - length name) 0)

module _ (os : Os) where
  open os use {State, posix_memalign}

  -- `posix_memalign`, `cBYE` and `return_if_malloc_failed`
  unfoldable pub memalign : ℕ → M State (Unit {0})
  memalign n = do
    status ← call (posix_memalign n)
    c_bye status
    reject (not (eq_int status (pos 0))) bad

  unfoldable pub mk_dt_string : Option (List ℕ) → M State (List ℕ)
  mk_dt_string name = do
    name ← non_null name
    len_name ← lift (padded (length name + 1))
    let len_param = 4 + len_name
    memalign len_param
    reject (not (len_param % 4 == 0)) bad
    pure (dt_string_bytes len_name name)
