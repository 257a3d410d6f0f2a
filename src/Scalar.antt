-- ===== src/Scalar.antt =====
-- src/get_F8.c and src/get_I4.c, which differ in the type and the width of the value alone.
pub mod Examples
pub mod Reads
pub mod Settles
use c2r.Common.{
  ℕ, ◌%◌, ◌/◌, List, Option, not, ℤ, pos, int_of, word_of, sub_nat, eq_int, word32, length, ◌==◌,
}
use c2r.Os.{Os}
use c2r.Os.Actions.{M, bad, pure, reject, ◌>>=◌, ◌>>◌}
use c2r.Wire.{mk_dt_string}
use c2r.Wire.Constants.{dt_sexp, xt_array_int, xt_array_double}
use c2r.Client.{read_some, read_hdr, send_request}

module _ (os : Os) where
  open os use {State}

  -- the two words that precede the value, taken by one `read`; the result is the length in them
  pub read_types : ℤ → ℕ → M State ℕ
  read_types sock xt = do
    hdr ← read_some os sock 8
    reject (not (length hdr == 8)) bad
    reject (not (word32 hdr 0 % 256 == dt_sexp)) bad
    reject (not (word32 hdr 1 % 256 == xt)) bad
    pure (word32 hdr 1 / 256)

  -- The result is what the last `read` puts into `*ptr_dval`: as many bytes as it returns.
  pub get_scalar : ℕ → ℕ → ℤ → Option (List ℕ) → M State (List ℕ)
  get_scalar xt width sock name = do
    param1 ← mk_dt_string os name
    send_request os sock "CMD_eval" param1
    ph ← read_hdr os sock
    len ← read_types sock xt
    let num_left_to_read = sub_nat (int_of ph.len) 8
    reject (not (eq_int num_left_to_read (int_of len))) bad
    let n = int_of (word_of 64 num_left_to_read / width)
    reject (not (eq_int n (pos 1))) bad
    read_some os sock width

  unfoldable pub get_f8 : ℤ → Option (List ℕ) → M State (List ℕ)
  get_f8 = get_scalar xt_array_double 8

  unfoldable pub get_i4 : ℤ → Option (List ℕ) → M State (List ℕ)
  get_i4 = get_scalar xt_array_int 4
