-- ===== src/NamedVec.antt =====
-- src/get_named_vec.c: the names and the values of a named vector of doubles.
pub mod Settles
pub mod Examples
pub mod Reads
use c2r.Common.{
  ℕ, suc, ◌+◌, ◌-◌, ◌*◌, ◌/◌, ◌%◌, ◌^◌, List, [], ◌∷◌, Option, not, ℤ, pos, int_of, word_of, eq_int,
  word32, ◌==◌, leb, if◌then◌else◌,
}
use c2r.Os.{Os}
use c2r.Os.Actions.{M, bad, pure, reject, ◌>>=◌, ◌>>◌}
use c2r.Wire.{hdr_len, phdr_of, mk_dt_string, valid}
use c2r.Wire.Constants.{dt_sexp, xt_list_tag, xt_array_str}
use c2r.Client.{get_buf_from_sock, send_request}

-- the bytes stored in `key_blob` and `vals`, and the two counts
pub record NamedOut : Type 0 where
  pub key_blob : List ℕ
  pub vals : List ℕ
  pub n_key_blob : ℕ
  pub n_vals : ℕ

-- the NULs in the names
unfoldable pub count_zeros : List ℕ → ℕ
count_zeros [] = 0
count_zeros (b ∷ bs) = if b == 0 then suc (count_zeros bs) else count_zeros bs

module _ (os : Os) where
  open os use {State}

  -- the words in front of the names: their size, if it fits
  pub read_key_size : ℤ → ℕ → ℤ → M State ℕ
  read_key_size sock sz_key_blob n1 = do
    reject (eq_int n1 (pos 0)) bad
    hdr ← get_buf_from_sock os sock valid (pos hdr_len)
    reject (not (word32 hdr.bytes 0 % 256 == dt_sexp)) bad
    let n2 = int_of (word32 hdr.bytes 0 / 256 + 2 ^ 32 - 12)
    reject (not (eq_int (int_of (word_of 64 n1 + 2 ^ 64 - hdr_len)) n2)) bad
    reject (not (word32 hdr.bytes 2 % 256 == xt_list_tag)) bad
    reject (not (word32 hdr.bytes 3 % 256 == xt_array_str)) bad
    reject (leb sz_key_blob (word32 hdr.bytes 3 / 256)) bad
    pure (word32 hdr.bytes 3 / 256)

  -- the names, 12 bytes that are skipped, and the values
  pub read_named : ℤ → ℕ → ℕ → M State NamedOut
  read_named sock l_sz_key_blob sz_vals = do
    keys ← get_buf_from_sock os sock valid (int_of l_sz_key_blob)
    let n_vals = count_zeros keys.bytes
    skipped ← get_buf_from_sock os sock valid (pos 12)
    reject (leb sz_vals n_vals) bad
    vals ← get_buf_from_sock os sock valid (int_of (n_vals * 8 % 2 ^ 32))
    pure (record {
      key_blob = keys.bytes;
      vals = vals.bytes;
      n_key_blob = l_sz_key_blob;
      n_vals = n_vals;
    })

  pub get_named_vec_f8 : ℤ → Option (List ℕ) → ℕ → ℕ → M State NamedOut
  get_named_vec_f8 sock name sz_key_blob sz_vals = do
    param1 ← mk_dt_string os name
    send_request os sock "CMD_eval" param1
    ph ← get_buf_from_sock os sock valid (pos hdr_len)
    l_sz_key_blob ← read_key_size sock sz_key_blob (int_of (phdr_of ph.bytes).len)
    read_named sock l_sz_key_blob sz_vals
