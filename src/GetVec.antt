-- ===== src/GetVec.antt =====
-- `get_vec` of src/get_vec.c. An error before `data` is declared goes to BYE, where `data` is freed:
-- the jump passes by its initialisation, so the pointer is indeterminate, which is a fault.
pub mod Booleans
pub mod Errors
pub mod Examples
pub mod Reads
pub mod Served
pub mod Settles
pub mod Store
pub mod Stored
use c2r.Common.{
  ℕ, ◌*◌, ◌/◌, List, Option, none, some, not, ℤ, pos, int_of, word_of, sub_nat, eq_int, codes,
  bytes_eq, ◌==◌, if◌then◌else◌,
}
use c2r.Os.{Os}
use c2r.Os.Actions.{
  Outcome, ok, err, fault, stuck, M, bad, pure, lift, reject, non_null, try, ◌>>=◌, ◌>>◌,
}
use c2r.Wire.{mk_dt_string, valid}
use c2r.Wire.Constants.{xt_array_int, xt_array_double, xt_array_bool}
use c2r.Client.{alloc, get_buf_from_sock, read_hdr, send_request}
use c2r.Scalar.{read_types}
use c2r.SetVec.{Elem}

-- the status, `*ptr_data` and `*ptr_n`
pub record VecOut : Type 0 where
  pub status : ℤ
  pub bytes : Option (List ℕ)
  pub n : ℤ

-- the types that can be read
pub readable_of : List ℕ → Outcome Elem
readable_of qtype =
    if bytes_eq qtype (codes "F8")
    then ok (record { width = 8; xt = xt_array_double })
    else if bytes_eq qtype (codes "I4")
    then ok (record { width = 4; xt = xt_array_int })
    else if bytes_eq qtype (codes "I1")
    then ok (record { width = 1; xt = xt_array_bool })
    else err bad

-- At BYE: an error frees `data` and clears the outputs.
abbrev pub vec_out : ℤ → Outcome (List ℕ) → Outcome VecOut
vec_out n (ok bytes) = ok (record { status = pos 0; bytes = some bytes; n = n })
vec_out n (err e) = ok (record { status = e; bytes = none; n = pos 0 })
vec_out n fault = fault
vec_out n stuck = stuck

-- At BYE before `data` is there.
abbrev pub early : {A : Type 0} → Outcome A → Outcome A
early (ok a) = ok a
early (err e) = fault
early fault = fault
early stuck = stuck

module _ (os : Os) where
  open os use {State}

  -- a vector of booleans has its count in front
  pub skip_count : ℤ → Elem → ℤ → M State ℤ
  skip_count sock e num_left_to_read =
      if e.xt == xt_array_bool
      then (do itmp ← get_buf_from_sock os sock valid (pos 4); pure (sub_nat num_left_to_read 4))
      else pure num_left_to_read

  -- up to the declaration of `data`: the width, and the bytes that are left
  pub request_vec : ℤ → Option (List ℕ) → Option (List ℕ) → M State (ℕ × ℤ)
  request_vec sock name qtype = do
    param1 ← mk_dt_string os name
    qtype ← non_null qtype
    e ← lift (readable_of qtype)
    send_request os sock "CMD_eval" param1
    ph ← read_hdr os sock
    len ← read_types os sock e.xt
    let num_left_to_read = sub_nat (int_of ph.len) 8
    reject (not (eq_int num_left_to_read (int_of len))) bad
    left ← skip_count sock e num_left_to_read
    pure (e.width, left)

  pub read_vec : ℤ → ℤ → M State (List ℕ)
  read_vec sock sz = do
    alloc os (word_of 64 sz)
    fill ← get_buf_from_sock os sock valid sz
    pure fill.bytes

  pub get_vec : ℤ → Option (List ℕ) → Option (List ℕ) → M State VecOut
  get_vec sock name qtype = do
    (width, left) ← try (request_vec sock name qtype) (λ r. lift (early r))
    let n = word_of 32 left / width
    try (read_vec sock (int_of (n * width))) (λ r. lift (vec_out (int_of n) r))
