-- ===== src/VecLen.antt =====
-- The two functions of the name `get_vec_len`: that of src/get_vec.c, which the library is built
-- from, and that of src/get_vec_len.c, which tests its arguments.
pub mod Settles
pub mod Examples
pub mod Replies
use c2r.Common.{ℕ, ◌+◌, List, Option, some, true, ℤ, pos, negsuc, is_neg, length, codes, ◌==◌}
use c2r.Os.{Os}
use c2r.Os.Actions.{
  Outcome, ok, err, fault, stuck, M, bad, lift, reject, non_null, deref, try, ◌>>=◌, ◌>>◌,
}
use c2r.Wire.Constants.{xt_array_int}
use c2r.Client.{alloc, exec_str}
use c2r.Query.{sprintf, int_at}
use c2r.Frame.{call_text}

-- What the second function leaves: its status, and `*ptr_n` where it has written it.
pub record LenOut : Type 0 where
  pub status : ℤ
  pub n : Option ℤ

-- Once `*ptr_n` is -1, an error leaves it so.
abbrev pub len_out : Outcome ℤ → Outcome LenOut
len_out (ok n) = ok (record { status = pos 0; n = some n })
len_out (err e) = ok (record { status = e; n = some (negsuc 0) })
len_out fault = fault
len_out stuck = stuck

module _ (os : Os) where
  open os use {State}

  -- `length(name)`, in a buffer that holds the name and `extra` bytes
  pub query_len : ℕ → ℤ → List ℕ → M State ℤ
  query_len extra sock name = do
    let len = length name + extra
    alloc os len
    cmd ← sprintf len (call_text (codes "length") name)
    out ← exec_str os sock (some cmd) true (pos xt_array_int)
    exec_out ← non_null out
    reject (length exec_out == 0) bad
    deref (int_at exec_out)

  pub get_vec_len : ℤ → Option (List ℕ) → M State ℤ
  get_vec_len sock name = do name ← deref name; query_len 16 sock name

  pub checked_vec_len : ℤ → Option (List ℕ) → M State LenOut
  checked_vec_len sock name = do
    reject (is_neg sock) bad
    name ← non_null name
    try (query_len (8 + 16) sock name) (λ r. lift (len_out r))
