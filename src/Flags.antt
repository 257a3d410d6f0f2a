-- ===== src/Flags.antt =====
-- src/get_bool.c: a boolean of R, read and set.
pub mod Settles
pub mod Examples
pub mod Replies
use c2r.Common.{
  ℕ, ◌+◌, ◌%◌, List, ◌++◌, Option, some, Bool, true, not, ℤ, pos, negsuc, is_nonpos, word32, length,
  codes, ◌==◌, if◌then◌else◌,
}
use c2r.Os.{Os}
use c2r.Os.Actions.{M, bad, pure, reject, non_null, deref, ◌>>=◌, ◌>>◌}
use c2r.Wire.Constants.{xt_array_bool}
use c2r.Client.{alloc, exec_str}
use c2r.Query.{sprintf, ignore_status, byte_at}

-- The first byte is the count of the elements, the first bit of the second word the value.
unfoldable pub decode_bool : {S : Type 0} → List ℕ → M S Bool
decode_bool exec_out = do
  reject (not (length exec_out == 8)) bad
  num_elements ← deref (byte_at exec_out 0)
  reject (not (num_elements == 1)) bad
  pure (word32 exec_out 1 % 2 == 1)

module _ (os : Os) where
  open os use {State}

  pub get_bool : ℤ → Option (List ℕ) → M State Bool
  get_bool sock name = do
    reject (is_nonpos sock) bad
    name ← non_null name
    out ← ignore_status (exec_str os sock (some name) true (pos xt_array_bool))
    exec_out ← non_null out
    decode_bool exec_out

  pub set_bool : ℤ → Option (List ℕ) → Bool → M State (Unit {0})
  set_bool sock name x = do
    name ← deref name
    let len = length name + 10 + 16
    alloc os len
    cmd ← sprintf len (name ++ (if x then codes " <- TRUE " else codes " <- FALSE "))
    out ← exec_str os sock (some cmd) true (negsuc 0)
    pure tt
