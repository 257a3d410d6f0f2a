-- ===== src/Exists.antt =====
-- src/exists.c: whether a name is bound, asked in two ways, and whether it is a vector.
pub mod Settles
pub mod Examples
pub mod Replies
use c2r.Common.{
  ℕ, ◌+◌, List, ◌++◌, Option, some, Bool, true, not, ℤ, pos, is_neg, length, codes, String, ◌==◌,
}
use c2r.Os.{Os}
use c2r.Os.Actions.{M, bad, pure, reject, non_null, deref, ◌>>=◌, ◌>>◌}
use c2r.Wire.Constants.{xt_array_bool}
use c2r.Client.{alloc, exec_str}
use c2r.Query.{sprintf, ignore_status, byte_at}
use c2r.Flags.{decode_bool}

-- `NAME("...")`, where the text up to the name is `prefix`
abbrev pub quoted : String → List ℕ → List ℕ
quoted prefix name = codes prefix ++ (name ++ codes "\")")

module _ (os : Os) where
  open os use {State}

  -- the command, its buffer and the reply; `extra` is the length of the command with no name
  pub ask : String → ℕ → ℤ → Option (List ℕ) → M State (Option (List ℕ))
  ask prefix extra sock name = do
    reject (is_neg sock) bad
    name ← non_null name
    let len = length name + extra + 16
    alloc os len
    cmd ← sprintf len (quoted prefix name)
    ignore_status (exec_str os sock (some cmd) true (pos xt_array_bool))

  -- `exec_out[4]` as a bool
  pub read_flag : Option (List ℕ) → M State Bool
  read_flag out = do
    exec_out ← non_null out
    reject (length exec_out == 0) bad
    b ← deref (byte_at exec_out 4)
    pure (not (b == 0))

  pub exists2 : ℤ → Option (List ℕ) → M State Bool
  exists2 sock name = do out ← ask "exists(\"" 10 sock name; read_flag out

  pub exists1 : ℤ → Option (List ℕ) → M State Bool
  exists1 sock val = do
    out ← ask "exists(\"" 10 sock val
    exec_out ← non_null out
    decode_bool exec_out

  unfoldable pub is_vector : ℤ → Option (List ℕ) → M State Bool
  is_vector sock name = do out ← ask "is.vector(\"" 13 sock name; read_flag out
