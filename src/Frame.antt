-- ===== src/Frame.antt =====
-- src/n_df.c and src/chk_R_class.c: the size of a data frame, and the class of a value. Both print
-- the command into an array of 1024 bytes.
pub mod Settles
pub mod Examples
pub mod Replies
use c2r.Common.{
  ℕ, ◌-◌, ◌^◌, List, ◌++◌, Option, none, some, Bool, true, false, ℤ, pos, negsuc, is_neg, is_nonpos,
  length, codes, String, bytes_eq, c_string, ◌==◌, if◌then◌else◌,
}
use c2r.Os.{Os}
use c2r.Os.Actions.{M, pure, deref, ◌>>=◌}
use c2r.Wire.Constants.{xt_array_int, xt_array_str}
use c2r.Client.{exec_str}
use c2r.Query.{sprintf, ignore_status, int_at}

-- `fn(name)`
abbrev pub call_text : List ℕ → List ℕ → List ℕ
call_text fn name = fn ++ (codes "(" ++ (name ++ codes ")"))

-- 0xFFFFFFFF, the result of a failed query
abbrev pub no_count : ℕ
no_count = 2 ^ 32 - 1

abbrev pub count_of : ℤ → ℕ
count_of (pos n) = n
count_of (negsuc n) = no_count

module _ (os : Os) where
  open os use {State}

  -- what is made of the reply
  pub read_count : Option (List ℕ) → M State ℕ
  read_count none = pure no_count
  read_count (some exec_out) =
      if length exec_out == 0
      then pure no_count
      else do itmp ← deref (int_at exec_out); pure (count_of itmp)

  pub n_df : ℤ → String → Option (List ℕ) → M State ℕ
  n_df sock fn name = if is_neg sock then pure no_count else do
    name ← deref name
    cmd ← sprintf 1024 (call_text (codes fn) name)
    out ← ignore_status (exec_str os sock (some cmd) true (pos xt_array_int))
    read_count out

  unfoldable pub ncols_df : ℤ → Option (List ℕ) → M State ℕ
  ncols_df sock name = n_df sock "length" name

  unfoldable pub nrows_df : ℤ → Option (List ℕ) → M State ℕ
  nrows_df sock name = n_df sock "nrow" name

  -- `strcmp(exec_out, class) == 0`, where there is a reply
  pub compare_class : List ℕ → Option (List ℕ) → M State Bool
  compare_class class none = pure false
  compare_class class (some exec_out) =
      if length exec_out == 0
      then pure false
      else do found ← deref (c_string exec_out); pure (bytes_eq found class)

  pub query_class : ℤ → List ℕ → List ℕ → M State Bool
  query_class sock name class = do
    cmd ← sprintf 1024 (call_text (codes "class") name)
    out ← ignore_status (exec_str os sock (some cmd) true (pos xt_array_str))
    compare_class class out

  pub chk_r_class : ℤ → Option (List ℕ) → Option (List ℕ) → M State Bool
  unfolding query_class
  chk_r_class sock none class = pure false
  chk_r_class sock (some name) none = pure false
  chk_r_class sock (some name) (some class) =
      if is_nonpos sock then pure false else query_class sock name class
