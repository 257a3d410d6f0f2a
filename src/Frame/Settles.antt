-- ===== src/Frame/Settles.antt =====
-- The functions of src/n_df.c and src/chk_R_class.c end, whatever the calls of the system return.
use c2r.Common.{ℕ, List, Option, none, some, String, ℤ, is_nonpos}
use c2r.Os.{Os}
use c2r.Os.Settles.{Settles, Settles-if, Settles-pure, settles_rules}
use c2r.Client.Settles.{Settles-exec_str}
use c2r.Query.Settles.{Settles-sprintf, Settles-ignore_status}
use c2r.Frame.{read_count, n_df, ncols_df, nrows_df, compare_class, query_class, chk_r_class}

module _ (os : Os) where
  Settles-read_count : (out : Option (List ℕ)) → Settles (read_count os out)
  unfolding read_count
  Settles-read_count none = Settles-pure _
  Settles-read_count (some exec_out) = search settles_rules depth 12

  Settles-n_df : (sock : ℤ) (fn : String) (name : Option (List ℕ)) → Settles (n_df os sock fn name)
  unfolding n_df
  Settles-n_df sock fn name =
      search
        (
          settles_rules, Settles-sprintf, Settles-ignore_status, Settles-exec_str,
          Settles-read_count,
        )
        depth 24

  pub Settles-ncols_df : (sock : ℤ) (name : Option (List ℕ)) → Settles (ncols_df os sock name)
  unfolding ncols_df
  Settles-ncols_df sock name = Settles-n_df sock "length" name

  pub Settles-nrows_df : (sock : ℤ) (name : Option (List ℕ)) → Settles (nrows_df os sock name)
  unfolding nrows_df
  Settles-nrows_df sock name = Settles-n_df sock "nrow" name

  Settles-compare_class :
      (class : List ℕ) (out : Option (List ℕ)) → Settles (compare_class os class out)
  unfolding compare_class
  Settles-compare_class class none = Settles-pure _
  Settles-compare_class class (some exec_out) = search settles_rules depth 12

  Settles-query_class : (sock : ℤ) (name class : List ℕ) → Settles (query_class os sock name class)
  unfolding query_class
  Settles-query_class sock name class =
      search
        (
          settles_rules, Settles-sprintf, Settles-ignore_status, Settles-exec_str,
          Settles-compare_class,
        )
        depth 24

  pub Settles-chk_r_class :
      (sock : ℤ) (name class : Option (List ℕ)) → Settles (chk_r_class os sock name class)
  unfolding chk_r_class
  Settles-chk_r_class sock none class = Settles-pure _
  Settles-chk_r_class sock (some name) none = Settles-pure _
  Settles-chk_r_class sock (some name) (some class) =
      Settles-if (is_nonpos sock) _ _ (Settles-pure _) (Settles-query_class sock name class)
