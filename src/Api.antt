-- ===== src/Api.antt =====
-- A client of the library: any sequence of calls of the functions that the headers of inc/ declare,
-- of `mk_df_str` and of src/get_vec_len.c, each chosen from the results of those before it.
pub mod Examples
pub mod Settles
use c2r.Common.{ℕ, List, Option, Bool, ℤ}
use c2r.Os.{Os}
use c2r.Os.Actions.{M, pure, ◌>>=◌}
use c2r.Wire.{Pointer, mk_dt_string, mk_hdr}
use c2r.Client.{exec_str, get_buf_from_sock, read_hdr, close_conn, rshutdown, rconnect}
use c2r.Scalar.{get_f8, get_i4}
use c2r.SetVec.{set_vec}
use c2r.GetVec.{get_vec}
use c2r.VecLen.{get_vec_len, checked_vec_len}
use c2r.NamedVec.{get_named_vec_f8}
use c2r.Flags.{get_bool, set_bool}
use c2r.Exists.{exists1, exists2, is_vector}
use c2r.Frame.{ncols_df, nrows_df, chk_r_class}
use c2r.FrameText.{Texts, mk_df_str}

abbrev pub Text : Type 0
Text = Option (List ℕ)

pub data IsClient (os : Os) : (A : Type 0) → M os.State A → Type 1 where
  -- nothing is called any more
  returns : {A : Type 0} (a : A) → IsClient os A (pure a)
  -- one part, and what is made of its result
  goes_on :
      {A B : Type 0} (m : M os.State A) (f : A → M os.State B)
      → IsClient os A m
      → ((a : A) → IsClient os B (f a))
      → IsClient os B (m >>= f)
  connects :
      (server : Text) (portnum snd_timeout_sec rcv_timeout_sec : ℤ)
      → IsClient os _ (rconnect os server portnum snd_timeout_sec rcv_timeout_sec)
  executes :
      (sock : ℤ) (str : Text) (want : Bool) (expected_xt : ℤ)
      → IsClient os _ (exec_str os sock str want expected_xt)
  reads : (sock : ℤ) (buf : Pointer) (n : ℤ) → IsClient os _ (get_buf_from_sock os sock buf n)
  reads_hdr : (sock : ℤ) → IsClient os _ (read_hdr os sock)
  makes_string : (name : Text) → IsClient os _ (mk_dt_string os name)
  makes_hdr : (command : Text) (len : ℤ) (ph : Pointer) → IsClient os _ (mk_hdr command len ph)
  shuts_down : (sock : ℤ) → IsClient os _ (rshutdown os sock)
  closes : (sock : ℤ) → IsClient os _ (close_conn os sock)
  gets_f8 : (sock : ℤ) (name : Text) → IsClient os _ (get_f8 os sock name)
  gets_i4 : (sock : ℤ) (name : Text) → IsClient os _ (get_i4 os sock name)
  sets_vec :
      (sock : ℤ) (name qtype buf : Text) (n in_width : ℕ)
      → IsClient os _ (set_vec os sock name qtype buf n in_width)
  gets_vec : (sock : ℤ) (name qtype : Text) → IsClient os _ (get_vec os sock name qtype)
  gets_len : (sock : ℤ) (name : Text) → IsClient os _ (get_vec_len os sock name)
  gets_len_checked : (sock : ℤ) (name : Text) → IsClient os _ (checked_vec_len os sock name)
  gets_named :
      (sock : ℤ) (name : Text) (sz_key_blob sz_vals : ℕ)
      → IsClient os _ (get_named_vec_f8 os sock name sz_key_blob sz_vals)
  gets_bool : (sock : ℤ) (name : Text) → IsClient os _ (get_bool os sock name)
  sets_bool : (sock : ℤ) (name : Text) (x : Bool) → IsClient os _ (set_bool os sock name x)
  asks1 : (sock : ℤ) (val : Text) → IsClient os _ (exists1 os sock val)
  asks2 : (sock : ℤ) (name : Text) → IsClient os _ (exists2 os sock name)
  asks_vector : (sock : ℤ) (name : Text) → IsClient os _ (is_vector os sock name)
  counts_cols : (sock : ℤ) (name : Text) → IsClient os _ (ncols_df os sock name)
  counts_rows : (sock : ℤ) (name : Text) → IsClient os _ (nrows_df os sock name)
  checks_class : (sock : ℤ) (name class : Text) → IsClient os _ (chk_r_class os sock name class)
  makes_df_str :
      (col_names col_types : Option Texts) (ncols : ℤ)
      → IsClient os _ (mk_df_str os col_names col_types ncols)
