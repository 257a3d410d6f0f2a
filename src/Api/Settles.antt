-- ===== src/Api/Settles.antt =====
-- Clients of the library end.
use c2r.Common.{◌≢◌}
use c2r.Os.{Os}
use c2r.Os.Actions.{M, stuck}
use c2r.Os.Settles.{Settles, IsSettled-ne-stuck, Settles-pure, Settles-bind}
use c2r.Client.Settles.{
  Settles-get_buf, Settles-read_hdr, Settles-mk_dt_string, Settles-mk_hdr, Settles-exec_str,
  Settles-close_conn, Settles-rshutdown, Settles-rconnect,
}
use c2r.Scalar.{get_f8, get_i4}
use c2r.Scalar.Settles.{Settles-get_scalar}
use c2r.SetVec.Settles.{Settles-set_vec}
use c2r.GetVec.Settles.{Settles-get_vec}
use c2r.VecLen.Settles.{Settles-get_vec_len, Settles-checked_vec_len}
use c2r.NamedVec.Settles.{Settles-get_named_vec}
use c2r.Flags.Settles.{Settles-get_bool, Settles-set_bool}
use c2r.Exists.Settles.{Settles-exists1, Settles-exists2, Settles-is_vector}
use c2r.Frame.Settles.{Settles-ncols_df, Settles-nrows_df, Settles-chk_r_class}
use c2r.FrameText.Settles.{Settles-mk_df_str}
use c2r.Api.{
  IsClient, returns, goes_on, connects, executes, reads, reads_hdr, makes_string, makes_hdr,
  shuts_down, closes, gets_f8, gets_i4, sets_vec, gets_vec, gets_len, gets_len_checked, gets_named,
  gets_bool, sets_bool, asks1, asks2, asks_vector, counts_cols, counts_rows, checks_class,
  makes_df_str,
}

module _ (os : Os) where
  Settles-IsClient : {A : Type 0} (m : M os.State A) → IsClient os A m → Settles m
  unfolding get_f8 get_i4
  Settles-IsClient _ (returns a) = Settles-pure a
  Settles-IsClient _ (goes_on m f c cs) =
      Settles-bind m f (Settles-IsClient m c) λ a. Settles-IsClient (f a) (cs a)
  Settles-IsClient _ (connects server port snd rcv) = Settles-rconnect os server port snd rcv
  Settles-IsClient _ (executes sock str want xt) = Settles-exec_str os sock str want xt
  Settles-IsClient _ (reads sock buf n) = Settles-get_buf os sock buf n
  Settles-IsClient _ (reads_hdr sock) = Settles-read_hdr os sock
  Settles-IsClient _ (makes_string name) = Settles-mk_dt_string os name
  Settles-IsClient _ (makes_hdr command len ph) = Settles-mk_hdr os command len ph
  Settles-IsClient _ (shuts_down sock) = Settles-rshutdown os sock
  Settles-IsClient _ (closes sock) = Settles-close_conn os sock
  Settles-IsClient _ (gets_f8 sock name) = Settles-get_scalar os _ _ sock name
  Settles-IsClient _ (gets_i4 sock name) = Settles-get_scalar os _ _ sock name
  Settles-IsClient _ (sets_vec sock name qtype buf n w) = Settles-set_vec os sock name qtype buf n w
  Settles-IsClient _ (gets_vec sock name qtype) = Settles-get_vec os sock name qtype
  Settles-IsClient _ (gets_len sock name) = Settles-get_vec_len os sock name
  Settles-IsClient _ (gets_len_checked sock name) = Settles-checked_vec_len os sock name
  Settles-IsClient _ (gets_named sock name n n') = Settles-get_named_vec os sock name n n'
  Settles-IsClient _ (gets_bool sock name) = Settles-get_bool os sock name
  Settles-IsClient _ (sets_bool sock name x) = Settles-set_bool os sock name x
  Settles-IsClient _ (asks1 sock val) = Settles-exists1 os sock val
  Settles-IsClient _ (asks2 sock name) = Settles-exists2 os sock name
  Settles-IsClient _ (asks_vector sock name) = Settles-is_vector os sock name
  Settles-IsClient _ (counts_cols sock name) = Settles-ncols_df os sock name
  Settles-IsClient _ (counts_rows sock name) = Settles-nrows_df os sock name
  Settles-IsClient _ (checks_class sock name class) = Settles-chk_r_class os sock name class
  Settles-IsClient _ (makes_df_str names types n) = Settles-mk_df_str os names types n

  -- Whatever the calls of the system return, a client ends: no loop of a function that it calls goes
  -- on, be it with a server that sends single bytes, closes the connection or fails.
  pub IsClient-ne-stuck :
      {A : Type 0} (m : M os.State A) (s : os.State) → IsClient os A m → (m s).0 ≢ stuck
  IsClient-ne-stuck m s c = IsSettled-ne-stuck (m s).0 ((Settles-IsClient m c).at s)
