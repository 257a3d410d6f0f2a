-- ===== src/NamedVec/Settles.antt =====
-- `get_named_vec_F8` ends, whatever the calls of the system return.
use c2r.Common.{ℕ, List, Option, ℤ}
use c2r.Os.{Os}
use c2r.Os.Settles.{Settles, settles_rules}
use c2r.Client.Settles.{Settles-get_buf, Settles-mk_dt_string, Settles-send_request}
use c2r.NamedVec.{read_key_size, read_named, get_named_vec_f8}

module _ (os : Os) where
  Settles-read_key_size :
      (sock : ℤ) (sz_key_blob : ℕ) (n1 : ℤ) → Settles (read_key_size os sock sz_key_blob n1)
  unfolding read_key_size
  Settles-read_key_size sock sz_key_blob n1 = search (settles_rules, Settles-get_buf) depth 24

  Settles-read_named :
      (sock : ℤ) (l_sz_key_blob sz_vals : ℕ) → Settles (read_named os sock l_sz_key_blob sz_vals)
  unfolding read_named
  Settles-read_named sock l_sz_key_blob sz_vals = search (settles_rules, Settles-get_buf) depth 24

  pub Settles-get_named_vec :
      (sock : ℤ) (name : Option (List ℕ)) (sz_key_blob sz_vals : ℕ)
      → Settles (get_named_vec_f8 os sock name sz_key_blob sz_vals)
  unfolding get_named_vec_f8
  Settles-get_named_vec sock name sz_key_blob sz_vals =
      search
        (
          settles_rules, Settles-mk_dt_string, Settles-send_request, Settles-get_buf,
          Settles-read_key_size, Settles-read_named,
        )
        depth 24
