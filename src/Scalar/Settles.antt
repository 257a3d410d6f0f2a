-- ===== src/Scalar/Settles.antt =====
-- `get_F8` and `get_I4` end, whatever the calls of the system return.
use c2r.Common.{ℕ, List, Option, ℤ}
use c2r.Os.{Os}
use c2r.Os.Settles.{Settles, settles_rules}
use c2r.Client.Settles.{
  Settles-read_some, Settles-mk_dt_string, Settles-send_request, Settles-read_hdr,
}
use c2r.Scalar.{read_types, get_scalar}

module _ (os : Os) where
  pub Settles-read_types : (sock : ℤ) (xt : ℕ) → Settles (read_types os sock xt)
  unfolding read_types
  Settles-read_types sock xt = search (settles_rules, Settles-read_some) depth 12

  pub Settles-get_scalar :
      (xt width : ℕ) (sock : ℤ) (name : Option (List ℕ))
      → Settles (get_scalar os xt width sock name)
  unfolding get_scalar
  Settles-get_scalar xt width sock name =
      search
        (
          settles_rules, Settles-mk_dt_string, Settles-send_request, Settles-read_hdr,
          Settles-read_types, Settles-read_some,
        )
        depth 24
