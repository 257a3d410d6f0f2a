-- ===== src/Flags/Settles.antt =====
-- `get_bool` and `set_bool` end, whatever the calls of the system return.
use c2r.Common.{ℕ, List, Option, Bool, ℤ}
use c2r.Os.{Os}
use c2r.Os.Settles.{Settles, settles_rules}
use c2r.Client.Settles.{Settles-alloc, Settles-exec_str}
use c2r.Query.Settles.{Settles-sprintf, Settles-ignore_status}
use c2r.Flags.{decode_bool, get_bool, set_bool}

pub Settles-decode_bool : {S : Type 0} (exec_out : List ℕ) → Settles {S = S} (decode_bool exec_out)
unfolding decode_bool
Settles-decode_bool exec_out = search settles_rules depth 24

module _ (os : Os) where
  pub Settles-get_bool : (sock : ℤ) (name : Option (List ℕ)) → Settles (get_bool os sock name)
  unfolding get_bool
  Settles-get_bool sock name =
      search (settles_rules, Settles-ignore_status, Settles-exec_str, Settles-decode_bool) depth 24

  pub Settles-set_bool :
      (sock : ℤ) (name : Option (List ℕ)) (x : Bool) → Settles (set_bool os sock name x)
  unfolding set_bool
  Settles-set_bool sock name x =
      search (settles_rules, Settles-alloc, Settles-sprintf, Settles-exec_str) depth 24
