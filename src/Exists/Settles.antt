-- ===== src/Exists/Settles.antt =====
-- The tests of src/exists.c end, whatever the calls of the system return.
use c2r.Common.{ℕ, List, Option, String, ℤ}
use c2r.Os.{Os}
use c2r.Os.Settles.{Settles, settles_rules}
use c2r.Client.Settles.{Settles-alloc, Settles-exec_str}
use c2r.Query.Settles.{Settles-sprintf, Settles-ignore_status}
use c2r.Flags.Settles.{Settles-decode_bool}
use c2r.Exists.{ask, read_flag, exists1, exists2, is_vector}

module _ (os : Os) where
  Settles-ask :
      (prefix : String) (extra : ℕ) (sock : ℤ) (name : Option (List ℕ))
      → Settles (ask os prefix extra sock name)
  unfolding ask
  Settles-ask prefix extra sock name =
      search
        (settles_rules, Settles-alloc, Settles-sprintf, Settles-ignore_status, Settles-exec_str)
        depth 24

  Settles-read_flag : (out : Option (List ℕ)) → Settles (read_flag os out)
  unfolding read_flag
  Settles-read_flag out = search settles_rules depth 12

  pub Settles-exists2 : (sock : ℤ) (name : Option (List ℕ)) → Settles (exists2 os sock name)
  unfolding exists2
  Settles-exists2 sock name = search (settles_rules, Settles-ask, Settles-read_flag) depth 12

  pub Settles-exists1 : (sock : ℤ) (val : Option (List ℕ)) → Settles (exists1 os sock val)
  unfolding exists1
  Settles-exists1 sock val = search (settles_rules, Settles-ask, Settles-decode_bool) depth 12

  pub Settles-is_vector : (sock : ℤ) (name : Option (List ℕ)) → Settles (is_vector os sock name)
  unfolding is_vector
  Settles-is_vector sock name = search (settles_rules, Settles-ask, Settles-read_flag) depth 12
