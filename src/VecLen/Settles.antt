-- ===== src/VecLen/Settles.antt =====
-- The two functions of the name `get_vec_len` end, whatever the calls of the system return.
use c2r.Common.{ℕ, List, Option, ℤ}
use c2r.Os.{Os}
use c2r.Os.Actions.{Outcome, ok, err, fault, stuck}
use c2r.Os.Settles.{
  Settles, IsSettled, Settles-bind, Settles-try, Settles-reject, Settles-non_null, settles_rules,
}
use c2r.Client.Settles.{Settles-alloc, Settles-exec_str}
use c2r.Query.Settles.{Settles-sprintf}
use c2r.VecLen.{len_out, query_len, get_vec_len, checked_vec_len}

IsSettled-len_out : (r : Outcome ℤ) → IsSettled r → IsSettled (len_out r)
IsSettled-len_out (ok n) h = tt
IsSettled-len_out (err e) h = tt
IsSettled-len_out fault h = tt
IsSettled-len_out stuck h = h

module _ (os : Os) where
  Settles-query_len :
      (extra : ℕ) (sock : ℤ) (name : List ℕ) → Settles (query_len os extra sock name)
  unfolding query_len
  Settles-query_len extra sock name =
      search (settles_rules, Settles-alloc, Settles-sprintf, Settles-exec_str) depth 24

  pub Settles-get_vec_len : (sock : ℤ) (name : Option (List ℕ)) → Settles (get_vec_len os sock name)
  unfolding get_vec_len
  Settles-get_vec_len sock name = search (settles_rules, Settles-query_len) depth 12

  pub Settles-checked_vec_len :
      (sock : ℤ) (name : Option (List ℕ)) → Settles (checked_vec_len os sock name)
  unfolding checked_vec_len
  Settles-checked_vec_len sock name = Settles-bind _ _ (Settles-reject _ _) λ u.
      Settles-bind _ _ (Settles-non_null name)
        λ text. Settles-try _ len_out (Settles-query_len _ sock text) IsSettled-len_out
