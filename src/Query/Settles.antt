-- ===== src/Query/Settles.antt =====
-- What the functions that print a command and call `exec_str` share ends.
use c2r.Common.{ℕ, List, Option}
use c2r.Os.Actions.{Outcome, ok, err, fault, stuck, M}
use c2r.Os.Settles.{Settles, IsSettled, Settles-if, Settles-pure, Settles-crash, Settles-try}
use c2r.Query.{sprintf, output_of, ignore_status}

IsSettled-output_of : {A : Type 0} (r : Outcome (Option A)) → IsSettled r → IsSettled (output_of r)
IsSettled-output_of (ok a) h = tt
IsSettled-output_of (err e) h = tt
IsSettled-output_of fault h = tt
IsSettled-output_of stuck h = h

module _ {S : Type 0} where
  pub Settles-sprintf : (size : ℕ) (text : List ℕ) → Settles {S = S} (sprintf size text)
  Settles-sprintf size text = Settles-if _ _ _ (Settles-pure text) Settles-crash

  pub Settles-ignore_status :
      {A : Type 0} (m : M S (Option A)) → Settles m → Settles (ignore_status m)
  unfolding ignore_status
  Settles-ignore_status m h = Settles-try m output_of h IsSettled-output_of
