-- ===== src/Session/Examples.antt =====
-- A session with a small R, at concrete values.
use c2r.Common.{
  ℕ, length, refl, List, [], ◌∷◌, ◌++◌, some, none, true, false, pos, codes, arith, inr,
}
use c2r.Os.Script.{peer, eager, eager_link, eager-Prompt}
use c2r.Os.Link.{Runs}
use c2r.Wire.{pack}
use c2r.Wire.Constants.{xt_array_int}
use c2r.GetVec.Stored.{i4, Held, IsHeld, value_of}
use c2r.GetVec.Store.{out_of}
use c2r.Server.{Vars, replies, assign, logical_sexp}
use c2r.Server.Reads.{IsText}
use c2r.Server.Simple.{simple}
use c2r.Session.{
  Call, Result, store, load, run, command, set_flag, get_flag, load_one, bound1, bound2, len_of,
  columns, has_class, done, vector, value, flag, number, count, size, perform_calls, requests,
  DoesAll, over, next, stores, loads, runs, commands, sets, gets, loads_one, finds1, finds2, counts,
  sizes, compares,
}
use c2r.Session.Values.{perform_calls-results}

abbrev name_x : List ℕ
name_x = codes "x"

abbrev three : Held
three = record { name = name_x; type = i4; n = 1; bytes = 3 ∷ 0 ∷ 0 ∷ 0 ∷ [] }

abbrev calls : List Call
calls =
    bound1 name_x
    ∷ store three (7 ∷ [])
    ∷ load name_x i4
    ∷ load_one name_x i4
    ∷ len_of name_x
    ∷ columns name_x
    ∷ has_class name_x (codes "integer")
    ∷ command (codes "y")
    ∷ run name_x (pos xt_array_int)
    ∷ set_flag name_x true
    ∷ get_flag name_x
    ∷ bound2 name_x
    ∷ []

abbrev results : List Result
results =
    flag false
    ∷ done
    ∷ vector (out_of three)
    ∷ number (3 ∷ 0 ∷ 0 ∷ 0 ∷ [])
    ∷ count (pos 1)
    ∷ size 1
    ∷ flag true
    ∷ value none
    ∷ value (some (3 ∷ 0 ∷ 0 ∷ 0 ∷ []))
    ∷ done
    ∷ flag true
    ∷ flag true
    ∷ []

abbrev none_yet : Vars
none_yet name = none

abbrev with_three : Vars
with_three = assign none_yet name_x (value_of three)

three-IsHeld : IsHeld three
three-IsHeld = record { some_elements = omega arith; size = refl; small = omega arith }

x-IsText : IsText name_x
x-IsText = ((omega arith, tt), omega arith)

session_end :
    DoesAll simple with_three
      (command (codes "y")
        ∷ run name_x (pos xt_array_int)
        ∷ set_flag name_x true
        ∷ get_flag name_x
        ∷ bound2 name_x
        ∷ [])
      (assign with_three name_x (logical_sexp true))
      (value none ∷ value (some three.bytes) ∷ done ∷ flag true ∷ flag true ∷ [])
unfolding pack
session_end = next (commands (codes "y") ((omega arith, tt), omega arith)) (
    next
      (runs name_x three.bytes (pos xt_array_int) (pack 4 xt_array_int) x-IsText refl (omega arith)
        (inr refl))
      (next (sets name_x true (omega arith, tt) (omega arith) (omega arith, tt)) (
        next (gets name_x true x-IsText (omega arith, tt) refl)
          (next (finds2 name_x (omega arith, tt) (omega arith) (omega arith, tt)) over))))

session : DoesAll simple none_yet calls (assign with_three name_x (logical_sexp true)) results
session = next (finds1 name_x (omega arith, tt) (omega arith) (omega arith, tt)) (
    next (stores three (7 ∷ []) three-IsHeld (omega arith) x-IsText) (
      next (loads three name_x three-IsHeld x-IsText (omega arith, tt) refl) (
        next (loads_one i4 name_x three.bytes refl x-IsText (omega arith, tt) refl) (
          next
            (counts three name_x three-IsHeld (omega arith, tt) (omega arith) (omega arith, tt)
              refl)
            (next
              (sizes three name_x three-IsHeld (omega arith, tt) (omega arith) (omega arith, tt)
                refl)
              (next
                (compares three name_x (codes "integer") three-IsHeld (omega arith, tt)
                  (omega arith) (omega arith, tt) refl)
                session_end))))))

perform_calls-results_example :
    Runs
      (eager_link (pos 3))
      (perform_calls eager (pos 3) calls)
      (peer (replies simple (length (requests calls)) none_yet (requests calls) ++ 99 ∷ []) 0)
      results
      (99 ∷ [])
      ([] ++ requests calls)
perform_calls-results_example =
    perform_calls-results (eager_link (pos 3)) calls results (eager-Prompt (pos 3)) refl session
      (record { left_lem = refl; sent_lem = refl })
