-- ===== src/GetVec/Examples.antt =====
-- Vectors that are read, and a type that cannot be, at concrete values.
use c2r.Common.{
  ap, bytes_eq, true, false, ◌≡◌, ℕ, length, ◌≡◌, refl, List, [], ◌∷◌, ◌++◌, some, none, pos, codes,
  le32, arith,
}
use c2r.Os.Actions.{ok, err, fault, bad}
use c2r.Os.Script.{peer, script, eager, eager_link, eager-Prompt}
use c2r.Os.Link.{Runs}
use c2r.Wire.{Phdr, phdr_bytes}
use c2r.Wire.Constants.{cmd_eval, xt_array_int, xt_array_bool}
use c2r.Client.Exec.{request}
use c2r.GetVec.{readable_of, get_vec}
use c2r.GetVec.Booleans.{stored_booleans, get_vec-stored_booleans}
use c2r.GetVec.Stored.{i4, Held, IsHeld}
use c2r.GetVec.Store.{empty, Op, put, get, perform, out_of, requests, IsReady}
use c2r.GetVec.Served.{perform-replies}
use c2r.Server.{replies}
use c2r.Server.Reads.{IsText}
use c2r.Server.Simple.{simple}
use c2r.GetVec.Reads.{get_vec-numbers}
use c2r.GetVec.Errors.{get_vec-unreadable}

abbrev ph : Phdr
ph = record { cmd = 0x10001; len = 16; msg_id = 0; res = 0 }

-- two integers; or, behind a count of 3, four bytes
abbrev two_ints : List ℕ
two_ints = 1 ∷ 0 ∷ 0 ∷ 0 ∷ 2 ∷ 0 ∷ 0 ∷ 0 ∷ []

abbrev four_bools : List ℕ
four_bools = 1 ∷ 0 ∷ 1 ∷ 255 ∷ []

readable_i4 : readable_of (codes "I4") ≡ ok (record { width = 4; xt = xt_array_int })
unfolding readable_of
readable_i4 = refl

readable_i1 : readable_of (codes "I1") ≡ ok (record { width = 1; xt = xt_array_bool })
unfolding readable_of
readable_i1 = refl

readable_sc : readable_of (codes "SC") ≡ err bad
unfolding readable_of
readable_sc = refl

get_vec-numbers_example :
    Runs
      (eager_link (pos 3))
      (get_vec eager (pos 3) (some (codes "x")) (some (codes "I4")))
      (peer (phdr_bytes ph ++ ((le32 0x100a ++ le32 0x820) ++ (two_ints ++ 99 ∷ []))) 0)
      (record { status = pos 0; bytes = some two_ints; n = pos 2 })
      (99 ∷ [])
      ([] ++ request cmd_eval (codes "x"))
get_vec-numbers_example =
    get_vec-numbers (eager_link (pos 3)) (codes "x") (codes "I4")
      (record { width = 4; xt = xt_array_int }) 0x100a 0x820 ph 2 two_ints (eager-Prompt (pos 3))
      refl readable_i4 (omega arith) (omega arith)
      (record { cmd = omega arith; len = omega arith; msg_id = omega arith; res = omega arith })
      refl refl (omega arith, refl, refl) refl (omega arith) (omega arith)
      (record { left_lem = refl; sent_lem = refl })

get_vec-unreadable_example :
    (get_vec script (pos 3) (some (codes "x")) (some (codes "SC")) (peer [] 0)).0 ≡ fault
get_vec-unreadable_example =
    get_vec-unreadable script (pos 3) (some (codes "x")) (codes "SC") (peer [] 0) (λ n s. refl)
      (λ e. let b : true ≡ false = ap (bytes_eq (codes "SC")) e in cc)
      (λ e. let b : true ≡ false = ap (bytes_eq (codes "SC")) e in cc)
      (λ e. let b : true ≡ false = ap (bytes_eq (codes "SC")) e in cc)

get_vec-stored_booleans_example :
    (get_vec eager
      (pos 3)
      (some (codes "x"))
      (some (codes "I1"))
      (peer (phdr_bytes ph ++ (stored_booleans 4 four_bools ++ 99 ∷ [])) 0)).0
    ≡ fault
get_vec-stored_booleans_example =
    get_vec-stored_booleans (eager_link (pos 3)) (99 ∷ []) (codes "x") four_bools 4 ph
      (eager-Prompt (pos 3)) refl (omega arith) (omega arith)
      (record { cmd = omega arith; len = omega arith; msg_id = omega arith; res = omega arith })
      refl (record { left_lem = refl; sent_lem = refl })

abbrev vector : List ℕ → Held
vector bytes = record { name = codes "x"; type = i4; n = 1; bytes = bytes }

abbrev one : Held
one = vector (1 ∷ 0 ∷ 0 ∷ 0 ∷ [])

abbrev two : Held
two = vector (2 ∷ 0 ∷ 0 ∷ 0 ∷ [])

-- the same name is stored again, and read each time
abbrev session : List Op
session = put one [] ∷ get (codes "x") i4 ∷ put two (7 ∷ []) ∷ get (codes "x") i4 ∷ []

vector-IsHeld : (bytes : List ℕ) → length bytes ≡ 4 → IsHeld (vector bytes)
vector-IsHeld bytes e = record { some_elements = omega arith; size = e; small = omega arith }

session-IsReady : IsReady empty session
session-IsReady = (
  vector-IsHeld _ refl,
  omega arith,
  omega arith,
  (
    omega arith,
    (one, refl, refl),
    (vector-IsHeld _ refl, omega arith, omega arith, (omega arith, (two, refl, refl), tt)),
  ),
)

x-IsText : IsText (codes "x")
x-IsText = ((omega arith, tt), omega arith)

perform-replies_example :
    Runs
      (eager_link (pos 3))
      (perform eager (pos 3) session)
      (peer
        (replies simple (length (requests session)) (λ name. none) (requests session) ++ 99 ∷ [])
        0)
      (out_of one ∷ out_of two ∷ [])
      (99 ∷ [])
      ([] ++ requests session)
perform-replies_example =
    perform-replies (eager_link (pos 3)) simple session (eager-Prompt (pos 3)) refl session-IsReady
      (x-IsText, (x-IsText, (omega arith, tt), (x-IsText, (x-IsText, (omega arith, tt), tt))))
      (record { left_lem = refl; sent_lem = refl })
