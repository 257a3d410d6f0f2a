-- ===== src/Scalar/Examples.antt =====
-- `get_I4` and the words in front of a value, at concrete values.
use c2r.Common.{ℕ, refl, List, [], ◌∷◌, ◌++◌, some, pos, codes, le32, arith}
use c2r.Os.Script.{peer, eager, eager_link, eager-Prompt}
use c2r.Os.Link.{Runs}
use c2r.Wire.{Phdr, phdr_bytes}
use c2r.Wire.Constants.{cmd_eval}
use c2r.Client.Exec.{request}
use c2r.Scalar.{get_scalar}
use c2r.Scalar.Reads.{get_scalar-reply}

abbrev ph : Phdr
ph = record { cmd = 0x10001; len = 12; msg_id = 0; res = 0 }

abbrev value : List ℕ
value = 7 ∷ 0 ∷ 0 ∷ 0 ∷ []

get_scalar-reply_example :
    Runs
      (eager_link (pos 3))
      (get_scalar eager 32 4 (pos 3) (some (codes "x")))
      (peer (phdr_bytes ph ++ ((le32 0x80a ++ le32 0x420) ++ (value ++ 99 ∷ []))) 0)
      value
      (99 ∷ [])
      ([] ++ request cmd_eval (codes "x"))
get_scalar-reply_example =
    get_scalar-reply (eager_link (pos 3)) (codes "x") 32 0x80a 0x420 ph value (eager-Prompt (pos 3))
      refl (omega arith)
      (record { cmd = omega arith; len = omega arith; msg_id = omega arith; res = omega arith })
      refl (omega arith) refl (omega arith, refl, refl)
      (record { left_lem = refl; sent_lem = refl })
