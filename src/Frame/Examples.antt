-- ===== src/Frame/Examples.antt =====
-- The size of a data frame and the class of a value, at concrete values.
use c2r.Common.{ℕ, ◌≡◌, ◌↔◌, refl, List, [], ◌∷◌, ◌++◌, Bool, true, some, pos, codes, arith}
use c2r.Os.Script.{peer, script, script_link}
use c2r.Os.Link.{Runs}
use c2r.Wire.{Phdr}
use c2r.Wire.Constants.{cmd_eval}
use c2r.Client.Exec.{request, reply}
use c2r.Frame.{call_text, chk_r_class}
use c2r.Frame.Replies.{chk_r_class-reply}

abbrev ph : Phdr
ph = record { cmd = 0x10001; len = 12; msg_id = 0; res = 0 }

-- the class "int" and its NUL
abbrev class_reply : List ℕ
class_reply = codes "int" ++ 0 ∷ []

chk_r_class-reply_example :
    (answer : Bool) × Runs
      (script_link (pos 3))
      (chk_r_class script (pos 3) (some (codes "x")) (some (codes "int")))
      (peer (reply ph 0x80a 0x422 class_reply (99 ∷ [])) 2)
      answer
      (99 ∷ [])
      ([] ++ request cmd_eval (call_text (codes "class") (codes "x")))
    × ((answer ≡ true) ↔ (codes "int" ≡ codes "int"))
chk_r_class-reply_example =
    chk_r_class-reply (script_link (pos 3)) (codes "x") (codes "int") ph 0x80a 0x422 (codes "int")
      [] refl (omega arith) (omega arith, (omega arith, (omega arith, tt)))
      (record {
        header = record {
          cmd = omega arith;
          len = omega arith;
          msg_id = omega arith;
          res = omega arith;
        };
        len = refl;
        small = omega arith;
        is_sexp = refl;
        typed = refl;
      })
      (record { left_lem = refl; sent_lem = refl })
