-- ===== src/VecLen/Examples.antt =====
-- The length of a vector, asked for in both ways, at concrete values.
use c2r.Common.{refl, [], ◌∷◌, ◌++◌, some, pos, codes, le32, arith}
use c2r.Os.Script.{Peer, peer, script, script_link}
use c2r.Os.Link.{Runs}
use c2r.Wire.{Phdr}
use c2r.Wire.Constants.{cmd_eval}
use c2r.Client.Exec.{request, reply}
use c2r.Frame.{call_text}
use c2r.VecLen.{get_vec_len, checked_vec_len}
use c2r.VecLen.Replies.{get_vec_len-checked_vec_len}

abbrev ph : Phdr
ph = record { cmd = 0x10001; len = 12; msg_id = 0; res = 0 }

abbrev seven : Peer
seven = peer (reply ph 0x80a 0x420 (le32 7 ++ []) (99 ∷ [])) 2

get_vec_len-checked_vec_len_example :
    Runs
      (script_link (pos 3))
      (get_vec_len script (pos 3) (some (codes "x")))
      seven
      (pos 7)
      (99 ∷ [])
      ([] ++ request cmd_eval (call_text (codes "length") (codes "x")))
    × Runs
        (script_link (pos 3))
        (checked_vec_len script (pos 3) (some (codes "x")))
        seven
        (record { status = pos 0; n = some (pos 7) })
        (99 ∷ [])
        ([] ++ request cmd_eval (call_text (codes "length") (codes "x")))
get_vec_len-checked_vec_len_example =
    get_vec_len-checked_vec_len (script_link (pos 3)) (codes "x") ph 0x80a 0x420 7 [] refl
      (omega arith) (omega arith)
      (record {
        header = record {
          cmd = omega arith;
          len = omega arith;
          msg_id = omega arith;
          res = omega arith;
        };
        len = refl;
        small = omega arith;
        is_sexp = refl;
        typed = refl;
      })
      (record { left_lem = refl; sent_lem = refl })
