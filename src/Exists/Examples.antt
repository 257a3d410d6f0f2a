-- ===== src/Exists/Examples.antt =====
-- A name that is asked for in two ways, where the reply is NA.
use c2r.Common.{refl, [], ◌∷◌, ◌++◌, some, true, false, pos, codes, arith}
use c2r.Os.Script.{Peer, peer, script, script_link}
use c2r.Os.Link.{Runs}
use c2r.Wire.{Phdr}
use c2r.Wire.Constants.{cmd_eval, xt_array_bool}
use c2r.Client.Exec.{request, reply, IsReply}
use c2r.Query.Replies.{logical}
use c2r.Exists.{quoted, exists1, exists2}
use c2r.Exists.Replies.{exists1-exists2}

abbrev ph : Phdr
ph = record { cmd = 0x10001; len = 16; msg_id = 0; res = 0 }

-- NA, and a byte behind it
abbrev na : Peer
na = peer (reply ph 0xc0a 0x824 (logical 2 255 255 255) (99 ∷ [])) 2

na-IsReply : IsReply ph 0xc0a 0x824 xt_array_bool (logical 2 255 255 255)
na-IsReply = record {
  header = record { cmd = omega arith; len = omega arith; msg_id = omega arith; res = omega arith };
  len = refl;
  small = omega arith;
  is_sexp = refl;
  typed = refl;
}

exists1-exists2_example :
    Runs
      (script_link (pos 3))
      (exists1 script (pos 3) (some (codes "x")))
      na
      false
      (99 ∷ [])
      ([] ++ request cmd_eval (quoted "exists(\"" (codes "x")))
    × Runs
        (script_link (pos 3))
        (exists2 script (pos 3) (some (codes "x")))
        na
        true
        (99 ∷ [])
        ([] ++ request cmd_eval (quoted "exists(\"" (codes "x")))
exists1-exists2_example =
    exists1-exists2 (script_link (pos 3)) (codes "x") ph 0xc0a 0x824 2 255 255 255 refl
      (omega arith) na-IsReply (record { left_lem = refl; sent_lem = refl })
