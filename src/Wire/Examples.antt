-- ===== src/Wire/Examples.antt =====
-- The header and the string parameter at concrete values.
use c2r.Common.{
  ℕ, ◌+◌, ◌/◌, ◌%◌, ◌≡◌, refl, List, [], some, pos, codes, length, drop, word32, c_string, arith,
}
use c2r.Os.Script.{peer, script, script_link}
use c2r.Os.Link.{Runs}
use c2r.Wire.{Phdr, command_code, mk_dt_string}
use c2r.Wire.Constants.{dt_string}
use c2r.Wire.DtString.{mk_dt_string-c_string}

abbrev hdr : Phdr
hdr = record { cmd = 0x10001; len = 4294967295; msg_id = 7; res = 0 }

mk_dt_string-c_string_example :
    (param1 : List ℕ) × Runs
      (script_link (pos 3))
      (mk_dt_string script (some (codes "x")))
      (peer [] 0)
      param1
      []
      []
    × (word32 param1 0 % 256 ≡ dt_string)
    × (4 + word32 param1 0 / 256 ≡ length param1)
    × (length param1 % 4 ≡ 0)
    × (c_string (drop 4 param1) ≡ some (codes "x"))
mk_dt_string-c_string_example =
    mk_dt_string-c_string (script_link (pos 3)) (codes "x") (omega arith, tt) (omega arith)
      (record { left_lem = refl; sent_lem = refl })

known : command_code (codes "CMD_eval") ≡ some 3
unfolding command_code
known = refl
