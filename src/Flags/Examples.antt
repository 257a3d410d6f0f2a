-- ===== src/Flags/Examples.antt =====
-- Booleans that are read, set and asked for, at concrete values.
use c2r.Common.{refl, arith}
use c2r.Wire.{Phdr}
use c2r.Wire.Constants.{xt_array_bool}
use c2r.Client.Exec.{IsReply}
use c2r.Query.Replies.{logical}

abbrev ph : Phdr
ph = record { cmd = 0x10001; len = 16; msg_id = 0; res = 0 }

yes-IsReply : IsReply ph 0xc0a 0x824 xt_array_bool (logical 1 255 255 255)
yes-IsReply = record {
  header = record { cmd = omega arith; len = omega arith; msg_id = omega arith; res = omega arith };
  len = refl;
  small = omega arith;
  is_sexp = refl;
  typed = refl;
}
