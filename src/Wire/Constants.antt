-- ===== src/Wire/Constants.antt =====
-- Constants of rincs/Rsrv.h: commands, types of parameters and types of R expressions.
use c2r.Common.{ℕ}

abbrev pub cmd_void_eval : ℕ
cmd_void_eval = 0x002

abbrev pub cmd_eval : ℕ
cmd_eval = 0x003

abbrev pub cmd_shutdown : ℕ
cmd_shutdown = 0x004

abbrev pub cmd_set_sexp : ℕ
cmd_set_sexp = 0x020

abbrev pub dt_string : ℕ
dt_string = 4

abbrev pub dt_sexp : ℕ
dt_sexp = 10

abbrev pub xt_list_tag : ℕ
xt_list_tag = 21

abbrev pub xt_array_int : ℕ
xt_array_int = 32

abbrev pub xt_array_double : ℕ
xt_array_double = 33

abbrev pub xt_array_str : ℕ
xt_array_str = 34

abbrev pub xt_array_bool : ℕ
xt_array_bool = 36
