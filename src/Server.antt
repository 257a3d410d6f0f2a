-- ===== src/Server.antt =====
-- The other end of the connection, as the comments of rincs/Rsrv.h describe the protocol QAP1: how a
-- stream of bytes is read as messages and their parameters, and a server that keeps variables and
-- answers. What R makes of a text is an argument.
pub mod Reads
pub mod Simple
pub mod Examples
use c2r.Common.{
  ℕ, zero, suc, ◌+◌, ◌/◌, ◌%◌, ◌≡◌, List, [], ◌∷◌, ◌++◌, Option, none, some, Bool, true, false,
  length, take, drop, le32, word32, codes, bytes_eq, c_string, ltb, ◌==◌, if◌then◌else◌,
}
use c2r.Flags.Replies.{assignment, bit}
use c2r.Exists.{quoted}
use c2r.Frame.{call_text}
use c2r.GetVec.Stored.{Number, f8, i4, Held, IsHeld, value_of}
use c2r.Query.Replies.{logical}
use c2r.Wire.{Phdr, phdr_bytes, phdr_of, pack, hdr_len}
use c2r.Wire.Constants.{
  cmd_eval, cmd_void_eval, cmd_set_sexp, dt_string, dt_sexp, xt_array_bool, xt_array_int,
  xt_array_str,
}

-- Variables of R, each with its value as an encoded SEXP.
abbrev pub Vars : Type 0
Vars = List ℕ → Option (List ℕ)

abbrev pub assign : Vars → List ℕ → List ℕ → Vars
assign vars name sexp other = elim (bytes_eq name other) [ true ↦ some sexp | false ↦ vars other ]

-- A logical as a SEXP: a count of 1, the value, and three bytes of padding.
abbrev pub logical_sexp : Bool → List ℕ
logical_sexp x = le32 (pack 8 xt_array_bool) ++ logical (bit x) 255 255 255

-- one int, and one string
abbrev pub int_sexp : ℕ → List ℕ
int_sexp n = le32 (pack 4 xt_array_int) ++ le32 n

abbrev pub text_sexp : List ℕ → List ℕ
text_sexp s = le32 (pack (length s + 1) xt_array_str) ++ (s ++ 0 ∷ [])

abbrev pub is_some : Option (List ℕ) → Bool
is_some none = false
is_some (some sexp) = true

abbrev pub class_of : Number → List ℕ
class_of f8 = codes "numeric"
class_of i4 = codes "integer"

-- R: a text changes the variables and has a value, or is an error. The value of a variable's name is
-- its value, an assignment of TRUE or FALSE is an assignment, and exists, length and class tell of the
-- variable of a name, of the vector in it, and of its type.
pub record Evaluator : Type 1 where
  pub IsSymbol : List ℕ → Type 0
  pub eval : Vars → List ℕ → Vars × Option (List ℕ)
  pub eval_lem :
      (vars : Vars) (name sexp : List ℕ)
      → IsSymbol name
      → vars name ≡ some sexp
      → eval vars name ≡ (vars, some sexp)
  pub assign_lem :
      (vars : Vars) (name : List ℕ) (x : Bool)
      → IsSymbol name
      → eval vars (assignment name x) ≡ (assign vars name (logical_sexp x), some (logical_sexp x))
  pub exists_lem :
      (vars : Vars) (name : List ℕ)
      → IsSymbol name
      → eval vars (quoted "exists(\"" name) ≡ (vars, some (logical_sexp (is_some (vars name))))
  pub length_lem :
      (vars : Vars) (name : List ℕ) (h : Held)
      → IsSymbol name
      → IsHeld h
      → vars name ≡ some (value_of h)
      → eval vars (call_text (codes "length") name) ≡ (vars, some (int_sexp h.n))
  pub class_lem :
      (vars : Vars) (name : List ℕ) (h : Held)
      → IsSymbol name
      → IsHeld h
      → vars name ≡ some (value_of h)
      → eval vars (call_text (codes "class") name) ≡ (vars, some (text_sexp (class_of h.type)))

-- A parameter: its type, the low byte of the word in front, and as many bytes as the word's other
-- three say, or as there are.
pub record Param : Type 0 where
  pub type : ℕ
  pub bytes : List ℕ

-- the parameters up to the end of a message; each takes four bytes at least
pub params : ℕ → List ℕ → List Param
params zero bs = []
params (suc fuel) bs =
    let w = word32 bs 0 in
    let rest = params fuel (drop (w / 256) (drop 4 bs)) in
    if ltb (length bs) 4
    then []
    else record { type = w % 256; bytes = take (w / 256) (drop 4 bs) } ∷ rest

-- RESP_OK alone, RESP_OK with a SEXP as the one parameter, and RESP_ERR with the code ERR_inv_par
abbrev pub ack : Phdr
ack = record { cmd = 0x10001; len = 0; msg_id = 0; res = 0 }

abbrev pub sexp_hdr : List ℕ → Phdr
sexp_hdr sexp = record { cmd = 0x10001; len = 4 + length sexp; msg_id = 0; res = 0 }

abbrev pub sexp_reply : List ℕ → List ℕ
sexp_reply sexp = phdr_bytes (sexp_hdr sexp) ++ (le32 (pack (length sexp) dt_sexp) ++ sexp)

abbrev pub resp_err : Phdr
resp_err = record { cmd = 0x44010002; len = 0; msg_id = 0; res = 0 }

abbrev pub ack_of : Option (List ℕ) → Phdr
ack_of none = resp_err
ack_of (some sexp) = ack

-- the answer to a text that has been evaluated
abbrev pub answer_of : Vars × Option (List ℕ) → Vars × List ℕ
answer_of (vars, none) = (vars, phdr_bytes resp_err)
answer_of (vars, some sexp) = (vars, sexp_reply sexp)

-- the string of a DT_STRING, and the value of a DT_SEXP
pub string_of : Param → Option (List ℕ)
string_of p = if p.type == dt_string then c_string p.bytes else none

pub sexp_of_param : Param → Option (List ℕ)
sexp_of_param p = if p.type == dt_sexp then some p.bytes else none

module _ (r : Evaluator) where
  -- CMD_setSEXP of a string and a SEXP, CMD_eval and CMD_voidEval of a string; others are refused.
  pub set_sexp : Vars → Option (List ℕ) → Option (List ℕ) → Vars × List ℕ
  set_sexp vars (some name) (some sexp) = (assign vars name sexp, phdr_bytes ack)
  set_sexp vars _ _ = (vars, phdr_bytes resp_err)

  pub eval_string : Vars → Option (List ℕ) → Vars × List ℕ
  eval_string vars none = (vars, phdr_bytes resp_err)
  eval_string vars (some text) = answer_of (r.eval vars text)

  -- a text whose value is not asked for
  pub void_string : Vars → Option (List ℕ) → Vars × List ℕ
  void_string vars none = (vars, phdr_bytes resp_err)
  void_string vars (some text) =
      let result = r.eval vars text in (result.0, phdr_bytes (ack_of result.1))

  pub react : Vars → ℕ → List Param → Vars × List ℕ
  react vars cmd [] = (vars, phdr_bytes resp_err)
  react vars cmd (p ∷ []) =
      if cmd == cmd_eval
      then eval_string vars (string_of p)
      else if cmd == cmd_void_eval
      then void_string vars (string_of p)
      else (vars, phdr_bytes resp_err)
  react vars cmd (p ∷ q ∷ ps) =
      if cmd == cmd_set_sexp
      then set_sexp vars (string_of p) (sexp_of_param q)
      else (vars, phdr_bytes resp_err)

  -- The answers to the messages of a stream: a header, whose `len` counts the bytes behind it, and
  -- the parameters in these. A message has 16 bytes at least; one that is cut has no answer.
  pub replies : ℕ → Vars → List ℕ → List ℕ
  replies zero vars bs = []
  replies (suc fuel) vars bs =
      let ph = phdr_of bs in
      let body = take ph.len (drop hdr_len bs) in
      let answer = react vars ph.cmd (params (length body) body) in
      let rest = replies fuel answer.0 (drop ph.len (drop hdr_len bs)) in
      if ltb (length bs) (hdr_len + ph.len) then [] else answer.1 ++ rest
