-- ===== src/Session/Answers.antt =====
-- The bytes that the server sends for the bytes that a call sends.
use c2r.Common.{ℕ, suc, ◌≤◌, ◌≡◌, ap, ◌∙◌, List, [], ◌∷◌, ◌++◌, some, length, le32, arith, codes}
use c2r.Wire.{phdr_bytes}
use c2r.Wire.Constants.{cmd_eval}
use c2r.Wire.DtString.{param}
use c2r.SetVec.Plain.{payload}
use c2r.GetVec.Stored.{sexp_of, value_of, elem_number}
use c2r.Client.Exec.{request}
use c2r.Exists.{quoted}
use c2r.Frame.{call_text}
use c2r.Flags.Replies.{assignment}
use c2r.GetVec.Served.{replies-put, length-front}
use c2r.Server.{
  Vars, Evaluator, ack, ack_of, sexp_reply, logical_sexp, int_sexp, text_sexp, is_some, class_of,
  replies,
}
use c2r.Server.Reads.{IsText, replies-eval, replies-void_eval, eval_string-some}
use c2r.Session.{
  Call, Result, store, load, run, command, set_flag, get_flag, load_one, bound1, bound2, len_of,
  columns, has_class, request_of, requests, Does, stores, loads, runs, commands, sets, gets,
  loads_one, finds1, finds2, counts, compares, sizes,
}
use c2r.Session.Texts.{assignment-IsText, quoted-IsText, length_call-IsText, class_call-IsText}

-- the answer to a text that has a value
replies-eval_some :
    (r : Evaluator) (vars vars' : Vars) (text sexp : List ℕ) (fuel : ℕ) (more : List ℕ)
    → IsText text
    → r.eval vars text ≡ (vars', some sexp)
    → replies r (suc fuel) vars (request cmd_eval text ++ more)
      ≡ sexp_reply sexp ++ replies r fuel vars' more
replies-eval_some r vars vars' text sexp fuel more is e =
    replies-eval r vars text is fuel more
    ∙ ap (λ a. a.1 ++ replies r fuel a.0 more) (eval_string-some r vars vars' text sexp e)

-- what the server sends for a call
abbrev pub answer :
    {r : Evaluator} {vars vars' : Vars} {c : Call} {result : Result}
    → Does r vars c vars' result
    → List ℕ
answer (stores h rest is nonempty text) = phdr_bytes ack
answer (loads h name is text symbol e) = sexp_reply (value_of h)
answer (runs text out expected_xt w is e small accepted) = sexp_reply (le32 w ++ out)
answer {r} {vars} (commands text is) = phdr_bytes (ack_of (r.eval vars text).1)
answer (sets name x nonzero short symbol) = sexp_reply (logical_sexp x)
answer (gets name x is symbol e) = sexp_reply (logical_sexp x)
answer (loads_one t name bytes len is symbol e) = sexp_reply (sexp_of t bytes)
answer (finds1 {vars} name nonzero short symbol) = sexp_reply (logical_sexp (is_some (vars name)))
answer (finds2 {vars} name nonzero short symbol) = sexp_reply (logical_sexp (is_some (vars name)))
answer (counts h name is nonzero short symbol e) = sexp_reply (int_sexp h.n)
answer (sizes h name is nonzero short symbol e) = sexp_reply (int_sexp h.n)
answer (compares h name class is nonzero short symbol e) = sexp_reply (text_sexp (class_of h.type))

pub replies-answer :
    {r : Evaluator} {vars vars' : Vars} {c : Call} {result : Result}
    (d : Does r vars c vars' result) (fuel : ℕ) (more : List ℕ)
    → replies r (suc fuel) vars (request_of c ++ more) ≡ answer d ++ replies r fuel vars' more
replies-answer {r} {vars} (stores h rest is nonempty text) fuel more =
    replies-put r fuel vars h more is text
replies-answer {r} {vars} (loads h name is text symbol e) fuel more =
    replies-eval_some r vars vars name (value_of h) fuel more text
      (r.eval_lem vars name (value_of h) symbol e)
replies-answer {r} {vars} {vars'} (runs text out expected_xt w is e small accepted) fuel more =
    replies-eval_some r vars vars' text (le32 w ++ out) fuel more is e
replies-answer {r} {vars} (commands text is) fuel more = replies-void_eval r vars text is fuel more
replies-answer {r} {vars} {vars'} (sets name x nonzero short symbol) fuel more =
    replies-eval_some r vars vars' (assignment name x) (logical_sexp x) fuel more
      (assignment-IsText name x nonzero short) (r.assign_lem vars name x symbol)
replies-answer {r} {vars} (gets name x is symbol e) fuel more =
    replies-eval_some r vars vars name (logical_sexp x) fuel more is
      (r.eval_lem vars name (logical_sexp x) symbol e)
replies-answer {r} {vars} (loads_one t name bytes len is symbol e) fuel more =
    replies-eval_some r vars vars name (sexp_of t bytes) fuel more is
      (r.eval_lem vars name (sexp_of t bytes) symbol e)
replies-answer {r} {vars} (finds1 name nonzero short symbol) fuel more =
    replies-eval_some r vars vars (quoted "exists(\"" name) (logical_sexp (is_some (vars name)))
      fuel more (quoted-IsText name nonzero short) (r.exists_lem vars name symbol)
replies-answer {r} {vars} (finds2 name nonzero short symbol) fuel more =
    replies-eval_some r vars vars (quoted "exists(\"" name) (logical_sexp (is_some (vars name)))
      fuel more (quoted-IsText name nonzero short) (r.exists_lem vars name symbol)
replies-answer {r} {vars} (counts h name is nonzero short symbol e) fuel more =
    replies-eval_some r vars vars (call_text (codes "length") name) (int_sexp h.n) fuel more
      (length_call-IsText name nonzero short) (r.length_lem vars name h symbol is e)
replies-answer {r} {vars} (sizes h name is nonzero short symbol e) fuel more =
    replies-eval_some r vars vars (call_text (codes "length") name) (int_sexp h.n) fuel more
      (length_call-IsText name nonzero (omega arith)) (r.length_lem vars name h symbol is e)
replies-answer {r} {vars} (compares h name class is nonzero short symbol e) fuel more =
    replies-eval_some r vars vars (call_text (codes "class") name) (text_sexp (class_of h.type))
      fuel more (class_call-IsText name nonzero (omega arith)) (r.class_lem vars name h symbol is e)

length-request_of : (c : Call) (ys : List ℕ) → suc (length ys) ≤ length (request_of c ++ ys)
length-request_of (store h rest) ys =
    length-front _ (payload h.name (elem_number h.type) h.n h.bytes) ys
length-request_of (load name t) ys = length-front _ (param name) ys
length-request_of (run text expected_xt) ys = length-front _ (param text) ys
length-request_of (command text) ys = length-front _ (param text) ys
length-request_of (set_flag name x) ys = length-front _ (param (assignment name x)) ys
length-request_of (get_flag name) ys = length-front _ (param name) ys
length-request_of (load_one name t) ys = length-front _ (param name) ys
length-request_of (bound1 name) ys = length-front _ (param (quoted "exists(\"" name)) ys
length-request_of (bound2 name) ys = length-front _ (param (quoted "exists(\"" name)) ys
length-request_of (len_of name) ys = length-front _ (param (call_text (codes "length") name)) ys
length-request_of (columns name) ys = length-front _ (param (call_text (codes "length") name)) ys
length-request_of (has_class name class) ys =
    length-front _ (param (call_text (codes "class") name)) ys

pub length-requests : (cs : List Call) → length cs ≤ length (requests cs)
length-requests [] = omega arith
length-requests (c ∷ cs) = omega (arith, length-requests cs, length-request_of c (requests cs))
