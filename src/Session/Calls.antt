-- ===== src/Session/Calls.antt =====
-- What a call makes of the server's answer to it.
use c2r.Common.{
  ℕ, ◌-◌, ◌^◌, ◌<◌, ◌⊎◌, is_neg, true, ◌%◌, ◌≡◌, refl, List, ◌++◌, Option, none, some, false, ℤ,
  pos, negsuc, is_nonpos, length, le32, arith, bytes_eq,
}
use c2r.Os.{Os}
use c2r.Os.Link.{Link, At, Prompt, Runs, Runs-bind, Runs-pure}
use c2r.Wire.{pack, phdr_bytes}
use c2r.Client.{exec_str}
use c2r.Wire.Constants.{cmd_eval, cmd_void_eval, xt_array_double, dt_sexp, xt_array_int}
use c2r.GetVec.Stored.{f8, i4}
use c2r.Client.Exec.{request, exec_str-reply, exec_str-void}
use c2r.Frame.{ncols_df}
use c2r.Scalar.{get_f8, get_i4}
use c2r.Query.Replies.{is_neg-nonpos}
use c2r.GetVec.Store.{Runs-put, Runs-get}
use c2r.Wire.Header.{IsPhdr}
use c2r.Server.{sexp_reply, ack_of, Vars, Evaluator, sexp_hdr, is_some, class_of}
use c2r.Session.{
  Call, Result, done, value, flag, perform_call, number, count, size, request_of, Does, stores,
  loads, runs, commands, sets, gets, loads_one, finds1, finds2, counts, sizes, compares,
}
use c2r.Session.Answers.{answer}
use c2r.Session.Reads.{
  IsReply-sexp, count_bound, At-reply, Runs-set_flag, Runs-get_flag, Runs-one, Runs-exists,
  Runs-len, Runs-size, Runs-class,
}

ack_of-IsPhdr : (o : Option (List ℕ)) → IsPhdr (ack_of o)
ack_of-IsPhdr none = record {
  cmd = omega arith;
  len = omega arith;
  msg_id = omega arith;
  res = omega arith;
}
ack_of-IsPhdr (some sexp) = record {
  cmd = omega arith;
  len = omega arith;
  msg_id = omega arith;
  res = omega arith;
}

module _ {os : Os} {sock : ℤ} (link : Link os sock) where
  -- a text that is run for its value, and one that is not
  pub Runs-run :
      {s : os.State} {sent : List ℕ} (text : List ℕ) (expected_xt : ℤ) (w : ℕ) (out left : List ℕ)
      → is_neg sock ≡ false
      → length text < 2 ^ 30
      → length out < 2 ^ 24 - 8
      → (is_neg expected_xt ≡ true) ⊎ (expected_xt ≡ pos (w % 256))
      → At link s (sexp_reply (le32 w ++ out) ++ left) sent
      → Runs link
          (exec_str os sock (some text) true expected_xt)
          s
          (some out)
          left
          (sent ++ request cmd_eval text)
  Runs-run text expected_xt w out left fd ht small accepted at =
      let sexp = le32 w ++ out in
      exec_str-reply link text expected_xt (sexp_hdr sexp) (pack (length sexp) dt_sexp) w (w % 256)
        out fd ht (IsReply-sexp w (w % 256) out small refl) accepted (At-reply link w out left at)

  pub Runs-command :
      {s : os.State} {sent : List ℕ} (text : List ℕ) (value_or_error : Option (List ℕ))
      (left : List ℕ)
      → is_neg sock ≡ false
      → length text < 2 ^ 30
      → At link s (phdr_bytes (ack_of value_or_error) ++ left) sent
      → Runs link
          (exec_str os sock (some text) false (negsuc 0))
          s
          none
          left
          (sent ++ request cmd_void_eval text)
  Runs-command text value_or_error left fd ht at =
      exec_str-void link text (negsuc 0) (ack_of value_or_error) fd ht
        (ack_of-IsPhdr value_or_error) at

  pub Runs-call :
      {r : Evaluator} {vars vars' : Vars} {c : Call} {result : Result} {s : os.State}
      {left sent : List ℕ} (d : Does r vars c vars' result)
      → Prompt link
      → is_nonpos sock ≡ false
      → At link s (answer d ++ left) sent
      → Runs link (perform_call os sock c) s result left (sent ++ request_of c)
  unfolding perform_call pack get_f8 get_i4 ncols_df
  Runs-call (stores h rest is nonempty text) prompt fd at =
      Runs-bind link _
        (Runs-put link h rest (is_neg-nonpos sock fd) is nonempty (omega (arith, text.1)) at)
        λ s1 at1. Runs-pure link done at1
  Runs-call (loads h name is text symbol e) prompt fd at =
      Runs-bind link _
        (Runs-get link h name prompt (is_neg-nonpos sock fd) (omega (arith, text.1)) is at)
        λ s1 at1. Runs-pure link _ at1
  Runs-call {left} (runs text out expected_xt w is e small accepted) prompt fd at =
      Runs-bind link _
        (Runs-run text expected_xt w out left (is_neg-nonpos sock fd) (omega (arith, is.1)) small
          accepted at)
        λ s1 at1. Runs-pure link (value (some out)) at1
  Runs-call {r} {vars} {left} (commands text is) prompt fd at =
      Runs-bind link _
        (Runs-command text (r.eval vars text).1 left (is_neg-nonpos sock fd) (omega (arith, is.1))
          at)
        λ s1 at1. Runs-pure link (value none) at1
  Runs-call {left} (sets name x nonzero short symbol) prompt fd at =
      Runs-bind link _ (Runs-set_flag link name x left (is_neg-nonpos sock fd) (omega arith) at)
        λ s1 at1. Runs-pure link done at1
  Runs-call {left} (gets name x is symbol e) prompt fd at =
      Runs-bind link _ (Runs-get_flag link name x left fd (omega (arith, is.1)) at)
        λ s1 at1. Runs-pure link (flag x) at1
  Runs-call {left} (loads_one f8 name bytes len is symbol e) prompt fd at =
      Runs-bind link _
        (Runs-one link xt_array_double 8 name bytes left prompt (is_neg-nonpos sock fd)
          (omega (arith, is.1)) (omega arith) len (omega arith) (omega arith) at)
        λ s1 at1. Runs-pure link (number bytes) at1
  Runs-call {left} (loads_one i4 name bytes len is symbol e) prompt fd at =
      Runs-bind link _
        (Runs-one link xt_array_int 4 name bytes left prompt (is_neg-nonpos sock fd)
          (omega (arith, is.1)) (omega arith) len (omega arith) (omega arith) at)
        λ s1 at1. Runs-pure link (number bytes) at1
  Runs-call {vars} {left} (finds1 name nonzero short symbol) prompt fd at =
      Runs-bind link _
        (Runs-exists link name (is_some (vars name)) left (is_neg-nonpos sock fd) (omega arith)
          at).0
        λ s1 at1. Runs-pure link (flag (is_some (vars name))) at1
  Runs-call {vars} {left} (finds2 name nonzero short symbol) prompt fd at =
      Runs-bind link _
        (Runs-exists link name (is_some (vars name)) left (is_neg-nonpos sock fd) (omega arith)
          at).1
        λ s1 at1. Runs-pure link (flag (is_some (vars name))) at1
  Runs-call {left} (counts h name is nonzero short symbol e) prompt fd at =
      Runs-bind link _
        (Runs-len link name h.n left (is_neg-nonpos sock fd) (omega arith)
          (omega (arith, is.small, count_bound h.type h.n (length h.bytes) is.size)) at)
        λ s1 at1. Runs-pure link (count (pos h.n)) at1
  Runs-call {left} (sizes h name is nonzero short symbol e) prompt fd at =
      Runs-bind link _
        (Runs-size link name h.n left (is_neg-nonpos sock fd) short
          (omega (arith, is.small, count_bound h.type h.n (length h.bytes) is.size)) at)
        λ s1 at1. Runs-pure link (size h.n) at1
  Runs-call {left} (compares h name class is nonzero short symbol e) prompt fd at =
      Runs-bind link _ (Runs-class link name class h.type left fd short at)
        λ s1 at1. Runs-pure link (flag (bytes_eq (class_of h.type) class)) at1
