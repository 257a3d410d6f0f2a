-- ===== src/Session/Values.antt =====
-- A session of calls in any order, with a server that reads the very bytes they send.
use c2r.Common.{
  ℕ, zero, suc, ◌≤◌, ◌≡◌, ap, ◌∙◌, List, [], ◌∷◌, ◌++◌, ℤ, false, is_nonpos, length, arith,
  append_assoc, append-nil,
}
use c2r.Os.{Os}
use c2r.Os.Link.{Link, At, Prompt, Runs, Runs-bind, Runs-pure}
use c2r.Server.{Vars, Evaluator, replies}
use c2r.Server.Reads.{replies_nil}
use c2r.Session.{Call, Result, perform_calls, request_of, requests, DoesAll, over, next}
use c2r.Session.Answers.{answer, replies-answer, length-requests}
use c2r.Session.Calls.{Runs-call}

-- the answers of a session
abbrev pub answers :
    {r : Evaluator} {vars vars' : Vars} {cs : List Call} {results : List Result}
    → DoesAll r vars cs vars' results
    → List ℕ
answers over = []
answers (next d ds) = answer d ++ answers ds

pub replies-answers :
    {r : Evaluator} {vars vars' : Vars} {cs : List Call} {results : List Result}
    (ds : DoesAll r vars cs vars' results) (fuel : ℕ)
    → length cs ≤ fuel
    → replies r fuel vars (requests cs) ≡ answers ds
replies-answers {r} {vars} over fuel h = replies_nil r fuel vars
replies-answers (next d ds) zero h = absurd (omega arith)
replies-answers (next {cs} d ds) (suc fuel) h =
    replies-answer d fuel (requests cs)
    ∙ ap (λ x. answer d ++ x) (replies-answers ds fuel (omega arith))

module _ {os : Os} {sock : ℤ} (link : Link os sock) where
  Runs-calls :
      {r : Evaluator} {vars vars' : Vars} {cs : List Call} {results : List Result} {s : os.State}
      {left sent : List ℕ} (ds : DoesAll r vars cs vars' results)
      → Prompt link
      → is_nonpos sock ≡ false
      → At link s (answers ds ++ left) sent
      → Runs link (perform_calls os sock cs) s results left (sent ++ requests cs)
  unfolding perform_calls
  Runs-calls {sent} over prompt fd at = rw append-nil (Runs-pure link [] at)
  Runs-calls {left} {sent} (next {c} {cs} {result} {results} d ds) prompt fd at =
      rw (← append_assoc sent (request_of c) (requests cs)) (
        Runs-bind link _
          (Runs-call link d prompt fd (record {
            left_lem = at.left_lem ∙ append_assoc (answer d) (answers ds) left;
            sent_lem = at.sent_lem;
          }))
          λ s1 at1.
            Runs-bind link _ (Runs-calls {s = s1} ds prompt fd at1)
              λ s2 at2. Runs-pure link (result ∷ results) at2)

  -- A session of calls of `set_vec`, `get_vec`, `exec_str`, `set_bool`, `get_bool`, `get_F8`,
  -- `get_I4`, `exists1`, `exists2`, `get_vec_len`, `ncols_df` and `chk_R_class`, in any order and of any
  -- length, over a connection that cuts no message, with a server that reads the bytes of the session's
  -- requests as rincs/Rsrv.h says, stores SEXPs in R's variables and has R evaluate texts: the calls
  -- return, in order, what `Does` says they do to the variables, what goes out is their requests, and
  -- nothing more is read than the answers. Names, texts and values fit the 24 bits of a length, texts
  -- have no NUL, a call that reads a name finds a value of its type there, and the socket is above 0.
  -- R is any evaluator for which a name has the value of its variable, an assignment of TRUE or FALSE
  -- assigns it, and exists, length and class tell of the variable and its vector.
  pub perform_calls-results :
      {r : Evaluator} {vars vars' : Vars} {s : os.State} {left sent : List ℕ} (cs : List Call)
      (results : List Result)
      → Prompt link
      → is_nonpos sock ≡ false
      → DoesAll r vars cs vars' results
      → At link s (replies r (length (requests cs)) vars (requests cs) ++ left) sent
      → Runs link (perform_calls os sock cs) s results left (sent ++ requests cs)
  perform_calls-results {left} cs results prompt fd ds at = Runs-calls ds prompt fd (record {
    left_lem =
        at.left_lem
        ∙ ap (λ x. x ++ left) (replies-answers ds (length (requests cs)) (length-requests cs));
    sent_lem = at.sent_lem;
  })
