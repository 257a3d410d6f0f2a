-- ===== src/GetVec/Served.antt =====
-- A session of `set_vec` and `get_vec` with a server that reads the very bytes they send.
use c2r.Common.{
  ℕ, zero, suc, ◌+◌, ◌≤◌, ◌≡◌, refl, sym, ap, ◌∙◌, List, [], ◌∷◌, ◌++◌, Option, none, some, Bool,
  true, false, ℤ, is_neg, length, le32, bytes_eq, arith, append_assoc, length-append,
}
use mathlib.Core.Option
use c2r.Os.{Os}
use c2r.Os.Link.{Link, At, Prompt, Runs}
use c2r.Wire.{Phdr, phdr_bytes, pack}
use c2r.Wire.Constants.{cmd_eval, cmd_set_sexp, dt_sexp}
use c2r.Wire.Header.{request_hdr, length-phdr_bytes}
use c2r.Wire.DtString.{param, pack_fields, pack_bound}
use c2r.Client.Exec.{request}
use c2r.Server.{Vars, ack, sexp_reply, Evaluator, assign, replies}
use c2r.Server.Reads.{IsText, replies_nil, replies-eval, replies-set_sexp, eval_string-some}
use c2r.SetVec.{len_hdr_param2}
use c2r.SetVec.Plain.{set_request, payload, length-payload}
use c2r.GetVec.Stored.{Number, Held, IsHeld, value_of, f8, i4, elem_number, param2_hdr-sexp_of}
use c2r.GetVec.Store.{
  Table, empty, keep, Op, put, get, perform, answers, serve, requests, IsReady, perform-answers,
}

-- the variables that hold the vectors of a table
abbrev vars_of : Table → Vars
vars_of table name = Option.map value_of (table name)

map-if :
    (b : Bool) (h : Held) (o : Option Held)
    → ◌≡◌ {A = Option (List ℕ)}
        (elim b [ true ↦ some (value_of h) | false ↦ Option.map value_of o ])
        (Option.map value_of (elim b [ true ↦ some h | false ↦ o ]))
map-if true h o = refl
map-if false h o = refl

assign-keep :
    (table : Table) (h : Held) → assign (vars_of table) h.name (value_of h) ≡ vars_of (keep table h)
assign-keep table h = λ i name. map-if (bytes_eq h.name name) h (table name) i

-- the request of `set_vec`: its parameters are the name and the SEXP
body : Held → List ℕ
body h = param h.name ++ (le32 (pack (8 + length h.bytes) dt_sexp) ++ value_of h)

number_words : (t : Number) → len_hdr_param2 (elem_number t) ≡ 8
number_words f8 = refl
number_words i4 = refl

set_request-body :
    (h : Held)
    → IsHeld h
    → set_request h.name (elem_number h.type) h.n h.bytes
      ≡ phdr_bytes (request_hdr cmd_set_sexp (length (body h))) ++ body h
unfolding body
set_request-body h is =
    let e = elem_number h.type in
    let q : payload h.name e h.n h.bytes ≡ body h =
      rw (number_words h.type)
        (ap (λ x. param h.name ++ x) (param2_hdr-sexp_of h.type h.n h.bytes is.size is.small)) in
    ap (λ n. phdr_bytes (request_hdr cmd_set_sexp n) ++ payload h.name e h.n h.bytes)
      (sym (length-payload h.name e h.n h.bytes))
    ∙ ap (λ x. phdr_bytes (request_hdr cmd_set_sexp (length x)) ++ x) q

-- Names are C strings whose lengths fit a parameter, and those that are evaluated are names to R.
abbrev pub IsServed : Evaluator → List Op → Type 0
IsServed r [] = Unit
IsServed r (put h rest ∷ ops) = IsText h.name × IsServed r ops
IsServed r (get name t ∷ ops) = IsText name × r.IsSymbol name × IsServed r ops

module _ (r : Evaluator) where
  pub replies-put :
      (fuel : ℕ) (vars : Vars) (h : Held) (more : List ℕ)
      → IsHeld h
      → IsText h.name
      → replies r (suc fuel) vars (set_request h.name (elem_number h.type) h.n h.bytes ++ more)
        ≡ phdr_bytes ack ++ replies r fuel (assign vars h.name (value_of h)) more
  unfolding body
  replies-put fuel vars h more is text =
      let l = 8 + length h.bytes in
      let (type, len) = pack_fields l dt_sexp (omega (arith, is.small)) (omega arith) in
      let hd = request_hdr cmd_set_sexp (length (body h)) in
      ap (λ x. replies r (suc fuel) vars x)
        (ap (λ x. x ++ more) (set_request-body h is) ∙ append_assoc (phdr_bytes hd) (body h) more)
      ∙ replies-set_sexp r vars h.name text fuel (pack l dt_sexp) (value_of h) more
          (pack_bound l dt_sexp) type (omega (arith, len))

  replies-get :
      (fuel : ℕ) (table : Table) (name : List ℕ) (h : Held) (more : List ℕ)
      → IsText name
      → r.IsSymbol name
      → table name ≡ some h
      → replies r (suc fuel) (vars_of table) (request cmd_eval name ++ more)
        ≡ sexp_reply (value_of h) ++ replies r fuel (vars_of table) more
  replies-get fuel table name h more text symbol e =
      replies-eval r (vars_of table) name text fuel more
      ∙ ap (λ a. a.1 ++ replies r fuel a.0 more)
          (eval_string-some r (vars_of table) (vars_of table) name (value_of h)
            (r.eval_lem (vars_of table) name (value_of h) symbol (ap (Option.map value_of) e)))

  -- one message for each operation
  replies-serve :
      (fuel : ℕ) (table : Table) (ops : List Op) (left : List ℕ)
      → IsReady table ops
      → IsServed r ops
      → length ops ≤ fuel
      → replies r fuel (vars_of table) (requests ops) ++ left ≡ serve table ops left
  replies-serve fuel table [] left ready served h =
      ap (λ x. x ++ left) (replies_nil r fuel (vars_of table))
  replies-serve zero table (op ∷ ops) left ready served h = absurd (omega arith)
  replies-serve (suc fuel) table (put v rest ∷ ops) left ready served h =
      let vars = assign (vars_of table) v.name (value_of v) in
      ap (λ x. x ++ left) (replies-put fuel (vars_of table) v (requests ops) ready.0 served.0)
      ∙ append_assoc (phdr_bytes ack) (replies r fuel vars (requests ops)) left
      ∙ ap (λ t. phdr_bytes ack ++ (replies r fuel t (requests ops) ++ left)) (assign-keep table v)
      ∙ ap (λ x. phdr_bytes ack ++ x)
          (replies-serve fuel (keep table v) ops left ready.3 served.1 (omega arith))
  replies-serve (suc fuel) table (get name t ∷ ops) left ready served h =
      let (v, e, is) = ready.1 in
      ap (λ x. x ++ left) (replies-get fuel table name v (requests ops) served.0 served.1 e)
      ∙ append_assoc (sexp_reply (value_of v)) (replies r fuel (vars_of table) (requests ops)) left
      ∙ ap (λ x. sexp_reply (value_of v) ++ x)
          (replies-serve fuel table ops left ready.2 served.2 (omega arith))
      ∙ (rw (e, serve) refl)

pub length-front :
    (hd : Phdr) (xs ys : List ℕ) → suc (length ys) ≤ length ((phdr_bytes hd ++ xs) ++ ys)
length-front hd xs ys = omega (
  arith,
  length-append (phdr_bytes hd ++ xs) ys,
  length-append (phdr_bytes hd) xs,
  length-phdr_bytes hd,
)

length-requests : (ops : List Op) → length ops ≤ length (requests ops)
length-requests [] = omega arith
length-requests (put h rest ∷ ops) =
    let hd =
      request_hdr cmd_set_sexp
        (length (param h.name) + (len_hdr_param2 (elem_number h.type) + length h.bytes)) in
    omega (
      arith,
      length-requests ops,
      length-front hd (payload h.name (elem_number h.type) h.n h.bytes) (requests ops),
    )
length-requests (get name t ∷ ops) = omega (
  arith,
  length-requests ops,
  length-front (request_hdr cmd_eval (length (param name))) (param name) (requests ops),
)

module _ {os : Os} {sock : ℤ} (link : Link os sock) (r : Evaluator) where
  -- A session of `set_vec` and `get_vec` of numbers, of any length, over a connection that cuts no
  -- message, with a server that reads the bytes of the session's requests as rincs/Rsrv.h says,
  -- keeps each SEXP under its name and evaluates texts: the calls of `get_vec` return the bytes and
  -- the counts of the vectors that were stored last under their names, in order, what goes out is
  -- those requests, and nothing more is read than the answers. Each vector has one element or more
  -- and less than 2^24 - 8 bytes. Names are not empty and have less than 2^24 - 8 bytes, none of
  -- them NUL; each name that is asked for is in the table, with its type, and to the evaluator a
  -- variable's name, whose value is the variable's. The socket is not negative.
  pub perform-replies :
      {s : os.State} {left sent : List ℕ} (ops : List Op)
      → Prompt link
      → is_neg sock ≡ false
      → IsReady empty ops
      → IsServed r ops
      → At link s (replies r (length (requests ops)) (λ name. none) (requests ops) ++ left) sent
      → Runs link (perform os sock ops) s (answers empty ops) left (sent ++ requests ops)
  perform-replies {left} ops prompt fd ready served at =
      perform-answers link ops prompt fd ready (record {
        left_lem =
            at.left_lem
            ∙ replies-serve r (length (requests ops)) empty ops left ready served
                (length-requests ops);
        sent_lem = at.sent_lem;
      })
