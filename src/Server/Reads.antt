-- ===== src/Server/Reads.antt =====
-- What the server reads of the messages that the client's functions lay out.
use c2r.Common.{
  ℕ, zero, suc, ◌+◌, ◌-◌, ◌/◌, ◌%◌, ◌^◌, ◌≤◌, ◌<◌, ◌≡◌, refl, sym, ap, ◌∙◌, List, [], ◌∷◌, ◌++◌,
  some, length, take, drop, le32, arith, All, IsNonzero, take-append, drop-append, length-append,
  append_assoc, append-nil, take_all, ltb-false,
}
use c2r.Wire.{Phdr, phdr_bytes, phdr_of, pack, hdr_len, dt_string_bytes}
use c2r.Wire.Constants.{cmd_eval, cmd_void_eval, cmd_set_sexp, dt_string, dt_sexp}
use c2r.Wire.Header.{IsPhdr, request_hdr, length-phdr_bytes, word-le32}
use c2r.Wire.DtString.{param, len_name, length-param, pack_fields, pack_bound, c_string-param}
use c2r.Client.Exec.{request}
use c2r.Server.{
  Vars, Param, Evaluator, assign, params, ack, string_of, sexp_of_param, react, replies, set_sexp,
  eval_string, void_string, ack_of, sexp_hdr, sexp_reply, answer_of,
}

-- the front of a list, of a length that is known otherwise
take_front : (n : ℕ) (xs ys : List ℕ) → n ≡ length xs → take n (xs ++ ys) ≡ xs
take_front n xs ys e = rw e (take-append xs ys)

drop_front : (n : ℕ) (xs ys : List ℕ) → n ≡ length xs → drop n (xs ++ ys) ≡ ys
drop_front n xs ys e = rw e (drop-append xs ys)

drop_all : (n : ℕ) (xs : List ℕ) → length xs ≤ n → drop n xs ≡ []
drop_all zero [] h = refl
drop_all zero (x ∷ xs) h = absurd (omega arith)
drop_all (suc n) [] h = refl
drop_all (suc n) (x ∷ xs) h = drop_all n xs (omega arith)

-- The parameters of a list that starts with a whole one, and of one that is the last, whose word
-- may claim more than there is.
params-cons :
    (fuel w : ℕ) (bytes rest : List ℕ)
    → w < 2 ^ 32
    → w / 256 ≡ length bytes
    → params (suc fuel) (le32 w ++ (bytes ++ rest))
      ≡ record { type = w % 256; bytes = bytes } ∷ params fuel rest
unfolding params
params-cons fuel w bytes rest small e =
    rw (word-le32 w small, take_front (w / 256) bytes rest e, drop_front (w / 256) bytes rest e)
      (rw (ltb-false (length (le32 w ++ (bytes ++ rest))) 4 (omega arith)) refl)

params_nil : (fuel : ℕ) → params fuel [] ≡ []
unfolding params
params_nil zero = refl
params_nil (suc fuel) = refl

params-last :
    (fuel w : ℕ) (bytes : List ℕ)
    → w < 2 ^ 32
    → length bytes ≤ w / 256
    → params (suc fuel) (le32 w ++ bytes) ≡ record { type = w % 256; bytes = bytes } ∷ []
unfolding params
params-last fuel w bytes small h =
    rw (word-le32 w small, take_all (w / 256) bytes h, drop_all (w / 256) bytes h)
      (rw (params_nil fuel, ltb-false (length (le32 w ++ bytes)) 4 (omega arith)) refl)

-- A header in front of other bytes.
phdr_of-append : (ph : Phdr) (more : List ℕ) → IsPhdr ph → phdr_of (phdr_bytes ph ++ more) ≡ ph
unfolding phdr_of phdr_bytes
phdr_of-append ph more h = λ i. record {
  cmd = word-le32 ph.cmd h.cmd i;
  len = word-le32 ph.len h.len i;
  msg_id = word-le32 ph.msg_id h.msg_id i;
  res = word-le32 ph.res h.res i;
}

drop-phdr_bytes : (ph : Phdr) (more : List ℕ) → drop hdr_len (phdr_bytes ph ++ more) ≡ more
unfolding phdr_bytes
drop-phdr_bytes ph more = refl

-- A message in front of others.
module _ (r : Evaluator) where
  replies-message :
      (fuel cmd : ℕ) (vars : Vars) (body more : List ℕ)
      → cmd < 2 ^ 32
      → length body < 2 ^ 32
      → let answer = react r vars cmd (params (length body) body) in
        replies r (suc fuel) vars (phdr_bytes (request_hdr cmd (length body)) ++ (body ++ more))
        ≡ answer.1 ++ replies r fuel answer.0 more
  unfolding replies
  replies-message fuel cmd vars body more hc hb =
      let ph = request_hdr cmd (length body) in
      let is : IsPhdr ph = record { cmd = hc; len = hb; msg_id = omega arith; res = omega arith } in
      let whole : length (phdr_bytes ph ++ (body ++ more)) ≡ hdr_len + length (body ++ more) =
        length-append (phdr_bytes ph) (body ++ more)
        ∙ ap (λ n. n + length (body ++ more)) (length-phdr_bytes ph) in
      rw (phdr_of-append ph (body ++ more) is, drop-phdr_bytes ph (body ++ more), whole)
        (rw (take-append body more, drop-append body more)
          (rw
            (ltb-false (hdr_len + length (body ++ more)) (hdr_len + length body)
              (omega (arith, length-append body more)))
            refl))

-- The parameter that `mk_dt_string` lays out, in front of others and as the last one.
abbrev pub IsText : List ℕ → Type 0
IsText name = All IsNonzero name × (length name < 2 ^ 24 - 8)

abbrev string_param : List ℕ → Param
string_param name = record { type = dt_string; bytes = drop 4 (param name) }

param-words :
    (name : List ℕ) → param name ≡ le32 (pack (len_name name) dt_string) ++ drop 4 (param name)
unfolding dt_string_bytes
param-words name = refl

string_of-param : (name : List ℕ) → All IsNonzero name → string_of (string_param name) ≡ some name
unfolding string_of
string_of-param name nonzero = c_string-param name nonzero

module _ (name : List ℕ) (h : length name < 2 ^ 24 - 8) where
  length-behind : length (drop 4 (param name)) ≡ len_name name
  length-behind = omega (arith, length-param name, ap length (param-words name))

  params-param :
      (fuel : ℕ) (rest : List ℕ)
      → params (suc fuel) (param name ++ rest) ≡ string_param name ∷ params fuel rest
  params-param fuel rest =
      let (type, len) = pack_fields (len_name name) dt_string (omega arith) (omega arith) in
      let w = pack (len_name name) dt_string in
      ap (λ x. params (suc fuel) (x ++ rest)) (param-words name)
      ∙ params-cons fuel w (drop 4 (param name)) rest (pack_bound (len_name name) dt_string)
          (len ∙ sym length-behind)
      ∙ ap (λ t. record { type = t; bytes = drop 4 (param name) } ∷ params fuel rest) type

  -- CMD_eval of a text
  pub params-eval : params (length (param name)) (param name) ≡ string_param name ∷ []
  params-eval =
      let m = 3 + len_name name in
      let one : length (param name) ≡ suc m = omega (arith, length-param name) in
      let front = params-param m [] in rw one (rw (append-nil, params_nil) at front)

  -- CMD_setSEXP of a name and the SEXP behind a word that announces as many bytes, or more
  params-set_sexp :
      (w : ℕ) (sexp : List ℕ)
      → w < 2 ^ 32
      → w % 256 ≡ dt_sexp
      → length sexp ≤ w / 256
      → let body = param name ++ (le32 w ++ sexp) in
        params (length body) body ≡ string_param name ∷ record { type = dt_sexp; bytes = sexp } ∷ []
  params-set_sexp w sexp small type len =
      let body = param name ++ (le32 w ++ sexp) in
      let m = 2 + len_name name + 4 + length sexp in
      let all : length body ≡ suc (suc m) =
        omega (arith, length-append (param name) (le32 w ++ sexp), length-param name) in
      ap (λ n. params n body) all
      ∙ params-param (suc m) (le32 w ++ sexp)
      ∙ ap (λ ps. string_param name ∷ ps) (params-last m w sexp small len)
      ∙ ap (λ t. string_param name ∷ record { type = t; bytes = sexp } ∷ []) type

-- The answers to a request that evaluates a text, and to one that stores a SEXP.
module _ (r : Evaluator) (vars : Vars) (name : List ℕ) (is : IsText name) where
  pub replies-eval :
      (fuel : ℕ) (more : List ℕ)
      → let answer = eval_string r vars (some name) in
        replies r (suc fuel) vars (request cmd_eval name ++ more)
        ≡ answer.1 ++ replies r fuel answer.0 more
  unfolding react
  replies-eval fuel more =
      let hd = request_hdr cmd_eval (length (param name)) in
      ap (λ bs. replies r (suc fuel) vars bs) (append_assoc (phdr_bytes hd) (param name) more)
      ∙ replies-message r fuel cmd_eval vars (param name) more (omega arith)
          (omega (arith, length-param name))
      ∙ ap (λ a. a.1 ++ replies r fuel a.0 more)
          (ap (λ ps. react r vars cmd_eval ps) (params-eval name is.1)
            ∙ ap (λ t. eval_string r vars t) (string_of-param name is.0))

  pub replies-void_eval :
      (fuel : ℕ) (more : List ℕ)
      → let result = r.eval vars name in
        replies r (suc fuel) vars (request cmd_void_eval name ++ more)
        ≡ phdr_bytes (ack_of result.1) ++ replies r fuel result.0 more
  unfolding react void_string
  replies-void_eval fuel more =
      let hd = request_hdr cmd_void_eval (length (param name)) in
      ap (λ bs. replies r (suc fuel) vars bs) (append_assoc (phdr_bytes hd) (param name) more)
      ∙ replies-message r fuel cmd_void_eval vars (param name) more (omega arith)
          (omega (arith, length-param name))
      ∙ ap (λ a. a.1 ++ replies r fuel a.0 more)
          (ap (λ ps. react r vars cmd_void_eval ps) (params-eval name is.1)
            ∙ ap (λ t. void_string r vars t) (string_of-param name is.0))

  pub replies-set_sexp :
      (fuel w : ℕ) (sexp more : List ℕ)
      → w < 2 ^ 32
      → w % 256 ≡ dt_sexp
      → length sexp ≤ w / 256
      → let body = param name ++ (le32 w ++ sexp) in
        replies r
          (suc fuel)
          vars
          (phdr_bytes (request_hdr cmd_set_sexp (length body)) ++ (body ++ more))
        ≡ phdr_bytes ack ++ replies r fuel (assign vars name sexp) more
  unfolding react set_sexp sexp_of_param
  replies-set_sexp fuel w sexp more small type len =
      let body = param name ++ (le32 w ++ sexp) in
      replies-message r fuel cmd_set_sexp vars body more (omega arith)
        (omega (arith, length-append (param name) (le32 w ++ sexp), length-param name))
      ∙ ap (λ a. a.1 ++ replies r fuel a.0 more)
          (ap (λ ps. react r vars cmd_set_sexp ps) (params-set_sexp name is.1 w sexp small type len)
            ∙ ap (λ t. set_sexp r vars t (some sexp)) (string_of-param name is.0))

pub eval_string-some :
    (r : Evaluator) (vars vars' : Vars) (text sexp : List ℕ)
    → r.eval vars text ≡ (vars', some sexp)
    → eval_string r vars (some text) ≡ (vars', sexp_reply sexp)
unfolding eval_string
eval_string-some r vars vars' text sexp e = ap answer_of e

pub replies_nil : (r : Evaluator) (fuel : ℕ) (vars : Vars) → replies r fuel vars [] ≡ []
unfolding replies phdr_of
replies_nil r zero vars = refl
replies_nil r (suc fuel) vars = refl

-- an answer with a SEXP, and what follows it
pub sexp_reply-append :
    (sexp left : List ℕ)
    → sexp_reply sexp ++ left
      ≡ phdr_bytes (sexp_hdr sexp) ++ (le32 (pack (length sexp) dt_sexp) ++ (sexp ++ left))
sexp_reply-append sexp left =
    append_assoc (phdr_bytes (sexp_hdr sexp)) (le32 (pack (length sexp) dt_sexp) ++ sexp) left
