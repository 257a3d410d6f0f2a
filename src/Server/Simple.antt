-- ===== src/Server/Simple.antt =====
-- A small R that evaluates the texts of the client: names, assignments of TRUE and FALSE, and calls of
-- exists, length and class.
use c2r.Common.{
  ℕ, ◌*◌, ◌/◌, ◌%◌, ◌^◌, ◌≤◌, ◌<◌, ◌≡◌, refl, ap, ◌∙◌, List, [], ◌∷◌, ◌++◌, Option, none, some,
  Bool, true, false, length, drop, word32, codes, bytes_eq, ltb, ◌==◌, if◌then◌else◌, arith, All,
}
use mathlib.Core.Option
use c2r.Wire.{pack}
use c2r.Wire.Constants.{xt_array_double, xt_array_int}
use c2r.Wire.Header.{word-le32}
use c2r.Wire.DtString.{pack_fields, pack_bound}
use c2r.Exists.{quoted}
use c2r.Flags.Replies.{assignment}
use c2r.Frame.{call_text}
use c2r.GetVec.Stored.{Number, f8, i4, Held, IsHeld, value_of, elem_number}
use c2r.Server.{Vars, Evaluator, assign, logical_sexp, int_sexp, text_sexp, is_some, class_of}

-- Words have no blanks, quotes or parentheses; a text is split behind its first word.
abbrev pub IsWord : List ℕ → Type 0
IsWord = All (λ b. 42 < b)

abbrev pub split : List ℕ → List ℕ × List ℕ
split [] = ([], [])
split (b ∷ bs) = let rest = split bs in if ltb 42 b then (b ∷ rest.0, rest.1) else ([], b ∷ bs)

pub split-IsWord :
    (word more : List ℕ) (b : ℕ)
    → IsWord word
    → b ≤ 42
    → split (word ++ b ∷ more) ≡ (word, b ∷ more)
split-IsWord [] more b h hb = ground arith
split-IsWord (c ∷ word) more b h hb =
    let e : ltb 42 c ≡ true = ground arith in
    rw e (ap (λ p. (c ∷ p.0, p.1)) (split-IsWord word more b h.1 hb))

pub split_word : (word : List ℕ) → IsWord word → split word ≡ (word, [])
split_word [] h = refl
split_word (c ∷ word) h =
    let e : ltb 42 c ≡ true = ground arith in rw e (ap (λ p. (c ∷ p.0, p.1)) (split_word word h.1))

-- the number of elements of a vector of numbers, and its type
abbrev pub type_word : ℕ → Number
type_word w = if w % 256 == xt_array_double then f8 else i4

abbrev pub count_word : ℕ → ℕ
count_word w = w / 256 / (elem_number (type_word w)).width

abbrev pub count_sexp : List ℕ → List ℕ
count_sexp sexp = int_sexp (count_word (word32 sexp 0))

abbrev pub class_sexp : List ℕ → List ℕ
class_sexp sexp = text_sexp (class_of (type_word (word32 sexp 0)))

abbrev pub apply_fn : Vars → List ℕ → List ℕ → Option (List ℕ)
apply_fn vars fn args =
    if bytes_eq fn (codes "exists")
    then some (logical_sexp (is_some (vars (split (drop 2 args)).0)))
    else if bytes_eq fn (codes "length")
    then Option.map count_sexp (vars (split (drop 1 args)).0)
    else if bytes_eq fn (codes "class")
    then Option.map class_sexp (vars (split (drop 1 args)).0)
    else none

abbrev pub eval_split : Vars → List ℕ × List ℕ → Vars × Option (List ℕ)
eval_split vars p =
    if bytes_eq p.1 []
    then (vars, vars p.0)
    else if bytes_eq p.1 (codes " <- TRUE ")
    then (assign vars p.0 (logical_sexp true), some (logical_sexp true))
    else if bytes_eq p.1 (codes " <- FALSE ")
    then (assign vars p.0 (logical_sexp false), some (logical_sexp false))
    else (vars, apply_fn vars p.0 p.1)

abbrev pub eval : Vars → List ℕ → Vars × Option (List ℕ)
eval vars text = eval_split vars (split text)

pub eval_variable :
    (vars : Vars) (name sexp : List ℕ)
    → IsWord name
    → vars name ≡ some sexp
    → eval vars name ≡ (vars, some sexp)
eval_variable vars name sexp h e = ap (eval_split vars) (split_word name h) ∙ ap (λ x. (vars, x)) e

pub eval-assignment :
    (vars : Vars) (name : List ℕ) (x : Bool)
    → IsWord name
    → eval vars (assignment name x) ≡ (assign vars name (logical_sexp x), some (logical_sexp x))
eval-assignment vars name true h =
    ap (eval_split vars) (split-IsWord name (codes "<- TRUE ") 32 h (omega arith))
eval-assignment vars name false h =
    ap (eval_split vars) (split-IsWord name (codes "<- FALSE ") 32 h (omega arith))

pub eval_exists :
    (vars : Vars) (name : List ℕ)
    → IsWord name
    → eval vars (quoted "exists(\"" name) ≡ (vars, some (logical_sexp (is_some (vars name))))
eval_exists vars name h =
    ap (λ p. (vars, some (logical_sexp (is_some (vars p.0)))))
      (split-IsWord name (codes ")") 34 h (omega arith))

pub value_word : (h : Held) → word32 (value_of h) 0 ≡ pack (length h.bytes) (elem_number h.type).xt
value_word h =
    let w = pack (length h.bytes) (elem_number h.type).xt in
    word-le32 w (pack_bound (length h.bytes) (elem_number h.type).xt)

type_word-pack : (t : Number) (len : ℕ) → len < 2 ^ 24 → type_word (pack len (elem_number t).xt) ≡ t
type_word-pack f8 len h = rw (pack_fields len xt_array_double h (omega arith)).0
type_word-pack i4 len h = rw (pack_fields len xt_array_int h (omega arith)).0

count_word-pack :
    (t : Number) (n len : ℕ)
    → len < 2 ^ 24
    → len ≡ n * (elem_number t).width
    → count_word (pack len (elem_number t).xt) ≡ n
count_word-pack f8 n len h e =
    let (type, all) = pack_fields len xt_array_double h (omega arith) in
    rw (type, all) (let q : len / 8 ≡ n = omega arith in q)
count_word-pack i4 n len h e =
    let (type, all) = pack_fields len xt_array_int h (omega arith) in
    rw (type, all) (let q : len / 4 ≡ n = omega arith in q)

count_sexp-value_of : (h : Held) → IsHeld h → count_sexp (value_of h) ≡ int_sexp h.n
count_sexp-value_of h is =
    ap (λ w. int_sexp (count_word w)) (value_word h)
    ∙ ap int_sexp (count_word-pack h.type h.n (length h.bytes) (omega (arith, is.small)) is.size)

class_sexp-value_of : (h : Held) → IsHeld h → class_sexp (value_of h) ≡ text_sexp (class_of h.type)
class_sexp-value_of h is =
    ap (λ w. text_sexp (class_of (type_word w))) (value_word h)
    ∙ ap (λ t. text_sexp (class_of t))
        (type_word-pack h.type (length h.bytes) (omega (arith, is.small)))

pub eval_length :
    (vars : Vars) (name : List ℕ) (h : Held)
    → IsWord name
    → IsHeld h
    → vars name ≡ some (value_of h)
    → eval vars (call_text (codes "length") name) ≡ (vars, some (int_sexp h.n))
eval_length vars name h word is e =
    ap (λ p. (vars, Option.map count_sexp (vars p.0))) (split-IsWord name [] 41 word (omega arith))
    ∙ ap (λ x. (vars, Option.map count_sexp x)) e
    ∙ ap (λ x. (vars, some x)) (count_sexp-value_of h is)

pub eval_class :
    (vars : Vars) (name : List ℕ) (h : Held)
    → IsWord name
    → IsHeld h
    → vars name ≡ some (value_of h)
    → eval vars (call_text (codes "class") name) ≡ (vars, some (text_sexp (class_of h.type)))
eval_class vars name h word is e =
    ap (λ p. (vars, Option.map class_sexp (vars p.0))) (split-IsWord name [] 41 word (omega arith))
    ∙ ap (λ x. (vars, Option.map class_sexp x)) e
    ∙ ap (λ x. (vars, some x)) (class_sexp-value_of h is)

abbrev pub simple : Evaluator
simple = record {
  IsSymbol = IsWord;
  eval = eval;
  eval_lem = eval_variable;
  assign_lem = eval-assignment;
  exists_lem = eval_exists;
  length_lem = eval_length;
  class_lem = eval_class;
}
