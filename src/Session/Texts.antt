-- ===== src/Session/Texts.antt =====
-- The texts that a session's calls send: C strings that fit a parameter.
use c2r.Common.{
  ℕ, ◌-◌, ◌^◌, ◌<◌, List, [], ◌∷◌, ◌++◌, Bool, true, false, length, arith, All, IsNonzero,
  length-append, codes,
}
use c2r.Exists.{quoted}
use c2r.Frame.{call_text}
use c2r.Flags.Replies.{assignment}
use c2r.Server.Reads.{IsText}

All-append : (xs ys : List ℕ) → All IsNonzero xs → All IsNonzero ys → All IsNonzero (xs ++ ys)
All-append [] ys h k = k
All-append (x ∷ xs) ys h k = (h.0, All-append xs ys h.1 k)

pub assignment-IsText :
    (name : List ℕ) (x : Bool)
    → All IsNonzero name
    → length name < 2 ^ 24 - 32
    → IsText (assignment name x)
assignment-IsText name true nonzero h = (
  All-append name (codes " <- TRUE ") nonzero (omega arith),
  omega (arith, length-append name (codes " <- TRUE ")),
)
assignment-IsText name false nonzero h = (
  All-append name (codes " <- FALSE ") nonzero (omega arith),
  omega (arith, length-append name (codes " <- FALSE ")),
)

-- the text of a call of R's function, and that of a test of a name
call_text-IsNonzero :
    (fn name : List ℕ) → All IsNonzero fn → All IsNonzero name → All IsNonzero (call_text fn name)
call_text-IsNonzero fn name h k =
    All-append fn (codes "(" ++ (name ++ codes ")")) h
      (omega arith, All-append name (codes ")") k (omega arith))

pub length_call-IsText :
    (name : List ℕ)
    → All IsNonzero name
    → length name < 2 ^ 24 - 32
    → IsText (call_text (codes "length") name)
length_call-IsText name nonzero h = (
  call_text-IsNonzero (codes "length") name (omega arith) nonzero,
  omega (arith, length-append name (codes ")")),
)

pub class_call-IsText :
    (name : List ℕ)
    → All IsNonzero name
    → length name < 2 ^ 24 - 32
    → IsText (call_text (codes "class") name)
class_call-IsText name nonzero h = (
  call_text-IsNonzero (codes "class") name (omega arith) nonzero,
  omega (arith, length-append name (codes ")")),
)

pub quoted-IsText :
    (name : List ℕ)
    → All IsNonzero name
    → length name < 2 ^ 24 - 32
    → IsText (quoted "exists(\"" name)
quoted-IsText name nonzero h = (
  All-append (codes "exists(\"") (name ++ codes "\")") (omega arith)
      (All-append name (codes "\")") nonzero (omega arith)),
  omega (arith, length-append name (codes "\")")),
)
