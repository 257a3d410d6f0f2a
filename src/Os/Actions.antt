-- ===== src/Os/Actions.antt =====
-- Actions over the state of the operating system. `err e` is a return with the negative status e;
-- `fault` is undefined behaviour, such as a read past a buffer; `stuck` is no outcome of the
-- program: a loop of the model ran out of fuel.
use c2r.Common.{Bool, true, false, Option, none, some, ℤ, is_neg, negsuc}

pub data Outcome (A : Type 0) : Type 0 where
  ok : A → Outcome A
  err : ℤ → Outcome A
  fault : Outcome A
  stuck : Outcome A

abbrev pub M : Type 0 → Type 0 → Type 0
M S A = S → Outcome A × S

-- -1: a bad argument, a failed call or a reply of the wrong form
abbrev pub bad : ℤ
bad = negsuc 0

-- -2: `read` returned 0
abbrev pub at_eof : ℤ
at_eof = negsuc 1

-- -3: `read` returned less than 0
abbrev pub read_failed : ℤ
read_failed = negsuc 2

module _ {S A : Type 0} where
  abbrev pub lift : Outcome A → M S A
  lift r s = (r, s)

  abbrev pub pure : A → M S A
  pure a = lift (ok a)

  -- `go_BYE(e)`
  abbrev pub raise : ℤ → M S A
  raise e = lift (err e)

  abbrev pub crash : M S A
  crash = lift fault

  -- `if ( p == NULL ) { go_BYE(-1); }`
  abbrev pub non_null : Option A → M S A
  non_null none = raise bad
  non_null (some a) = pure a

  -- the use of a pointer that may be NULL, or of a value that may lie outside its buffer
  abbrev pub deref : Option A → M S A
  deref none = crash
  deref (some a) = pure a

  -- a call that changes the state and always returns
  abbrev pub call : (S → A × S) → M S A
  call f s = let (a, s') = f s in (ok a, s')

module _ {S : Type 0} where
  -- `if ( b ) { go_BYE(e); }`
  abbrev pub reject : Bool → ℤ → M S (Unit {0})
  reject true e = raise e
  reject false e = pure tt

  -- `cBYE(status)`
  abbrev pub c_bye : ℤ → M S (Unit {0})
  c_bye status = reject (is_neg status) status

module _ {S A B : Type 0} where
  abbrev pub continue : Outcome A → (A → M S B) → M S B
  continue (ok a) f s = f a s
  continue (err e) f s = (err e, s)
  continue fault f s = (fault, s)
  continue stuck f s = (stuck, s)

  infixl 5 ◌>>=◌ ◌>>◌
  unfoldable pub ◌>>=◌ : M S A → (A → M S B) → M S B
  ◌>>=◌ m f s = let (r, s') = m s in continue r f s'

  abbrev pub ◌>>◌ : M S A → M S B → M S B
  m >> n = m >>= λ _. n

  -- Goes on after an error with the status that a call returned.
  unfoldable pub try : M S A → (Outcome A → M S B) → M S B
  try m f s = let (r, s') = m s in f r s'
