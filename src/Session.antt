-- ===== src/Session.antt =====
-- A client that calls functions of the library in any order over one connection, and what each call
-- does to the variables of R.
pub mod Answers
pub mod Calls
pub mod Reads
pub mod Texts
pub mod Values
pub mod Examples
use c2r.Common.{
  ℕ, ◌+◌, ◌-◌, ◌%◌, ◌^◌, ◌<◌, ◌≡◌, ◌⊎◌, List, [], ◌∷◌, ◌++◌, Option, none, some, Bool, true, false,
  ℤ, pos, negsuc, is_neg, length, le32, All, IsNonzero, codes, bytes_eq,
}
use c2r.Os.{Os}
use c2r.Os.Actions.{M, pure, ◌>>=◌}
use c2r.Wire.Constants.{cmd_eval, cmd_void_eval}
use c2r.Client.{exec_str}
use c2r.Client.Exec.{request}
use c2r.SetVec.{set_vec}
use c2r.SetVec.Plain.{set_request}
use c2r.GetVec.{VecOut, get_vec}
use c2r.GetVec.Stored.{Number, f8, i4, sexp_of, Held, IsHeld, value_of, elem_number, name_number}
use c2r.GetVec.Store.{out_of}
use c2r.Flags.{get_bool, set_bool}
use c2r.Flags.Replies.{assignment}
use c2r.Scalar.{get_f8, get_i4}
use c2r.Exists.{quoted, exists1, exists2}
use c2r.Frame.{call_text, chk_r_class, ncols_df}
use c2r.VecLen.{get_vec_len}
use c2r.Server.{Vars, Evaluator, assign, logical_sexp, is_some, class_of}
use c2r.Server.Reads.{IsText}

pub data Call : Type 0 where
  -- a vector, and whatever is in the buffer behind it
  store : Held → List ℕ → Call
  load : List ℕ → Number → Call
  -- a text, and the type that is expected
  run : List ℕ → ℤ → Call
  -- a text whose value is not asked for
  command : List ℕ → Call
  set_flag : List ℕ → Bool → Call
  get_flag : List ℕ → Call
  -- one number
  load_one : List ℕ → Number → Call
  -- the two tests whether a name is bound, and the length (twice) and the class of its value
  bound1 bound2 : List ℕ → Call
  len_of columns : List ℕ → Call
  has_class : List ℕ → List ℕ → Call

pub data Result : Type 0 where
  done : Result
  vector : VecOut → Result
  value : Option (List ℕ) → Result
  flag : Bool → Result
  number : List ℕ → Result
  count : ℤ → Result
  size : ℕ → Result

pub perform_call : (os : Os) → ℤ → Call → M os.State Result
perform_call os sock (store h rest) = do
  u ← set_vec os sock (some h.name) (some (name_number h.type)) (some (h.bytes ++ rest)) h.n 0
  pure done
perform_call os sock (load name t) = do
  out ← get_vec os sock (some name) (some (name_number t))
  pure (vector out)
perform_call os sock (run text expected_xt) = do
  out ← exec_str os sock (some text) true expected_xt
  pure (value out)
perform_call os sock (command text) = do
  out ← exec_str os sock (some text) false (negsuc 0)
  pure (value out)
perform_call os sock (set_flag name x) = do u ← set_bool os sock (some name) x; pure done
perform_call os sock (get_flag name) = do x ← get_bool os sock (some name); pure (flag x)
perform_call os sock (load_one name f8) = do bytes ← get_f8 os sock (some name); pure (number bytes)
perform_call os sock (load_one name i4) = do bytes ← get_i4 os sock (some name); pure (number bytes)
perform_call os sock (bound1 name) = do x ← exists1 os sock (some name); pure (flag x)
perform_call os sock (bound2 name) = do x ← exists2 os sock (some name); pure (flag x)
perform_call os sock (len_of name) = do n ← get_vec_len os sock (some name); pure (count n)
perform_call os sock (columns name) = do n ← ncols_df os sock (some name); pure (size n)
perform_call os sock (has_class name class) = do
  x ← chk_r_class os sock (some name) (some class)
  pure (flag x)

-- the calls in order, up to the first that fails
pub perform_calls : (os : Os) → ℤ → List Call → M os.State (List Result)
perform_calls os sock [] = pure []
perform_calls os sock (c ∷ cs) = do
  result ← perform_call os sock c
  results ← perform_calls os sock cs
  pure (result ∷ results)

abbrev pub request_of : Call → List ℕ
request_of (store h rest) = set_request h.name (elem_number h.type) h.n h.bytes
request_of (load name t) = request cmd_eval name
request_of (run text expected_xt) = request cmd_eval text
request_of (command text) = request cmd_void_eval text
request_of (set_flag name x) = request cmd_eval (assignment name x)
request_of (get_flag name) = request cmd_eval name
request_of (load_one name t) = request cmd_eval name
request_of (bound1 name) = request cmd_eval (quoted "exists(\"" name)
request_of (bound2 name) = request cmd_eval (quoted "exists(\"" name)
request_of (len_of name) = request cmd_eval (call_text (codes "length") name)
request_of (columns name) = request cmd_eval (call_text (codes "length") name)
request_of (has_class name class) = request cmd_eval (call_text (codes "class") name)

abbrev pub requests : List Call → List ℕ
requests [] = []
requests (c ∷ cs) = request_of c ++ requests cs

-- The variables before a call and after it, and its result. A vector is stored as it is, one that is
-- loaded is the value of its name, with its type, and a text has the value that R gives it, whose type
-- is the one that is expected, if one is.
pub data Does (r : Evaluator) : Vars → Call → Vars → Result → Type 0 where
  stores :
      {vars : Vars} (h : Held) (rest : List ℕ)
      → IsHeld h
      → 0 < length h.name
      → IsText h.name
      → Does r vars (store h rest) (assign vars h.name (value_of h)) done
  loads :
      {vars : Vars} (h : Held) (name : List ℕ)
      → IsHeld h
      → IsText name
      → r.IsSymbol name
      → vars name ≡ some (value_of h)
      → Does r vars (load name h.type) vars (vector (out_of h))
  runs :
      {vars vars' : Vars} (text out : List ℕ) (expected_xt : ℤ) (w : ℕ)
      → IsText text
      → r.eval vars text ≡ (vars', some (le32 w ++ out))
      → length out < 2 ^ 24 - 8
      → (is_neg expected_xt ≡ true) ⊎ (expected_xt ≡ pos (w % 256))
      → Does r vars (run text expected_xt) vars' (value (some out))
  commands :
      {vars : Vars} (text : List ℕ)
      → IsText text
      → Does r vars (command text) (r.eval vars text).0 (value none)
  sets :
      {vars : Vars} (name : List ℕ) (x : Bool)
      → All IsNonzero name
      → length name < 2 ^ 24 - 32
      → r.IsSymbol name
      → Does r vars (set_flag name x) (assign vars name (logical_sexp x)) done
  gets :
      {vars : Vars} (name : List ℕ) (x : Bool)
      → IsText name
      → r.IsSymbol name
      → vars name ≡ some (logical_sexp x)
      → Does r vars (get_flag name) vars (flag x)
  loads_one :
      {vars : Vars} (t : Number) (name bytes : List ℕ)
      → length bytes ≡ (elem_number t).width
      → IsText name
      → r.IsSymbol name
      → vars name ≡ some (sexp_of t bytes)
      → Does r vars (load_one name t) vars (number bytes)
  finds1 :
      {vars : Vars} (name : List ℕ)
      → All IsNonzero name
      → length name < 2 ^ 24 - 32
      → r.IsSymbol name
      → Does r vars (bound1 name) vars (flag (is_some (vars name)))
  finds2 :
      {vars : Vars} (name : List ℕ)
      → All IsNonzero name
      → length name < 2 ^ 24 - 32
      → r.IsSymbol name
      → Does r vars (bound2 name) vars (flag (is_some (vars name)))
  counts :
      {vars : Vars} (h : Held) (name : List ℕ)
      → IsHeld h
      → All IsNonzero name
      → length name < 2 ^ 24 - 32
      → r.IsSymbol name
      → vars name ≡ some (value_of h)
      → Does r vars (len_of name) vars (count (pos h.n))
  sizes :
      {vars : Vars} (h : Held) (name : List ℕ)
      → IsHeld h
      → All IsNonzero name
      → length name < 1016
      → r.IsSymbol name
      → vars name ≡ some (value_of h)
      → Does r vars (columns name) vars (size h.n)
  compares :
      {vars : Vars} (h : Held) (name class : List ℕ)
      → IsHeld h
      → All IsNonzero name
      → length name < 1017
      → r.IsSymbol name
      → vars name ≡ some (value_of h)
      → Does r vars (has_class name class) vars (flag (bytes_eq (class_of h.type) class))

pub data DoesAll (r : Evaluator) : Vars → List Call → Vars → List Result → Type 0 where
  over : {vars : Vars} → DoesAll r vars [] vars []
  next :
      {vars vars' vars'' : Vars} {c : Call} {cs : List Call} {result : Result}
      {results : List Result}
      → Does r vars c vars' result
      → DoesAll r vars' cs vars'' results
      → DoesAll r vars (c ∷ cs) vars'' (result ∷ results)
