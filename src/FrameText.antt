-- ===== src/FrameText.antt =====
-- src/mk_df_str.c: the text of a call of `data.frame`. The file is not in the build, and its
-- go_BYE has no label to go to; an error is taken to return NULL, and is `err` here.
pub mod Settles
pub mod Examples
pub mod Text
use c2r.Common.{
  ℕ, zero, suc, ◌+◌, List, [], ◌∷◌, ◌++◌, Option, none, some, Bool, true, false, ℤ, is_nonpos,
  word_of, length, codes, bytes_eq, ltb, if◌then◌else◌,
}
use c2r.Os.{Os}
use c2r.Os.Actions.{
  Outcome, ok, err, fault, M, bad, lift, crash, call, reject, non_null, ◌>>=◌, ◌>>◌,
}

-- an array of `char *`
abbrev pub Texts : Type 0
Texts = List (Option (List ℕ))

-- The first loop: the size of the buffer. A column of type "XX" adds nothing to it.
pub size_loop : ℕ → Texts → Texts → ℕ → Outcome ℕ
size_loop zero names types len = ok len
size_loop (suc k) (name ∷ names) (none ∷ types) len = err bad
size_loop (suc k) (none ∷ names) (some type ∷ types) len =
    let rest = size_loop k names types len in if bytes_eq type (codes "XX") then rest else err bad
size_loop (suc k) (some name ∷ names) (some type ∷ types) len =
    size_loop k names types (if bytes_eq type (codes "XX") then len else len + (length name + 4))
size_loop (suc k) [] types len = fault
size_loop (suc k) (name ∷ names) [] len = fault

-- The second loop: the names, each but the first behind a comma.
pub join_loop : ℕ → Texts → Bool → List ℕ → Outcome (List ℕ)
join_loop zero names first buf = ok buf
join_loop (suc k) (some name ∷ names) first buf =
    join_loop k names false (buf ++ ((if first then [] else codes ", ") ++ name))
join_loop (suc k) (none ∷ names) first buf = fault
join_loop (suc k) [] first buf = fault

-- the buffer holds the text and its NUL
abbrev pub fits : ℕ → List ℕ → Outcome (List ℕ)
fits len text = if ltb (length text) len then ok text else fault

abbrev pub df_start : List ℕ
df_start = codes "rsdf <- data.frame("

module _ (os : Os) where
  open os use {State, malloc}

  pub build : Texts → Texts → ℕ → M State (List ℕ)
  build names types ncols = do
    len ← lift (size_loop ncols names types (19 + 32))
    done ← call (malloc len)
    if done
        then (do
          text ← lift (join_loop ncols names true df_start)
          lift (fits len (text ++ codes ")")))
        else crash

  pub mk_df_str : Option Texts → Option Texts → ℤ → M State (List ℕ)
  mk_df_str col_names col_types ncols = do
    names ← non_null col_names
    types ← non_null col_types
    reject (is_nonpos ncols) bad
    build names types (word_of 31 ncols)
