-- ===== src/FrameText/Settles.antt =====
-- `mk_df_str` ends, whatever the calls of the system return.
use c2r.Common.{
  ℕ, zero, suc, List, [], ◌∷◌, Option, none, some, Bool, ℤ, ltb, length, codes, bytes_eq,
}
use c2r.Os.{Os}
use c2r.Os.Actions.{lift, ok, err, bad, fault}
use c2r.Os.Settles.{Settles, IsSettled, IsSettled-if, Settles-lift, settles_rules}
use c2r.FrameText.{Texts, size_loop, join_loop, fits, build, mk_df_str}

IsSettled-size_loop :
    (k : ℕ) (names types : Texts) (len : ℕ) → IsSettled (size_loop k names types len)
unfolding size_loop
IsSettled-size_loop zero names types len = tt
IsSettled-size_loop (suc k) (name ∷ names) (none ∷ types) len = tt
IsSettled-size_loop (suc k) (none ∷ names) (some type ∷ types) len =
    IsSettled-if (bytes_eq type (codes "XX")) _ (err bad) (IsSettled-size_loop k names types len) tt
IsSettled-size_loop (suc k) (some name ∷ names) (some type ∷ types) len =
    IsSettled-size_loop k names types _
IsSettled-size_loop (suc k) [] types len = tt
IsSettled-size_loop (suc k) (name ∷ names) [] len = tt

IsSettled-join_loop :
    (k : ℕ) (names : Texts) (first : Bool) (buf : List ℕ) → IsSettled (join_loop k names first buf)
unfolding join_loop
IsSettled-join_loop zero names first buf = tt
IsSettled-join_loop (suc k) (some name ∷ names) first buf = IsSettled-join_loop k names _ _
IsSettled-join_loop (suc k) (none ∷ names) first buf = tt
IsSettled-join_loop (suc k) [] first buf = tt

module _ (os : Os) where
  Settles-size_loop :
      (k : ℕ) (names types : Texts) (len : ℕ)
      → Settles {S = os.State} (lift (size_loop k names types len))
  Settles-size_loop k names types len = Settles-lift _ (IsSettled-size_loop k names types len)

  Settles-join_loop :
      (k : ℕ) (names : Texts) (first : Bool) (buf : List ℕ)
      → Settles {S = os.State} (lift (join_loop k names first buf))
  Settles-join_loop k names first buf = Settles-lift _ (IsSettled-join_loop k names first buf)

  Settles-fits : (len : ℕ) (text : List ℕ) → Settles {S = os.State} (lift (fits len text))
  Settles-fits len text =
      Settles-lift _ (IsSettled-if (ltb (length text) len) (ok text) fault tt tt)

  Settles-build : (names types : Texts) (ncols : ℕ) → Settles (build os names types ncols)
  unfolding build
  Settles-build names types ncols =
      search (settles_rules, Settles-size_loop, Settles-join_loop, Settles-fits) depth 12

  pub Settles-mk_df_str :
      (col_names col_types : Option Texts) (ncols : ℤ)
      → Settles (mk_df_str os col_names col_types ncols)
  unfolding mk_df_str
  Settles-mk_df_str col_names col_types ncols = search (settles_rules, Settles-build) depth 12
