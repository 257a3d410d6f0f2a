-- ===== src/FrameText/Examples.antt =====
-- The text of a data frame, and a buffer that is too small, at concrete values.
use c2r.Common.{◌≡◌, refl, [], ◌∷◌, some, pos, codes, replicate, arith}
use c2r.Os.Actions.{fault}
use c2r.Os.Script.{peer, script}
use c2r.FrameText.{mk_df_str}
use c2r.FrameText.Text.{Column, names, types, mk_df_str-overflow}

abbrev age : Column
age = (codes "age", codes "I4")

abbrev city : Column
city = (codes "city", codes "SC")

-- a column that is left out of the size, with 31 letters
abbrev left_out : Column
left_out = (replicate 31 b'x', codes "XX")

mk_df_str-overflow_example :
    mk_df_str script
      (some (names (left_out ∷ [])))
      (some (types (left_out ∷ [])))
      (pos 1)
      (peer [] 0)
    ≡ (fault, peer [] 0)
mk_df_str-overflow_example =
    mk_df_str-overflow script left_out [] (peer [] 0) (peer [] 0) (omega arith) (omega arith) refl
