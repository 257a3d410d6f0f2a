-- ===== src/FrameText/Text.antt =====
-- `mk_df_str` of src/mk_df_str.c: the text, and the size of the buffer that it is built in.
use c2r.Common.{
  ℕ, ◌+◌, ◌%◌, ◌^◌, ◌<◌, ◌≤◌, ◌≡◌, refl, ap, sym, ◌∙◌, List, [], ◌∷◌, ◌++◌, some, Bool, true, false,
  pos, length, length-append, codes, bytes_eq, append_assoc, arith, ◌==◌, lt→ltb, ltb-false,
  if◌then◌else◌,
}
use c2r.Os.{Os}
use c2r.Os.Actions.{ok, fault, ◌>>=◌}
use c2r.FrameText.{Texts, size_loop, join_loop, df_start, fits, build, mk_df_str}

-- the columns: a name and a type each
abbrev pub Column : Type 0
Column = List ℕ × List ℕ

abbrev pub names : List Column → Texts
names [] = []
names (c ∷ cols) = some c.0 ∷ names cols

abbrev pub types : List Column → Texts
types [] = []
types (c ∷ cols) = some c.1 ∷ types cols

-- the names with commas between them
abbrev pub comma_list : List Column → List ℕ
comma_list [] = []
comma_list (c ∷ []) = c.0
comma_list (c ∷ d ∷ cols) = c.0 ++ (codes ", " ++ comma_list (d ∷ cols))

abbrev pub df_text : List Column → List ℕ
df_text cols = (df_start ++ comma_list cols) ++ codes ")"

-- what the columns add to the size of the buffer: those of type "XX" nothing
abbrev pub room : List Column → ℕ
room [] = 0
room (c ∷ cols) = (if bytes_eq c.1 (codes "XX") then 0 else length c.0 + 4) + room cols

abbrev pub NoSkipped : List Column → Type 0
NoSkipped [] = Unit
NoSkipped (c ∷ cols) = (bytes_eq c.1 (codes "XX") ≡ false) × NoSkipped cols

size_step :
    (b : Bool) (len k r : ℕ) → (if b then len else len + k) + r ≡ len + ((if b then 0 else k) + r)
size_step true len k r = omega arith
size_step false len k r = omega arith

size_loop-room :
    (cols : List Column) (len : ℕ)
    → size_loop (length cols) (names cols) (types cols) len ≡ ok (len + room cols)
unfolding size_loop
size_loop-room [] len = ap ok (omega arith)
size_loop-room ((name, type) ∷ cols) len =
    size_loop-room cols (if bytes_eq type (codes "XX") then len else len + (length name + 4))
    ∙ ap ok (size_step (bytes_eq type (codes "XX")) len (length name + 4) (room cols))

join_loop-tail :
    (cols : List Column) (c : Column) (buf : List ℕ)
    → join_loop (length cols) (names cols) false (buf ++ c.0) ≡ ok (buf ++ comma_list (c ∷ cols))
unfolding join_loop
join_loop-tail [] c buf = refl
join_loop-tail (d ∷ cols) c buf =
    let start = (buf ++ c.0) ++ codes ", " in
    let more = comma_list (d ∷ cols) in
    ap (join_loop (length cols) (names cols) false)
      (sym (append_assoc (buf ++ c.0) (codes ", ") d.0))
    ∙ join_loop-tail cols d start
    ∙ ap ok
        (append_assoc (buf ++ c.0) (codes ", ") more ∙ append_assoc buf c.0 (codes ", " ++ more))

join_loop-names :
    (c : Column) (cols : List Column)
    → join_loop (length (c ∷ cols)) (names (c ∷ cols)) true df_start
      ≡ ok (df_start ++ comma_list (c ∷ cols))
unfolding join_loop
join_loop-names c cols = join_loop-tail cols c df_start

room-length :
    (c : Column) (cols : List Column)
    → NoSkipped (c ∷ cols)
    → length (comma_list (c ∷ cols)) < room (c ∷ cols)
room-length c [] h = rw (h.0) (omega arith)
room-length c (d ∷ cols) h =
    let rest = room-length d cols h.1 in
    let len : length (comma_list (c ∷ d ∷ cols)) ≡ length c.0 + 2 + length (comma_list (d ∷ cols)) =
      omega (arith, length-append c.0 (codes ", " ++ comma_list (d ∷ cols))) in
    rw (h.0) (omega (arith, len, rest))

length-df_text : (cols : List Column) → length (df_text cols) ≡ 20 + length (comma_list cols)
length-df_text cols = omega (
  arith,
  length-append (df_start ++ comma_list cols) (codes ")"),
  length-append df_start (comma_list cols),
)

module _ (os : Os) where
  -- what comes of a call, by the size of the buffer
  mk_df_str-fits :
      (c : Column) (cols : List Column) (s s' : os.State)
      → length (c ∷ cols) < 2 ^ 31
      → os.malloc (51 + room (c ∷ cols)) s ≡ (true, s')
      → mk_df_str os (some (names (c ∷ cols))) (some (types (c ∷ cols))) (pos (length (c ∷ cols))) s
        ≡ (fits (51 + room (c ∷ cols)) (df_text (c ∷ cols)), s')
  unfolding mk_df_str build ◌>>=◌
  mk_df_str-fits c cols s s' h e =
      let all = c ∷ cols in
      let small : length all % 2 ^ 31 ≡ length all = omega arith in
      let some_column : (length all == 0) ≡ false = ground arith in
      rw some_column
        (rw small (rw (size_loop-room all 51) (rw e (rw (join_loop-names c cols) refl))))

  -- Where no column has the type "XX" and there is memory, `mk_df_str` of one column or more gives
  -- the call of `data.frame` on the columns' names, with commas between them, and the buffer holds
  -- it. There are less than 2^31 columns.
  mk_df_str-text :
      (c : Column) (cols : List Column) (s s' : os.State)
      → NoSkipped (c ∷ cols)
      → length (c ∷ cols) < 2 ^ 31
      → os.malloc (51 + room (c ∷ cols)) s ≡ (true, s')
      → mk_df_str os (some (names (c ∷ cols))) (some (types (c ∷ cols))) (pos (length (c ∷ cols))) s
        ≡ (ok (df_text (c ∷ cols)), s')
  mk_df_str-text c cols s s' none_skipped h e =
      mk_df_str-fits c cols s s' h e
      ∙ (rw
          (lt→ltb (length (df_text (c ∷ cols))) (51 + room (c ∷ cols))
            (omega (arith, length-df_text (c ∷ cols), room-length c cols none_skipped)))
          refl)

  -- The names of columns of type "XX" are printed and have no room in the buffer: where the text of
  -- the names is longer by 31 bytes or more than what the other columns add to the size, the call
  -- writes past the buffer. There is memory, and there are less than 2^31 columns.
  pub mk_df_str-overflow :
      (c : Column) (cols : List Column) (s s' : os.State)
      → 31 + room (c ∷ cols) ≤ length (comma_list (c ∷ cols))
      → length (c ∷ cols) < 2 ^ 31
      → os.malloc (51 + room (c ∷ cols)) s ≡ (true, s')
      → mk_df_str os (some (names (c ∷ cols))) (some (types (c ∷ cols))) (pos (length (c ∷ cols))) s
        ≡ (fault, s')
  mk_df_str-overflow c cols s s' over h e =
      mk_df_str-fits c cols s s' h e
      ∙ (rw
          (ltb-false (length (df_text (c ∷ cols))) (51 + room (c ∷ cols))
            (omega (arith, length-df_text (c ∷ cols))))
          refl)
