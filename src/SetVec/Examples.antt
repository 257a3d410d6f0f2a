-- ===== src/SetVec/Examples.antt =====
-- Vectors of integers and of texts that are stored, at concrete values.
use c2r.Common.{
  ℕ, ◌%◌, ◌≡◌, refl, List, [], ◌∷◌, ◌++◌, some, pos, codes, length, take, c_string-append, arith,
}
use c2r.Os.Actions.{ok, err, bad}
use c2r.Os.Script.{peer, script, script_link}
use c2r.Os.Link.{Runs}
use c2r.Wire.{Phdr, phdr_bytes}
use c2r.Wire.Constants.{xt_array_int}
use c2r.SetVec.{sc_len, sc_pack, set_vec, text_at, align8, elem_of}
use c2r.SetVec.Layout.{Fits, layout, strings, strings-sc_pack}
use c2r.SetVec.Stores.{
  store_message, words_of, two_words, plain_i4, set_vec-message, set_vec-texts_message,
}

abbrev ph : Phdr
ph = record { cmd = 0x10001; len = 0; msg_id = 0; res = 0 }

abbrev numbers : List ℕ
numbers = 1 ∷ 0 ∷ 0 ∷ 0 ∷ 2 ∷ 0 ∷ 0 ∷ 0 ∷ 77 ∷ []

elem_of_i4 : elem_of (codes "I4") 0 ≡ ok (record { width = 4; xt = xt_array_int })
unfolding elem_of
elem_of_i4 = refl

-- two slots of 4 bytes
abbrev slots : List ℕ
slots = codes "ab" ++ 0 ∷ 9 ∷ codes "c" ++ 0 ∷ 0 ∷ 0 ∷ []

abbrev texts : List (List ℕ)
texts = codes "ab" ∷ codes "c" ∷ []

text_0 : text_at slots 4 0 ≡ some (codes "ab")
text_0 =
    c_string-append (codes "ab") (9 ∷ codes "c" ++ 0 ∷ 0 ∷ 0 ∷ []) (omega arith, (omega arith, tt))

text_1 : text_at slots 4 1 ≡ some (codes "c")
text_1 = c_string-append (codes "c") (0 ∷ 0 ∷ []) (omega arith, tt)

set_vec-message_example :
    Runs
      (script_link (pos 3))
      (set_vec script (pos 3) (some (codes "x")) (some (codes "I4")) (some numbers) 2 0)
      (peer (phdr_bytes ph ++ 99 ∷ []) 4)
      tt
      (99 ∷ [])
      ([] ++ store_message (codes "x") (words_of plain_i4 2 8) (take 8 numbers))
set_vec-message_example =
    set_vec-message (script_link (pos 3)) plain_i4 (codes "x") numbers 2 0 ph refl (omega arith)
      (omega arith) (omega arith) (omega arith) (omega arith)
      (record { cmd = omega arith; len = omega arith; msg_id = omega arith; res = omega arith })
      refl (record { left_lem = refl; sent_lem = refl })

strings-sc_pack_example :
    (cum_len : ℕ) × (alt_data : List ℕ) × (sc_len 2 slots 4 0 0 ≡ ok cum_len)
    × (sc_pack 2 slots 4 (align8 cum_len) 0 [] ≡ ok alt_data)
    × (length alt_data ≡ align8 cum_len)
    × (length alt_data % 8 ≡ 0)
    × (strings [] alt_data ≡ texts)
strings-sc_pack_example =
    strings-sc_pack slots 4 texts (text_0, (text_1, tt)) (omega arith, (omega arith, tt))
      (omega arith)

set_vec-texts_message_example :
    Runs
      (script_link (pos 3))
      (set_vec script (pos 3) (some (codes "x")) (some (codes "SC")) (some slots) 2 4)
      (peer (phdr_bytes ph ++ 99 ∷ []) 4)
      tt
      (99 ∷ [])
      ([] ++ store_message (codes "x") (two_words 34 8) (layout texts))
set_vec-texts_message_example =
    set_vec-texts_message (script_link (pos 3)) (codes "x") slots 4 texts ph refl
      (text_0, (text_1, tt)) (omega arith, (omega arith, tt)) (omega arith) (omega arith)
      (omega arith) (omega arith) (omega arith)
      (record { cmd = omega arith; len = omega arith; msg_id = omega arith; res = omega arith })
      refl (record { left_lem = refl; sent_lem = refl })

no_width : elem_of (codes "SC") 0 ≡ err bad
unfolding elem_of
no_width = refl

-- The same buffer as slots of 2 bytes: the first text does not end in its slot.
abbrev narrow : List (List ℕ)
narrow = codes "ab" ∷ [] ∷ []

narrow_0 : text_at slots 2 0 ≡ some (codes "ab")
narrow_0 =
    c_string-append (codes "ab") (9 ∷ codes "c" ++ 0 ∷ 0 ∷ 0 ∷ []) (omega arith, (omega arith, tt))

narrow_1 : text_at slots 2 1 ≡ some []
narrow_1 = c_string-append [] (9 ∷ codes "c" ++ 0 ∷ 0 ∷ 0 ∷ []) tt

too_narrow : Fits 2 narrow → ⊥
too_narrow h = absurd (omega (arith, h.0))
