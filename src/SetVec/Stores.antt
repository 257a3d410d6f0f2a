-- ===== src/SetVec/Stores.antt =====
-- The bytes that `set_vec` of src/set_vec.c sends, word by word.
use c2r.Common.{
  ℕ, ◌+◌, ◌-◌, ◌*◌, ◌%◌, ◌^◌, ◌<◌, ◌≤◌, ◌≡◌, refl, sym, ap, subst, ◌∙◌, List, ◌++◌, [], some, false,
  ℤ, is_neg, length, take, codes, bytes_eq, le32, arith, length-take,
}
use c2r.Os.{Os}
use c2r.Os.Actions.{ok}
use c2r.Os.Link.{Link, At, Runs}
use c2r.Wire.{Phdr, phdr_bytes, pack}
use c2r.Wire.Constants.{dt_sexp, xt_array_int, xt_array_double, xt_array_str, xt_array_bool}
use c2r.Wire.Header.{IsPhdr}
use c2r.Wire.DtString.{param, length-param}
use c2r.SetVec.{Elem, elem_of, param2_hdr, len_hdr_param2, set_vec, align8}
use c2r.SetVec.Plain.{set_request, payload, length-payload, set_vec-set_request}
use c2r.SetVec.Layout.{Holds, Fits, join, layout, length-layout, align8_bounds}
use c2r.SetVec.Texts.{set_vec-layout}

-- A message of CMD_setSEXP, 0x20: its header has the length of what follows, which is the name and a
-- SEXP of some words and data.
abbrev pub store_body : List ℕ → List ℕ → List ℕ → List ℕ
store_body name words bytes = param name ++ (words ++ bytes)

abbrev pub store_message : List ℕ → List ℕ → List ℕ → List ℕ
store_message name words bytes =
    phdr_bytes
      (record { cmd = 0x20; len = length (store_body name words bytes); msg_id = 0; res = 0 })
    ++ store_body name words bytes

-- DT_SEXP, 10, and a type of Rsrv.h, each below the length that the code gives it: the first word
-- counts all words, itself included, and of a vector of booleans so does the second.
abbrev pub two_words : ℕ → ℕ → List ℕ
two_words xt len = le32 (10 + 256 * (8 + len)) ++ (le32 (xt + 256 * len) ++ [])

abbrev pub three_words : ℕ → ℕ → List ℕ
three_words n len = le32 (10 + 256 * (12 + len)) ++ (le32 (36 + 256 * (12 + len)) ++ le32 n)

pub data PlainType : Type 0 where
  plain_f8 plain_i4 plain_i1 : PlainType

abbrev pub type_name : PlainType → List ℕ
type_name plain_f8 = codes "F8"
type_name plain_i4 = codes "I4"
type_name plain_i1 = codes "I1"

abbrev pub size_of : PlainType → ℕ
size_of plain_f8 = 8
size_of plain_i4 = 4
size_of plain_i1 = 1

abbrev pub words_of : PlainType → ℕ → ℕ → List ℕ
words_of plain_f8 n len = two_words 33 len
words_of plain_i4 n len = two_words 32 len
words_of plain_i1 n len = three_words n len

abbrev elem : PlainType → Elem
elem plain_f8 = record { width = 8; xt = xt_array_double }
elem plain_i4 = record { width = 4; xt = xt_array_int }
elem plain_i1 = record { width = 1; xt = xt_array_bool }

elem_of-elem : (t : PlainType) (in_width : ℕ) → elem_of (type_name t) in_width ≡ ok (elem t)
unfolding elem_of
elem_of-elem plain_f8 in_width = refl
elem_of-elem plain_i4 in_width = refl
elem_of-elem plain_i1 in_width = refl

not_sc : (t : PlainType) → bytes_eq (type_name t) (codes "SC") ≡ false
not_sc plain_f8 = refl
not_sc plain_i4 = refl
not_sc plain_i1 = refl

named : (t : PlainType) → 0 < length (type_name t)
named plain_f8 = omega arith
named plain_i4 = omega arith
named plain_i1 = omega arith

width_lem : (t : PlainType) → (elem t).width ≡ size_of t
width_lem plain_f8 = refl
width_lem plain_i4 = refl
width_lem plain_i1 = refl

-- a word below 2^24, whole
pack-small : (len xt : ℕ) → len < 2 ^ 24 → xt < 256 → pack len xt ≡ xt + 256 * len
unfolding pack
pack-small len xt h h' = omega arith

words_lem :
    (t : PlainType) (n len : ℕ)
    → len ≡ n * size_of t
    → len < 2 ^ 24 - 12
    → param2_hdr (len_hdr_param2 (elem t) + len) (elem t) n len ≡ words_of t n len
unfolding param2_hdr
words_lem plain_f8 n len e h =
    let all : n * 8 % 2 ^ 32 ≡ len = omega arith in
    rw
      (
        all,
        pack-small (8 + len) dt_sexp (omega arith) (omega arith),
        pack-small len 33 (omega arith) (omega arith),
      )
      refl
words_lem plain_i4 n len e h =
    let all : n * 4 % 2 ^ 32 ≡ len = omega arith in
    rw
      (
        all,
        pack-small (8 + len) dt_sexp (omega arith) (omega arith),
        pack-small len 32 (omega arith) (omega arith),
      )
      refl
words_lem plain_i1 n len e h =
    rw
      (
        pack-small (12 + len) dt_sexp (omega arith) (omega arith),
        pack-small (12 + len) 36 (omega arith) (omega arith),
      )
      refl

texts_words :
    (e : Elem) (n len : ℕ)
    → e.xt ≡ xt_array_str
    → len < 2 ^ 24 - 12
    → param2_hdr (8 + len) e n len ≡ two_words 34 len
unfolding param2_hdr
texts_words e n len is h = rw is (
    rw
      (
        pack-small (8 + len) dt_sexp (omega arith) (omega arith),
        pack-small len 34 (omega arith) (omega arith),
      )
      refl)

-- The request of `set_vec` is such a message.
set_request-message :
    (name : List ℕ) (e : Elem) (n : ℕ) (bytes words : List ℕ)
    → param2_hdr (len_hdr_param2 e + length bytes) e n (length bytes) ≡ words
    → set_request name e n bytes ≡ store_message name words bytes
set_request-message name e n bytes words same =
    ap
      (λ k.
        phdr_bytes (record { cmd = 0x20; len = k; msg_id = 0; res = 0 }) ++ payload name e n bytes)
      (sym (length-payload name e n bytes))
    ∙ ap (λ ws. store_message name ws bytes) same

module _ {os : Os} {sock : ℤ} (link : Link os sock) where
  -- Over a working connection `set_vec` of n > 0 doubles, ints or booleans, which the caller's buffer
  -- holds, returns 0 and sends one message: a header of CMD_setSEXP whose length is that of all that
  -- follows, the name, the words of `words_of`, and the bytes of the vector. The words are the type
  -- DT_SEXP and the type of the vector, in the low bytes, and the lengths above them as the code counts
  -- them: of the SEXP with all its words, 4 more than follow the first word; and of the vector, or, for
  -- booleans, of the SEXP again, with the count behind it. The name is not empty and has less than 2^24 - 8
  -- bytes, the vector and 12 bytes of words less than 2^24, the reply is a header of length 0, which is
  -- read and nothing else, and the socket is not negative.
  pub set_vec-message :
      {s : os.State} {left sent : List ℕ} (t : PlainType) (name buf : List ℕ) (n in_width : ℕ)
      (ph : Phdr)
      → is_neg sock ≡ false
      → 0 < length name
      → length name < 2 ^ 24 - 8
      → 0 < n
      → n * size_of t < 2 ^ 24 - 12
      → n * size_of t ≤ length buf
      → IsPhdr ph
      → ph.len ≡ 0
      → At link s (phdr_bytes ph ++ left) sent
      → Runs link
          (set_vec os sock (some name) (some (type_name t)) (some buf) n in_width)
          s
          tt
          left
          (sent ++ store_message name (words_of t n (n * size_of t)) (take (n * size_of t) buf))
  set_vec-message {s} {left} {sent} t name buf n in_width ph fd hn short h0 small room is z at =
      let w = width_lem t in
      let len : length (take (n * size_of t) buf) ≡ n * size_of t =
        omega (arith, length-take (n * size_of t) buf) in
      let same =
        set_request-message name (elem t) n (take (n * size_of t) buf)
          (words_of t n (n * size_of t)) (rw len (words_lem t n (n * size_of t) refl small)) in
      subst
        (λ x.
          Runs link (set_vec os sock (some name) (some (type_name t)) (some buf) n in_width) s tt
            left (sent ++ x))
        (ap (λ k. set_request name (elem t) n (take (n * k) buf)) w ∙ same)
        (set_vec-set_request link name (type_name t) buf (elem t) n in_width ph fd
          (elem_of-elem t in_width) (not_sc t) hn (named t) h0
          (rw w (omega (arith, length-param name))) (rw w room) is z at)

  -- Over a working connection `set_vec` of n > 0 texts, which stand in slots of `in_width` bytes of the
  -- caller's buffer, each with its NUL inside its slot, returns 0 and sends one message: a header of
  -- CMD_setSEXP whose length is that of all that follows, the name, DT_SEXP and XT_ARRAY_STR with the
  -- length of the SEXP, both words counted, and that of the data, and the texts, each with its NUL, and
  -- behind them the letter X up to a multiple of 8 bytes. The name is not empty and has less than 2^24 - 8
  -- bytes, the texts with their NULs and 20 bytes less than 2^24, the reply is a header of length 0,
  -- which is read and nothing else, the width is above 0, and the socket is not negative.
  pub set_vec-texts_message :
      {s : os.State} {left sent : List ℕ} (name buf : List ℕ) (in_width : ℕ) (texts : List (List ℕ))
      (ph : Phdr)
      → is_neg sock ≡ false
      → Holds buf in_width 0 texts
      → Fits in_width texts
      → 0 < length name
      → length name < 2 ^ 24 - 8
      → 0 < length texts
      → 0 < in_width
      → length (join texts) < 2 ^ 24 - 20
      → IsPhdr ph
      → ph.len ≡ 0
      → At link s (phdr_bytes ph ++ left) sent
      → Runs link
          (set_vec os sock (some name) (some (codes "SC")) (some buf) (length texts) in_width)
          s
          tt
          left
          (sent ++ store_message name (two_words 34 (length (layout texts))) (layout texts))
  set_vec-texts_message {s} {left} {sent} name buf in_width texts ph fd h f hn short ht hw l is z
        at =
      let e : Elem = record { width = in_width; xt = xt_array_str } in
      let len : length (layout texts) ≡ align8 (length (join texts)) =
        length-layout texts (omega arith) in
      let small : length (layout texts) < 2 ^ 24 - 12 =
        omega (arith, len, align8_bounds (length (join texts)) (omega arith)) in
      subst
        (λ x.
          Runs link
            (set_vec os sock (some name) (some (codes "SC")) (some buf) (length texts) in_width) s
            tt left (sent ++ x))
        (set_request-message name e (length texts) (layout texts)
          (two_words 34 (length (layout texts)))
          (texts_words e (length texts) (length (layout texts)) refl small))
        (set_vec-layout link name buf in_width texts ph fd h f hn ht hw
          (omega (arith, length-param name)) is z at)
