-- ===== src/SetVec.antt =====
-- src/set_vec.c: a vector of numbers, of booleans or of texts is stored under a name.
pub mod Settles
pub mod Stores
pub mod Examples
pub mod Layout
pub mod Plain
pub mod Rejects
pub mod Texts
use c2r.Common.{
  ℕ, zero, suc, ◌+◌, ◌-◌, ◌*◌, ◌/◌, ◌%◌, ◌^◌, List, [], ◌∷◌, ◌++◌, Option, none, some, not, ◌||◌, ℤ,
  pos, is_neg, int_of, word_of, eq_int, le32, length, take, drop, replicate, codes, bytes_eq,
  c_string, ◌==◌, ltb, leb, if◌then◌else◌,
}
use c2r.Os.{Os}
use c2r.Os.Actions.{
  Outcome, ok, err, fault, M, bad, pure, lift, crash, call, reject, non_null, deref, ◌>>=◌, ◌>>◌,
}
use c2r.Wire.{phdr_bytes, pack, mk_hdr, mk_dt_string, memalign, valid}
use c2r.Wire.Constants.{dt_sexp, xt_array_int, xt_array_double, xt_array_str, xt_array_bool}
use c2r.Client.{send_all, read_hdr}

-- the width of an element, and its type
pub record Elem : Type 0 where
  pub width : ℕ
  pub xt : ℕ

unfoldable pub elem_of : List ℕ → ℕ → Outcome Elem
elem_of qtype in_width =
    if bytes_eq qtype (codes "F8")
    then ok (record { width = 8; xt = xt_array_double })
    else if bytes_eq qtype (codes "I4")
    then ok (record { width = 4; xt = xt_array_int })
    else if bytes_eq qtype (codes "I1")
    then ok (record { width = 1; xt = xt_array_bool })
    else if bytes_eq qtype (codes "SC")
    then (if in_width == 0 then err bad else ok (record { width = in_width; xt = xt_array_str }))
    else err bad

-- The i-th text: the C string `i * width` bytes into the buffer.
abbrev pub text_at : List ℕ → ℕ → ℕ → Option (List ℕ)
text_at buf width i = c_string (drop (i * width % 2 ^ 32) buf)

-- The first loop over the texts: the bytes that they need, in 32 bits.
pub sc_len : ℕ → List ℕ → ℕ → ℕ → ℕ → Outcome ℕ
sc_len zero buf width i cum_len = ok cum_len
sc_len (suc k) buf width i cum_len = elim (text_at buf width i) [
  | none ↦ fault
  | some s ↦
      let rest = sc_len k buf width (i + 1) ((cum_len + length s + 1) % 2 ^ 32) in
      if leb width (length s) then err bad else rest
]

-- up to a multiple of 8
abbrev pub align8 : ℕ → ℕ
align8 cum_len = if (cum_len / 8) * 8 == cum_len then cum_len else (cum_len / 8 + 1) * 8 % 2 ^ 32

-- The second loop: each text is copied behind those in `alt_data`, which is all zeros beyond.
pub sc_pack : ℕ → List ℕ → ℕ → ℕ → ℕ → List ℕ → Outcome (List ℕ)
sc_pack zero buf width cap i alt_data =
    ok (take cap alt_data ++ replicate (cap - length alt_data) b'X')
sc_pack (suc k) buf width cap i alt_data = elim (text_at buf width i) [
  | none ↦ fault
  | some s ↦
      let rest = sc_pack k buf width cap (i + 1) (alt_data ++ (s ++ 0 ∷ [])) in
      if ltb cap (length alt_data + length s) then fault else rest
]

-- the header words of the second parameter
unfoldable pub param2_hdr : ℕ → Elem → ℕ → ℕ → List ℕ
param2_hdr len_param2 e n cum_len =
    le32 (pack len_param2 dt_sexp)
    ++ (le32 (
          pack
            (if e.xt == xt_array_double || e.xt == xt_array_int
              then n * e.width % 2 ^ 32
              else if e.xt == xt_array_str
              then cum_len
              else len_param2)
            e.xt)
        ++ (if e.xt == xt_array_bool then le32 n else []))

abbrev pub len_hdr_param2 : Elem → ℕ
len_hdr_param2 e = if e.xt == xt_array_bool then 12 else 8

-- `n` bytes of a buffer, if it holds them
pub bytes_of : ℕ → List ℕ → Option (List ℕ)
bytes_of n buf = if ltb (length buf) n then none else some (take n buf)

module _ (os : Os) where
  open os use {State, send, malloc}

  -- The bytes that follow the header of the second parameter; those of texts are laid out anew.
  pub pack_texts : List ℕ → ℕ → ℕ → M State (List ℕ)
  pack_texts buf width n = do
    cum_len ← lift (sc_len n buf width 0 0)
    let cap = align8 cum_len
    done ← call (malloc cap)
    if done then lift (sc_pack n buf width cap 0 []) else crash

  -- `(int)num_sent != len_hdr_param2`
  pub send_words : ℤ → List ℕ → M State (Unit {0})
  send_words sock bs = do
    num_sent ← call (send sock bs)
    reject (not (eq_int (int_of (word_of 64 num_sent)) (pos (length bs)))) bad

  -- the three messages and the header of the reply
  pub exchange : ℤ → List ℕ → ℕ → List ℕ → M State (List ℕ) → M State (Unit {0})
  exchange sock param1 len_param2 words body = do
    ph ← mk_hdr (some (codes "CMD_setSEXP")) (int_of (length param1 + len_param2)) valid
    send_all os sock (phdr_bytes ph)
    send_all os sock param1
    send_words sock words
    bytes ← body
    send_all os sock bytes
    ph ← read_hdr os sock
    reject (not (ph.len == 0)) bad

  -- `memalign`, and the stores to `param2`
  pub store_param2 : ℕ → ℕ → M State (Unit {0})
  store_param2 len_param2 len_hdr = do
    memalign os len_param2
    if ltb len_param2 len_hdr then crash else pure tt

  -- numbers and booleans go out from where they are
  pub set_plain : ℤ → List ℕ → Elem → List ℕ → ℕ → M State (Unit {0})
  set_plain sock param1 e buf n = do
    let cum_len = n * e.width % 2 ^ 32
    let len_param2 = (len_hdr_param2 e + cum_len) % 2 ^ 32
    store_param2 len_param2 (len_hdr_param2 e)
    exchange sock param1 len_param2 (param2_hdr len_param2 e n cum_len)
        (deref (bytes_of cum_len buf))

  pub set_texts : ℤ → List ℕ → Elem → List ℕ → ℕ → M State (Unit {0})
  set_texts sock param1 e buf n = do
    alt_data ← pack_texts buf e.width n
    let cum_len = length alt_data
    let len_param2 = (8 + cum_len) % 2 ^ 32
    store_param2 len_param2 8
    exchange sock param1 len_param2 (param2_hdr len_param2 e n cum_len) (pure alt_data)

  -- `*p == '\0'` is true of the empty text alone
  pub non_empty : Option (List ℕ) → M State (List ℕ)
  non_empty p = do s ← non_null p; reject (length s == 0) bad; pure s

  pub set_vec : ℤ → Option (List ℕ) → Option (List ℕ) → Option (List ℕ) → ℕ → ℕ → M State (Unit {0})
  set_vec sock name qtype buf n in_width = do
    reject (is_neg sock) bad
    name ← non_empty name
    qtype ← non_empty qtype
    buf ← non_null buf
    reject (n == 0) bad
    e ← lift (elem_of qtype in_width)
    param1 ← mk_dt_string os (some name)
    if bytes_eq qtype (codes "SC")
        then set_texts sock param1 e buf n
        else set_plain sock param1 e buf n
