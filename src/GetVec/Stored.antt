-- ===== src/GetVec/Stored.antt =====
-- What `set_vec` stores, `get_vec` reads: the two files agree on the form of a vector of numbers.
use c2r.Common.{
  ℕ, ◌+◌, ◌-◌, ◌*◌, ◌%◌, ◌^◌, ◌≤◌, ◌<◌, ◌≡◌, ◌≢◌, refl, sym, ap, List, ◌++◌, some, false, ℤ, pos,
  is_neg, length, take, length-take, codes, bytes_eq, arith, le32,
}
use c2r.Os.{Os}
use c2r.Os.Actions.{ok, ◌>>=◌}
use c2r.Os.Link.{Link, At, Prompt, Runs, Runs-bind}
use c2r.Wire.{Phdr, phdr_bytes, pack}
use c2r.Wire.Constants.{cmd_eval, dt_sexp, xt_array_int, xt_array_double, xt_array_bool}
use c2r.Wire.Header.{IsPhdr}
use c2r.Wire.DtString.{length-param, pack_fields, pack_bound}
use c2r.Client.Exec.{request}
use c2r.Scalar.Reads.{IsTyped}
use c2r.SetVec.{Elem, elem_of, param2_hdr, set_vec}
use c2r.SetVec.Plain.{set_request, set_vec-set_request}
use c2r.GetVec.{readable_of, get_vec}
use c2r.GetVec.Reads.{get_vec-numbers}

-- the two types of numbers, and their names
pub data Number : Type 0 where
  f8 i4 : Number

abbrev pub elem_number : Number → Elem
elem_number f8 = record { width = 8; xt = xt_array_double }
elem_number i4 = record { width = 4; xt = xt_array_int }

abbrev pub name_number : Number → List ℕ
name_number f8 = codes "F8"
name_number i4 = codes "I4"

-- A vector of numbers as a SEXP: the word with its type and its length, and its bytes.
abbrev pub sexp_of : Number → List ℕ → List ℕ
sexp_of t bytes = le32 (pack (length bytes) (elem_number t).xt) ++ bytes

-- a vector under its name
pub record Held : Type 0 where
  pub name : List ℕ
  pub type : Number
  pub n : ℕ
  pub bytes : List ℕ

pub record IsHeld (h : Held) : Type 0 where
  pub some_elements : 0 < h.n
  pub size : length h.bytes ≡ h.n * (elem_number h.type).width
  pub small : length h.bytes < 2 ^ 24 - 8

abbrev pub value_of : Held → List ℕ
value_of h = sexp_of h.type h.bytes

pub stored_elem :
    (t : Number) (in_width : ℕ) → elem_of (name_number t) in_width ≡ ok (elem_number t)
unfolding elem_of
stored_elem f8 in_width = refl
stored_elem i4 in_width = refl

read_elem : (t : Number) → readable_of (name_number t) ≡ ok (elem_number t)
unfolding readable_of
read_elem f8 = refl
read_elem i4 = refl

param2_hdr-words :
    (t : Number) (n len : ℕ)
    → n * (elem_number t).width ≡ len
    → len < 2 ^ 24 - 8
    → param2_hdr (8 + len) (elem_number t) n len
      ≡ le32 (pack (8 + len) dt_sexp) ++ le32 (pack len (elem_number t).xt)
unfolding param2_hdr
param2_hdr-words f8 n len e h = let m : n * 8 % 2 ^ 32 ≡ len = omega arith in rw m refl
param2_hdr-words i4 n len e h = let m : n * 4 % 2 ^ 32 ≡ len = omega arith in rw m refl

-- The second parameter of a request is a word and the SEXP.
pub param2_hdr-sexp_of :
    (t : Number) (n : ℕ) (bytes : List ℕ)
    → length bytes ≡ n * (elem_number t).width
    → length bytes < 2 ^ 24 - 8
    → param2_hdr (8 + length bytes) (elem_number t) n (length bytes) ++ bytes
      ≡ le32 (pack (8 + length bytes) dt_sexp) ++ sexp_of t bytes
param2_hdr-sexp_of t n bytes e h =
    ap (λ x. x ++ bytes) (param2_hdr-words t n (length bytes) (sym e) h)

IsTyped-number :
    (t : Number) (len : ℕ)
    → len < 2 ^ 24
    → IsTyped (pack len (elem_number t).xt) (elem_number t).xt len
IsTyped-number f8 len h =
    let f = pack_fields len xt_array_double h (omega arith) in
    (pack_bound len xt_array_double, f.0, f.1)
IsTyped-number i4 len h =
    let f = pack_fields len xt_array_int h (omega arith) in (pack_bound len xt_array_int, f.0, f.1)

pub number_facts :
    (t : Number)
    → (bytes_eq (name_number t) (codes "SC") ≡ false)
      × (0 < length (name_number t))
      × ((elem_number t).xt ≢ xt_array_bool)
      × (0 < (elem_number t).width)
      × ((elem_number t).width ≤ 8)
number_facts f8 = (refl, omega arith, omega arith, omega arith, omega arith)
number_facts i4 = (refl, omega arith, omega arith, omega arith, omega arith)

module _ {os : Os} {sock : ℤ} (link : Link os sock) where
  -- what `get_vec` makes of a reply that carries the SEXP of a vector
  pub Runs-get_stored :
      {s : os.State} {left sent : List ℕ} (t : Number) (name bytes : List ℕ) (n k : ℕ) (ph : Phdr)
      → Prompt link
      → is_neg sock ≡ false
      → length name < 2 ^ 30
      → 0 < n
      → length bytes ≡ n * (elem_number t).width
      → length bytes < 2 ^ 24 - 8
      → IsPhdr ph
      → ph.len ≡ 8 + length bytes
      → k < 2 ^ 24
      → At link s (phdr_bytes ph ++ (le32 (pack k dt_sexp) ++ (sexp_of t bytes ++ left))) sent
      → Runs link
          (get_vec os sock (some name) (some (name_number t)))
          s
          (record { status = pos 0; bytes = some bytes; n = pos n })
          left
          (sent ++ request cmd_eval name)
  Runs-get_stored t name bytes n k ph prompt fd hn h0 e h is len hk =
      let facts = number_facts t in
      let l = length bytes in
      get_vec-numbers link name (name_number t) (elem_number t) (pack k dt_sexp)
        (pack l (elem_number t).xt) ph n bytes prompt fd (read_elem t) facts.2 hn is len
        (pack_fields k dt_sexp hk (omega arith)).0 (IsTyped-number t l (omega arith)) e h0 facts.3

  -- Over a connection that cuts no message, `set_vec` of n > 0 numbers followed by `get_vec` of the
  -- same name and type returns the bytes that were stored and n, where the server acknowledges the
  -- first with a header of length 0 and answers the second with the SEXP of the first request, behind
  -- a word with the type DT_SEXP and a length. The vector has less than 2^24 - 8 bytes, all in the caller's buffer, and the name is not empty. The
  -- name has less than 2^28 bytes, and the socket is not negative.
  set_vec-get_vec :
      {s : os.State} {left sent : List ℕ} (t : Number) (name buf : List ℕ) (n in_width k : ℕ)
      (ack ph : Phdr)
      → Prompt link
      → is_neg sock ≡ false
      → 0 < length name
      → length name < 2 ^ 28
      → 0 < n
      → n * (elem_number t).width < 2 ^ 24 - 8
      → n * (elem_number t).width ≤ length buf
      → IsPhdr ack
      → ack.len ≡ 0
      → IsPhdr ph
      → ph.len ≡ 8 + n * (elem_number t).width
      → k < 2 ^ 24
      → At link s
          (phdr_bytes ack
            ++ (phdr_bytes ph
                ++ (le32 (pack k dt_sexp)
                    ++ (sexp_of t (take (n * (elem_number t).width) buf) ++ left))))
          sent
      → Runs link
          (set_vec os sock (some name) (some (name_number t)) (some buf) n in_width >>= λ done.
            get_vec os sock (some name) (some (name_number t)))
          s
          (record {
            status = pos 0;
            bytes = some (take (n * (elem_number t).width) buf);
            n = pos n;
          })
          left
          ((sent ++ set_request name (elem_number t) n (take (n * (elem_number t).width) buf))
            ++ request cmd_eval name)
  set_vec-get_vec t name buf n in_width k ack ph prompt fd hn hl h0 h hb is_ack z is len hk at =
      let facts = number_facts t in
      let m = n * (elem_number t).width in
      let all : length (take m buf) ≡ m = omega (arith, length-take m buf) in
      Runs-bind link _
        (set_vec-set_request link name (name_number t) buf (elem_number t) n in_width ack fd
          (stored_elem t in_width) facts.0 hn facts.1 h0 (omega (arith, length-param name)) hb
          is_ack z at)
        λ s1 at1.
          Runs-get_stored t name (take m buf) n k ph prompt fd (omega arith) h0 all (omega arith) is
            (omega arith) hk at1
