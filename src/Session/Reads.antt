-- ===== src/Session/Reads.antt =====
-- What the functions of one value make of an answer: a number, a test, a length and a class.
use c2r.Common.{
  ℕ, ◌+◌, ◌-◌, ◌*◌, ◌%◌, ◌^◌, ◌≤◌, ◌<◌, ◌≡◌, refl, subst, ◌∙◌, List, [], ◌∷◌, ◌++◌, some, Bool,
  true, false, ℤ, pos, is_neg, is_nonpos, length, le32, arith, All, IsNonzero, length-append, codes,
  bytes_eq,
}
use c2r.Os.{Os}
use c2r.Os.Link.{Link, At, Prompt, Runs}
use c2r.Wire.{pack}
use c2r.Wire.Constants.{cmd_eval, dt_sexp, xt_array_bool, xt_array_int, xt_array_str}
use c2r.Wire.DtString.{pack_fields, pack_bound}
use c2r.GetVec.Stored.{Number, f8, i4, elem_number}
use c2r.Client.Exec.{request, reply, IsReply}
use c2r.Exists.{quoted}
use c2r.Exists.Replies.{exists1-exists2}
use c2r.Frame.{call_text}
use c2r.Frame.Replies.{Runs-chk_r_class, n_df-reply}
use c2r.VecLen.Replies.{get_vec_len-checked_vec_len}
use c2r.Flags.{get_bool, set_bool}
use c2r.Flags.Replies.{assignment, bit, set_bool-reply, get_bool-bit}
use c2r.Scalar.Reads.{get_scalar-reply}
use c2r.Scalar.{get_scalar}
use c2r.Exists.{exists1, exists2}
use c2r.Frame.{chk_r_class, n_df}
use c2r.VecLen.{get_vec_len}
use c2r.Query.Replies.{logical}
use c2r.Server.{sexp_hdr, sexp_reply, logical_sexp, int_sexp, text_sexp, class_of}
use c2r.Server.Reads.{sexp_reply-append}

-- An answer that carries a value is one SEXP to `exec_str`.
pub IsReply-sexp :
    (w xt : ℕ) (out : List ℕ)
    → length out < 2 ^ 24 - 8
    → w % 256 ≡ xt
    → let sexp = le32 w ++ out in IsReply (sexp_hdr sexp) (pack (length sexp) dt_sexp) w xt out
IsReply-sexp w xt out h e = record {
  header = record { cmd = omega arith; len = omega arith; msg_id = omega arith; res = omega arith };
  len = omega arith;
  small = omega arith;
  is_sexp = (pack_fields (length (le32 w ++ out)) dt_sexp (omega arith) (omega arith)).0;
  typed = e;
}

-- the word in front of a value
word_type : (len xt : ℕ) → len < 2 ^ 24 → xt < 256 → pack len xt % 256 ≡ xt
word_type len xt h h' = (pack_fields len xt h h').0

pub count_bound : (t : Number) (n len : ℕ) → len ≡ n * (elem_number t).width → n ≤ len
count_bound f8 n len e = omega arith
count_bound i4 n len e = omega arith

class_facts : (t : Number) → All IsNonzero (class_of t) × (length (class_of t) ≡ 7)
class_facts f8 = (omega arith, refl)
class_facts i4 = (omega arith, refl)

module _ {os : Os} {sock : ℤ} (link : Link os sock) where
  pub At-reply :
      {s : os.State} {sent : List ℕ} (w : ℕ) (out left : List ℕ)
      → At link s (sexp_reply (le32 w ++ out) ++ left) sent
      → let sexp = le32 w ++ out in
        At link s (reply (sexp_hdr sexp) (pack (length sexp) dt_sexp) w out left) sent
  At-reply w out left at = record {
    left_lem = at.left_lem ∙ sexp_reply-append (le32 w ++ out) left;
    sent_lem = at.sent_lem;
  }

  -- one number, of a type that `get_F8` or `get_I4` reads
  pub Runs-one :
      {s : os.State} {sent : List ℕ} (xt k : ℕ) (name bytes left : List ℕ)
      → Prompt link
      → is_neg sock ≡ false
      → length name < 2 ^ 30
      → xt < 256
      → length bytes ≡ k
      → 0 < k
      → k < 2 ^ 23
      → At link s (sexp_reply (le32 (pack (length bytes) xt) ++ bytes) ++ left) sent
      → Runs link (get_scalar os xt k sock (some name)) s bytes left (sent ++ request cmd_eval name)
  Runs-one {s} {sent} xt k name bytes left prompt fd hn hx e hk hk' at =
      let w = pack (length bytes) xt in
      let (type, len) = pack_fields (length bytes) xt (omega arith) hx in
      let is = IsReply-sexp w xt bytes (omega arith) type in
      subst
        (λ n.
          Runs link (get_scalar os xt n sock (some name)) s bytes left
            (sent ++ request cmd_eval name))
        e
        (get_scalar-reply link name xt (pack (length (le32 w ++ bytes)) dt_sexp) w
          (sexp_hdr (le32 w ++ bytes)) bytes prompt fd hn is.header is.len (omega arith) is.is_sexp
          (pack_bound (length bytes) xt, type, len) (At-reply w bytes left at))

  -- a boolean that is assigned, and one that is asked for
  pub Runs-set_flag :
      {s : os.State} {sent : List ℕ} (name : List ℕ) (x : Bool) (left : List ℕ)
      → is_neg sock ≡ false
      → length name < 2 ^ 29
      → At link s (sexp_reply (logical_sexp x) ++ left) sent
      → Runs link
          (set_bool os sock (some name) x)
          s
          tt
          left
          (sent ++ request cmd_eval (assignment name x))
  Runs-set_flag name x left fd hn at =
      let w = pack 8 xt_array_bool in
      let out = logical (bit x) 255 255 255 in
      set_bool-reply link name x (sexp_hdr (le32 w ++ out)) (pack 12 dt_sexp) w (w % 256) out fd hn
        (IsReply-sexp w (w % 256) out (omega arith) refl) (At-reply w out left at)

  pub Runs-get_flag :
      {s : os.State} {sent : List ℕ} (name : List ℕ) (x : Bool) (left : List ℕ)
      → is_nonpos sock ≡ false
      → length name < 2 ^ 30
      → At link s (sexp_reply (logical_sexp x) ++ left) sent
      → Runs link (get_bool os sock (some name)) s x left (sent ++ request cmd_eval name)
  Runs-get_flag name x left fd hn at =
      let w = pack 8 xt_array_bool in
      let out = logical (bit x) 255 255 255 in
      get_bool-bit link name x (sexp_hdr (le32 w ++ out)) (pack 12 dt_sexp) w 255 255 255 fd hn
        (IsReply-sexp w xt_array_bool out (omega arith)
          (word_type 8 xt_array_bool (omega arith) (omega arith)))
        (At-reply w out left at)

  pub Runs-exists :
      {s : os.State} {sent : List ℕ} (name : List ℕ) (b : Bool) (left : List ℕ)
      → is_neg sock ≡ false
      → length name < 2 ^ 29
      → At link s (sexp_reply (logical_sexp b) ++ left) sent
      → let sent' = sent ++ request cmd_eval (quoted "exists(\"" name) in
        Runs link (exists1 os sock (some name)) s b left sent'
        × Runs link (exists2 os sock (some name)) s b left sent'
  Runs-exists name true left fd hn at =
      let w = pack 8 xt_array_bool in
      let out = logical 1 255 255 255 in
      exists1-exists2 link name (sexp_hdr (le32 w ++ out)) (pack 12 dt_sexp) w 1 255 255 255 fd hn
        (IsReply-sexp w xt_array_bool out (omega arith)
          (word_type 8 xt_array_bool (omega arith) (omega arith)))
        (At-reply w out left at)
  Runs-exists name false left fd hn at =
      let w = pack 8 xt_array_bool in
      let out = logical 0 255 255 255 in
      exists1-exists2 link name (sexp_hdr (le32 w ++ out)) (pack 12 dt_sexp) w 0 255 255 255 fd hn
        (IsReply-sexp w xt_array_bool out (omega arith)
          (word_type 8 xt_array_bool (omega arith) (omega arith)))
        (At-reply w out left at)

  pub Runs-len :
      {s : os.State} {sent : List ℕ} (name : List ℕ) (n : ℕ) (left : List ℕ)
      → is_neg sock ≡ false
      → length name < 2 ^ 29
      → n < 2 ^ 31
      → At link s (sexp_reply (int_sexp n) ++ left) sent
      → Runs link
          (get_vec_len os sock (some name))
          s
          (pos n)
          left
          (sent ++ request cmd_eval (call_text (codes "length") name))
  Runs-len name n left fd hn h at =
      let w = pack 4 xt_array_int in
      (get_vec_len-checked_vec_len link name (sexp_hdr (le32 w ++ le32 n)) (pack 8 dt_sexp) w n []
        fd hn h
        (IsReply-sexp w xt_array_int (le32 n) (omega arith)
          (word_type 4 xt_array_int (omega arith) (omega arith)))
        (At-reply w (le32 n) left at)).0

  pub Runs-size :
      {s : os.State} {sent : List ℕ} (name : List ℕ) (n : ℕ) (left : List ℕ)
      → is_neg sock ≡ false
      → length name < 1016
      → n < 2 ^ 31
      → At link s (sexp_reply (int_sexp n) ++ left) sent
      → Runs link
          (n_df os sock "length" (some name))
          s
          n
          left
          (sent ++ request cmd_eval (call_text (codes "length") name))
  Runs-size name n left fd hn h at =
      let w = pack 4 xt_array_int in
      n_df-reply link "length" name (sexp_hdr (le32 w ++ le32 n)) (pack 8 dt_sexp) w n [] fd
        (omega arith) h
        (IsReply-sexp w xt_array_int (le32 n) (omega arith)
          (word_type 4 xt_array_int (omega arith) (omega arith)))
        (At-reply w (le32 n) left at)

  pub Runs-class :
      {s : os.State} {sent : List ℕ} (name class : List ℕ) (t : Number) (left : List ℕ)
      → is_nonpos sock ≡ false
      → length name < 1017
      → At link s (sexp_reply (text_sexp (class_of t)) ++ left) sent
      → Runs link
          (chk_r_class os sock (some name) (some class))
          s
          (bytes_eq (class_of t) class)
          left
          (sent ++ request cmd_eval (call_text (codes "class") name))
  Runs-class name class t left fd hn at =
      let found = class_of t in
      let facts = class_facts t in
      let w = pack (length found + 1) xt_array_str in
      let out = found ++ 0 ∷ [] in
      let len : length out ≡ 8 = omega (arith, length-append found (0 ∷ []), facts.1) in
      Runs-chk_r_class link name class (sexp_hdr (le32 w ++ out))
        (pack (length (le32 w ++ out)) dt_sexp) w found [] fd hn facts.0
        (IsReply-sexp w xt_array_str out (omega arith)
          (word_type (length found + 1) xt_array_str (omega (arith, facts.1)) (omega arith)))
        (At-reply w out left at)
