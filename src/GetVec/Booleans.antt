-- ===== src/GetVec/Booleans.antt =====
-- `get_vec` of src/get_vec.c on the booleans that src/set_vec.c stores.
use c2r.Common.{
  ℕ, ◌+◌, ◌-◌, ◌^◌, ◌<◌, ◌≡◌, refl, ap, ◌∙◌, List, ◌++◌, some, true, false, not, ℤ, is_neg, length,
  codes, arith, le32, append_assoc, int_of, sub_nat, eq_int,
}
use c2r.Os.{Os}
use c2r.Os.Actions.{ok, fault, bad, ◌>>=◌, try}
use c2r.Os.Link.{Link, At, Prompt}
use c2r.Os.Fails.{Fails, Fails-bind, Fails-pass, Fails-reject}
use c2r.Wire.{Phdr, phdr_bytes, pack, command_code}
use c2r.Wire.Constants.{cmd_eval, dt_sexp, xt_array_bool}
use c2r.Wire.Header.{IsPhdr}
use c2r.Wire.DtString.{Runs-mk_dt_string, pack_fields, pack_bound}
use c2r.Client.Transfer.{Runs-read_hdr}
use c2r.Client.Exec.{request, Runs-send_request}
use c2r.Scalar.Reads.{Runs-read_types}
use c2r.SetVec.{Elem, param2_hdr}
use c2r.GetVec.{readable_of, request_vec, get_vec}

abbrev pub booleans : Elem
booleans = record { width = 1; xt = xt_array_bool }

-- the SEXP in the request that stores booleans
abbrev pub stored_booleans : ℕ → List ℕ → List ℕ
stored_booleans n bytes = param2_hdr (12 + length bytes) booleans n (length bytes) ++ bytes

readable_i1 : readable_of (codes "I1") ≡ ok booleans
unfolding readable_of
readable_i1 = refl

param2_hdr-booleans :
    (n len : ℕ)
    → param2_hdr (12 + len) booleans n len
      ≡ le32 (pack (12 + len) dt_sexp) ++ (le32 (pack (12 + len) xt_array_bool) ++ le32 n)
unfolding param2_hdr
param2_hdr-booleans n len = refl

too_long :
    (len n : ℕ)
    → len ≡ 12 + n
    → n < 2 ^ 24 - 12
    → not (eq_int (sub_nat (int_of len) 8) (int_of (12 + n))) ≡ true
too_long len n e h = ground arith

module _ {os : Os} {sock : ℤ} (link : Link os sock) where
  Fails-request_vec :
      {s : os.State} {sent : List ℕ} (left name bytes : List ℕ) (n : ℕ) (ph : Phdr)
      → Prompt link
      → is_neg sock ≡ false
      → length name < 2 ^ 30
      → length bytes < 2 ^ 24 - 12
      → IsPhdr ph
      → ph.len ≡ 12 + length bytes
      → At link s (phdr_bytes ph ++ (stored_booleans n bytes ++ left)) sent
      → Fails link
          (request_vec os sock (some name) (some (codes "I1")))
          s
          bad
          (le32 n ++ (bytes ++ left))
          (sent ++ request cmd_eval name)
  unfolding request_vec command_code
  Fails-request_vec left name bytes n ph prompt fd hn h is len at =
      let l = length bytes in
      let dt = pack (12 + l) dt_sexp in
      let w = pack (12 + l) xt_array_bool in
      let f = pack_fields (12 + l) xt_array_bool (omega arith) (omega arith) in
      let front = le32 dt ++ le32 w in
      let order : stored_booleans n bytes ++ left ≡ front ++ (le32 n ++ (bytes ++ left)) =
        ap (λ x. (x ++ bytes) ++ left) (param2_hdr-booleans n l)
        ∙ append_assoc (front ++ le32 n) bytes left in
      let at0 : At link _ (phdr_bytes ph ++ (front ++ (le32 n ++ (bytes ++ left)))) _ = record {
        left_lem = at.left_lem ∙ ap (λ x. phdr_bytes ph ++ x) order;
        sent_lem = at.sent_lem;
      } in
      Fails-bind link _ (Runs-mk_dt_string link name (omega arith) at0) λ s1 at1.
        Fails-pass link (codes "I1") _ (
          rw readable_i1 (
            Fails-pass link booleans _ (
              Fails-bind link _ (Runs-send_request link "CMD_eval" name cmd_eval refl hn at1)
                λ s2 at2. Fails-bind link _ (Runs-read_hdr link ph fd is at2) λ s3 at3.
                  Fails-bind link _
                    (Runs-read_types link dt w xt_array_bool (12 + l) prompt
                      (pack_fields (12 + l) dt_sexp (omega arith) (omega arith)).0
                      (pack_bound (12 + l) xt_array_bool, f.0, f.1) at3)
                    λ s4 at4. Fails-reject link bad _ (too_long ph.len l len h) at4)))

  -- The two files do not agree on booleans: over a connection that cuts no message, `get_vec` of a
  -- reply that carries the SEXP with which `set_vec` stores booleans finds a length that is too
  -- large by 8, as it counts the two words in front of the count, and ends in the undefined
  -- behaviour of an early error. The booleans have less than 2^24 - 12 bytes. The name has less
  -- than 2^30 bytes, and the socket is not negative.
  pub get_vec-stored_booleans :
      {s : os.State} {sent : List ℕ} (left name bytes : List ℕ) (n : ℕ) (ph : Phdr)
      → Prompt link
      → is_neg sock ≡ false
      → length name < 2 ^ 30
      → length bytes < 2 ^ 24 - 12
      → IsPhdr ph
      → ph.len ≡ 12 + length bytes
      → At link s (phdr_bytes ph ++ (stored_booleans n bytes ++ left)) sent
      → (get_vec os sock (some name) (some (codes "I1")) s).0 ≡ fault
  unfolding get_vec try ◌>>=◌
  get_vec-stored_booleans left name bytes n ph prompt fd hn h is len at =
      rw (Fails-request_vec left name bytes n ph prompt fd hn h is len at).fails refl
