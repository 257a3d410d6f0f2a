-- ===== src/Client/Status.antt =====
-- Every way out of the functions of src/aux_rcli.c: a value, or one of the statuses -1, -2 and -3.
use c2r.Common.{
  ℕ, zero, suc, ◌+◌, ◌-◌, ◌≤◌, ◌<◌, ◌≡◌, refl, List, [], ◌∷◌, ◌++◌, Option, Bool, false, not,
  String, ℤ, pos, is_neg, eq_int, length, arith, ◌==◌, leb, inl, inr,
}
use c2r.Os.{Os, ReadResult, got, failed}
use c2r.Os.Actions.{M, bad, reject, c_bye, continue, ◌>>=◌, ◌>>◌}
use c2r.Os.Clean.{
  IsClean, Clean, Clean-lift, Clean-pure, Clean-non_null, Clean-if, Clean-reject, Clean-c_bye,
  Clean-bind, clean_rules,
}
use c2r.Wire.{memalign, mk_dt_string, mk_hdr, padded}
use c2r.Wire.Padding.{padded-round_up}
use c2r.Client.{
  received, read_some, send_all, alloc, read_loop, fill_buf, get_buf_from_sock, read_hdr,
  read_output, send_request, exec_str,
}

-- `posix_memalign` returns 0 or an error number, which is above 0.
abbrev pub AlignDocumented : Os → Type 0
AlignDocumented os = (n : ℕ) (s : os.State) → is_neg (os.posix_memalign n s).0 ≡ false

module _ {S : Type 0} where
  Clean-mk_hdr :
      (command : Option (List ℕ)) (len : ℤ) (ph : c2r.Wire.Pointer)
      → Clean {S = S} (mk_hdr command len ph)
  unfolding mk_hdr
  Clean-mk_hdr command len ph = search clean_rules depth 12

  Clean-checked :
      (status : ℤ)
      → is_neg status ≡ false
      → Clean {S = S} (c_bye status >> reject (not (eq_int status (pos 0))) bad)
  Clean-checked status h = Clean-bind _ _ (Clean-c_bye status (λ neg. cc)) (λ done. Clean-reject _)

  received-cases :
      {B : Type 0} (r : ReadResult) (f : List ℕ → M S B) (s : S)
      → ((bs : List ℕ) → 0 < length bs → Clean (f bs))
      → IsClean (continue (received r) f s).0
  unfolding received
  received-cases failed f s h = inr (inr refl)
  received-cases (got []) f s h = inr (inl refl)
  received-cases (got (b ∷ bs)) f s h =
      rw (let e : (length (b ∷ bs) == 0) ≡ false = ground arith in e)
        ((h (b ∷ bs) (omega arith)).at s)

module _ (os : Os) where
  Clean-read_some :
      {B : Type 0} (sock : ℤ) (n : ℕ) (f : List ℕ → M os.State B)
      → ((bs : List ℕ) → 0 < length bs → Clean (f bs))
      → Clean (read_some os sock n >>= f)
  unfolding read_some ◌>>=◌
  Clean-read_some sock n f h = record {
    at = λ s. let (r, s') = os.read sock n s in received-cases r f s' h;
  }

  pub Clean-send_all : (sock : ℤ) (bs : List ℕ) → Clean (send_all os sock bs)
  unfolding send_all
  Clean-send_all sock bs = search clean_rules

  pub Clean-alloc : (n : ℕ) → Clean (alloc os n)
  unfolding alloc
  Clean-alloc n = search clean_rules

  -- With fuel for the bytes that are missing the loop is not cut off.
  Clean-read_loop :
      (fuel : ℕ) (sock : ℤ) (num_to_read left total : ℕ) (buf : List ℕ)
      → left ≤ fuel
      → 0 < left
      → num_to_read ≤ total + left
      → Clean (read_loop os fuel sock num_to_read left total buf)
  unfolding read_loop
  Clean-read_loop zero sock num_to_read left total buf h h' e = absurd (omega arith)
  Clean-read_loop (suc fuel) sock num_to_read left total buf h h' e =
      Clean-read_some sock left _ λ bs nz.
        Clean-if (leb num_to_read (total + length bs)) _ _ (λ t. Clean-pure _)
          (λ f.
            Clean-read_loop fuel sock num_to_read (left - length bs) (total + length bs) (buf ++ bs)
              (omega arith) (ground arith) (omega arith))

  Clean-fill_buf : (sock : ℤ) (n : ℕ) → Clean (fill_buf os sock n)
  unfolding fill_buf
  Clean-fill_buf sock n =
      Clean-if (n == 0) _ _ (λ t. Clean-pure _)
        (λ f. Clean-read_loop n sock n n 0 [] (omega arith) (ground arith) (omega arith))

  pub Clean-get_buf :
      (sock : ℤ) (buf : c2r.Wire.Pointer) (n : ℤ) → Clean (get_buf_from_sock os sock buf n)
  unfolding get_buf_from_sock
  Clean-get_buf sock buf n = search (clean_rules, Clean-fill_buf) depth 8

  pub Clean-read_hdr : (sock : ℤ) → Clean (read_hdr os sock)
  unfolding read_hdr
  Clean-read_hdr sock = search (clean_rules, Clean-get_buf)

  pub Clean-send_request :
      (sock : ℤ) (command : String) (param1 : List ℕ) → Clean (send_request os sock command param1)
  unfolding send_request
  Clean-send_request sock command param1 = search (clean_rules, Clean-mk_hdr, Clean-send_all)

  pub Clean-read_output : (sock expected_xt : ℤ) (n : ℕ) → Clean (read_output os sock expected_xt n)
  unfolding read_output
  Clean-read_output sock expected_xt n = search (clean_rules, Clean-alloc, Clean-get_buf) depth 16

  module _ (documented : AlignDocumented os) where
    Clean-memalign : (n : ℕ) → Clean (memalign os n)
    unfolding memalign ◌>>=◌
    Clean-memalign n = record {
      at = λ s. (Clean-checked (os.posix_memalign n s).0 (documented n s)).at _;
    }

    pub Clean-mk_dt_string : (name : Option (List ℕ)) → Clean (mk_dt_string os name)
    unfolding mk_dt_string
    Clean-mk_dt_string name = Clean-bind _ _ (Clean-non_null name) λ text.
        Clean-bind _ _ (Clean-lift _ (rw padded-round_up tt))
          λ len. search (clean_rules, Clean-memalign)

    -- Whatever its arguments and however the calls of the system end, `exec_str` returns, with 0 or
    -- with one of the statuses -1, -2 and -3: neither of its loops is cut off.
    -- `posix_memalign` returns no negative number, as documented.
    pub exec_str-Clean :
        (sock : ℤ) (str : Option (List ℕ)) (want : Bool) (expected_xt : ℤ)
        → Clean (exec_str os sock str want expected_xt)
    unfolding exec_str
    exec_str-Clean sock str want expected_xt =
        search
          (clean_rules, Clean-mk_dt_string, Clean-send_request, Clean-read_hdr, Clean-read_output)
          depth 20
