-- ===== src/SetVec/Texts.antt =====
-- `set_vec` of src/set_vec.c for texts over a connection.
use c2r.Common.{
  ℕ, ◌+◌, ◌%◌, ◌^◌, ◌<◌, ◌≡◌, List, ◌++◌, some, false, ℤ, is_neg, length, codes, arith,
}
use c2r.Os.{Os}
use c2r.Os.Actions.{pure}
use c2r.Os.Link.{Link, At, Runs, Runs-bind, Runs-pure, Runs-pass}
use c2r.Wire.{Phdr, phdr_bytes}
use c2r.Client.Transfer.{Runs-malloc}
use c2r.Wire.Constants.{xt_array_str}
use c2r.Wire.Header.{IsPhdr}
use c2r.Wire.DtString.{param, length-param}
use c2r.SetVec.{Elem, elem_of, align8, pack_texts, set_texts, set_vec, param2_hdr}
use c2r.SetVec.Plain.{set_request, Runs-exchange, Runs-store_param2, Runs-front, length-param2_hdr}
use c2r.SetVec.Layout.{
  Holds, Fits, join, layout, length-layout, align8_bounds, sc_len-zero, sc_pack-layout,
}

module _ {os : Os} {sock : ℤ} (link : Link os sock) where
  Runs-pack_texts :
      {s : os.State} {left sent : List ℕ} (buf : List ℕ) (width : ℕ) (texts : List (List ℕ))
      → Holds buf width 0 texts
      → Fits width texts
      → length (join texts) < 2 ^ 31
      → At link s left sent
      → Runs link (pack_texts os buf width (length texts)) s (layout texts) left sent
  unfolding pack_texts
  Runs-pack_texts buf width texts h f l at =
      let n = length (join texts) in
      rw (sc_len-zero buf width texts h f l) (
        Runs-pass link n _ (
          Runs-bind link _ (Runs-malloc link (align8 n) (omega (arith, align8_bounds n l)) at)
            λ s1 at1. rw (sc_pack-layout buf width texts h l) (Runs-pure link (layout texts) at1)))

  Runs-set_texts :
      {s : os.State} {left sent : List ℕ} (name buf : List ℕ) (width : ℕ) (texts : List (List ℕ))
      (ph : Phdr)
      → is_neg sock ≡ false
      → Holds buf width 0 texts
      → Fits width texts
      → length (param name) + length (join texts) < 2 ^ 30
      → IsPhdr ph
      → ph.len ≡ 0
      → At link s (phdr_bytes ph ++ left) sent
      → let e : Elem = record { width = width; xt = xt_array_str } in
        Runs link
          (set_texts os sock (param name) e buf (length texts))
          s
          tt
          left
          (sent ++ set_request name e (length texts) (layout texts))
  unfolding set_texts
  Runs-set_texts name buf width texts ph fd h f l is z at =
      let e : Elem = record { width = width; xt = xt_array_str } in
      let bytes = layout texts in
      let len : length bytes ≡ align8 (length (join texts)) = length-layout texts (omega arith) in
      let room : length bytes + length (param name) < 2 ^ 30 + 8 =
        omega (arith, len, align8_bounds (length (join texts)) (omega arith)) in
      let small : (8 + length bytes) % 2 ^ 32 ≡ 8 + length bytes = omega arith in
      Runs-bind link _ (Runs-pack_texts buf width texts h f (omega arith) at) λ s1 at1. rw small (
        Runs-bind link _
          (Runs-store_param2 link (8 + length bytes) 8 (omega arith) (omega arith) at1)
          λ s2 at2.
            Runs-exchange link (param name)
              (param2_hdr (8 + length bytes) e (length texts) (length bytes)) bytes
              (8 + length bytes) (pure bytes) ph fd
              (omega (arith, len, align8_bounds (length (join texts)) (omega arith)))
              (omega (arith, length-param2_hdr (8 + length bytes) e (length texts) (length bytes)))
              (omega arith) (λ t l o. Runs-pure link bytes) is z at2)

  -- Over a working connection `set_vec` of n > 0 texts, which stand in slots of `in_width` bytes of
  -- the caller's buffer, each with its NUL inside its slot, sends one request that carries
  -- their layout, behind the words of `param2_hdr`, and returns 0, where the name is not empty, the name and the texts have
  -- less than 2^30 bytes, and the reply is a header of length 0. The width of a slot is above 0,
  -- and the socket is not negative.
  pub set_vec-layout :
      {s : os.State} {left sent : List ℕ} (name buf : List ℕ) (in_width : ℕ) (texts : List (List ℕ))
      (ph : Phdr)
      → is_neg sock ≡ false
      → Holds buf in_width 0 texts
      → Fits in_width texts
      → 0 < length name
      → 0 < length texts
      → 0 < in_width
      → length (param name) + length (join texts) < 2 ^ 30
      → IsPhdr ph
      → ph.len ≡ 0
      → At link s (phdr_bytes ph ++ left) sent
      → let e : Elem = record { width = in_width; xt = xt_array_str } in
        Runs link
          (set_vec os sock (some name) (some (codes "SC")) (some buf) (length texts) in_width)
          s
          tt
          left
          (sent ++ set_request name e (length texts) (layout texts))
  unfolding elem_of
  set_vec-layout name buf in_width texts ph fd h f hn ht hw l is z =
      let e : Elem = record { width = in_width; xt = xt_array_str } in
      Runs-front link name (codes "SC") buf e (length texts) in_width fd (ground arith) hn
        (omega arith) ht (omega (arith, length-param name))
        λ t at. Runs-set_texts name buf in_width texts ph fd h f l is z at
