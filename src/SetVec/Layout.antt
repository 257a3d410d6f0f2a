-- ===== src/SetVec/Layout.antt =====
-- The two loops of src/set_vec.c over texts: the layout of the strings, and that a reader gets them
-- back.
use c2r.Common.{
  ℕ, zero, suc, ◌+◌, ◌-◌, ◌*◌, ◌%◌, ◌^◌, ◌≤◌, ◌<◌, ◌≡◌, refl, ap, ◌∙◌, List, [], ◌∷◌, ◌++◌, some,
  true, false, length, take_all, drop, replicate, length-replicate, arith, c_string-IsNonzero, All,
  IsNonzero, ◌==◌, ltb, append_assoc, length-append, append-nil, leb-false, ltb-false,
}
use c2r.Os.Actions.{ok}
use c2r.SetVec.{text_at, sc_len, align8, sc_pack}

-- The buffer holds these texts, from the i-th slot on.
abbrev pub Holds : List ℕ → ℕ → ℕ → List (List ℕ) → Type 0
Holds buf width i [] = Unit
Holds buf width i (s ∷ texts) = (text_at buf width i ≡ some s) × Holds buf width (i + 1) texts

-- the texts one behind another, each with its NUL
abbrev pub join : List (List ℕ) → List ℕ
join [] = []
join (s ∷ texts) = (s ++ 0 ∷ []) ++ join texts

-- A text fits its slot if its NUL does.
abbrev pub Fits : ℕ → List (List ℕ) → Type 0
Fits width [] = Unit
Fits width (s ∷ texts) = (length s < width) × Fits width texts

-- The strings of an array of strings, as a reader finds them: each ends in a NUL, and what follows
-- the last NUL is padding. `start` is what has been read of the next one.
pub strings : List ℕ → List ℕ → List (List ℕ)
strings start [] = []
strings start (b ∷ bs) = elim (b == 0) [
  | true ↦ start ∷ strings [] bs
  | false ↦ strings (start ++ b ∷ []) bs
]

length-join-cons :
    (s : List ℕ) (texts : List (List ℕ))
    → length (join (s ∷ texts)) ≡ length s + 1 + length (join texts)
length-join-cons s texts =
    omega (arith, length-append (s ++ 0 ∷ []) (join texts), length-append s (0 ∷ []))

sc_len-join :
    (buf : List ℕ) (width i cum_len : ℕ) (texts : List (List ℕ))
    → Holds buf width i texts
    → Fits width texts
    → cum_len + length (join texts) < 2 ^ 32
    → sc_len (length texts) buf width i cum_len ≡ ok (cum_len + length (join texts))
unfolding sc_len
sc_len-join buf width i cum_len [] h f l = ap ok (omega arith)
sc_len-join buf width i cum_len (s ∷ texts) h f l =
    let m : (cum_len + length s + 1) % 2 ^ 32 ≡ cum_len + length s + 1 =
      omega (arith, length-join-cons s texts) in
    rw (h.0, sc_len)
      (rw (leb-false width (length s) f.0) (
        rw m (
          sc_len-join buf width (i + 1) (cum_len + length s + 1) texts h.1 f.1
            (omega (arith, length-join-cons s texts))
          ∙ ap ok (omega (arith, length-join-cons s texts)))))

sc_pack-join :
    (buf : List ℕ) (width cap i : ℕ) (alt_data : List ℕ) (texts : List (List ℕ))
    → Holds buf width i texts
    → length alt_data + length (join texts) ≤ cap
    → sc_pack (length texts) buf width cap i alt_data
      ≡ ok (
          (alt_data ++ join texts)
          ++ replicate (cap - (length alt_data + length (join texts))) b'X')
unfolding sc_pack
sc_pack-join buf width cap i alt_data [] h l =
    let z : length alt_data + 0 ≡ length alt_data = omega arith in
    rw (take_all cap alt_data (omega arith), append-nil, z)
sc_pack-join buf width cap i alt_data (s ∷ texts) h l =
    let alt' = alt_data ++ (s ++ 0 ∷ []) in
    let more : length alt' ≡ length alt_data + length s + 1 =
      omega (arith, length-append alt_data (s ++ 0 ∷ []), length-append s (0 ∷ [])) in
    let fits : ltb cap (length alt_data + length s) ≡ false =
      ltb-false cap (length alt_data + length s) (omega (arith, length-join-cons s texts)) in
    rw (h.0, sc_pack)
      (rw fits (
        sc_pack-join buf width cap (i + 1) alt' texts h.1 (omega (arith, length-join-cons s texts))
        ∙ ap ok (
            rw
              (let n : length alt' + length (join texts)
                    ≡ length alt_data + length (join (s ∷ texts)) =
                  omega (arith, length-join-cons s texts) in
                n)
              (ap (λ x. x ++ replicate (cap - (length alt_data + length (join (s ∷ texts)))) b'X')
                (append_assoc alt_data (s ++ 0 ∷ []) (join texts))))))

-- what `pack_texts` lays out: the texts, padded to a multiple of 8
abbrev pub layout : List (List ℕ) → List ℕ
layout texts = join texts ++ replicate (align8 (length (join texts)) - length (join texts)) b'X'

pub align8_bounds : (n : ℕ) → n < 2 ^ 31 → (n ≤ align8 n) × (align8 n < n + 8) × (align8 n % 8 ≡ 0)
align8_bounds n h = ground arith

pub length-layout :
    (texts : List (List ℕ))
    → length (join texts) < 2 ^ 31
    → length (layout texts) ≡ align8 (length (join texts))
length-layout texts h =
    let n = length (join texts) in
    omega (
      arith,
      length-append (join texts) (replicate (align8 n - n) b'X'),
      length-replicate {A = ℕ} (align8 n - n) b'X',
      align8_bounds n h,
    )

strings-start :
    (start s rest : List ℕ)
    → All IsNonzero s
    → strings start (s ++ 0 ∷ rest) ≡ (start ++ s) ∷ strings [] rest
unfolding strings
strings-start start [] rest h = rw append-nil
strings-start start (b ∷ s) rest h =
    rw (let e : (b == 0) ≡ false = ground arith in e, strings)
      (strings-start (start ++ b ∷ []) s rest h.1
        ∙ ap (λ x. x ∷ strings [] rest) (append_assoc start (b ∷ []) s))

strings-padding : (start : List ℕ) (k : ℕ) → strings start (replicate k b'X') ≡ []
unfolding strings
strings-padding start zero = refl
strings-padding start (suc k) = strings-padding (start ++ b'X' ∷ []) k

strings-join :
    (texts : List (List ℕ)) (k : ℕ)
    → All (All IsNonzero) texts
    → strings [] (join texts ++ replicate k b'X') ≡ texts
strings-join [] k h = strings-padding [] k
strings-join (s ∷ texts) k h =
    let pad = replicate k b'X' in
    ap (strings [])
      (append_assoc (s ++ 0 ∷ []) (join texts) pad ∙ append_assoc s (0 ∷ []) (join texts ++ pad))
    ∙ strings-start [] s (join texts ++ pad) h.0
    ∙ ap (λ x. s ∷ x) (strings-join texts k h.1)

Holds-IsNonzero :
    (buf : List ℕ) (width i : ℕ) (texts : List (List ℕ))
    → Holds buf width i texts
    → All (All IsNonzero) texts
Holds-IsNonzero buf width i [] h = tt
Holds-IsNonzero buf width i (s ∷ texts) h = (
  c_string-IsNonzero (drop (i * width % 2 ^ 32) buf) s h.0,
  Holds-IsNonzero buf width (i + 1) texts h.1,
)

pub sc_pack-layout :
    (buf : List ℕ) (width : ℕ) (texts : List (List ℕ))
    → Holds buf width 0 texts
    → length (join texts) < 2 ^ 31
    → sc_pack (length texts) buf width (align8 (length (join texts))) 0 [] ≡ ok (layout texts)
sc_pack-layout buf width texts h l =
    let n = length (join texts) in
    let z : 0 + n ≡ n = omega arith in
    sc_pack-join buf width (align8 n) 0 [] texts h (omega (arith, align8_bounds n l))
    ∙ ap (λ k. ok (join texts ++ replicate (align8 n - k) b'X')) z

pub sc_len-zero :
    (buf : List ℕ) (width : ℕ) (texts : List (List ℕ))
    → Holds buf width 0 texts
    → Fits width texts
    → length (join texts) < 2 ^ 31
    → sc_len (length texts) buf width 0 0 ≡ ok (length (join texts))
sc_len-zero buf width texts h f l =
    sc_len-join buf width 0 0 texts h f (omega arith) ∙ ap ok (omega arith)

-- The texts in the slots of a buffer, laid out by the two loops of `set_vec`, padded, and read
-- again, are the same texts, in order; and the layout fills a multiple of 8 bytes. The texts fit
-- their slots with their NUL and need less than 2^31 bytes.
pub strings-sc_pack :
    (buf : List ℕ) (width : ℕ) (texts : List (List ℕ))
    → Holds buf width 0 texts
    → Fits width texts
    → length (join texts) < 2 ^ 31
    → (cum_len : ℕ) × (alt_data : List ℕ) × (sc_len (length texts) buf width 0 0 ≡ ok cum_len)
      × (sc_pack (length texts) buf width (align8 cum_len) 0 [] ≡ ok alt_data)
      × (length alt_data ≡ align8 cum_len)
      × (length alt_data % 8 ≡ 0)
      × (strings [] alt_data ≡ texts)
strings-sc_pack buf width texts h f l =
    let n = length (join texts) in
    (
      n,
      layout texts,
      sc_len-zero buf width texts h f l,
      sc_pack-layout buf width texts h l,
      length-layout texts l,
      omega (arith, length-layout texts l, align8_bounds n l),
      strings-join texts (align8 n - n) (Holds-IsNonzero buf width 0 texts h),
    )
