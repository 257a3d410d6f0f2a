-- ===== src/SetVec/Rejects.antt =====
-- What `set_vec` of src/set_vec.c refuses, and when.
use c2r.Common.{
  ℕ, ◌+◌, ◌%◌, ◌^◌, ◌≡◌, ◌⊎◌, inl, inr, refl, subst, List, [], ◌∷◌, Option, none, some, Bool, true,
  false, ℤ, is_neg, length, arith, ◌==◌, leb, Bool-cases,
}
use c2r.Os.{Os}
use c2r.Os.Actions.{Outcome, ok, err, M, bad, lift, reject, non_null, ◌>>=◌}
use c2r.Os.Returns.{reject_ok}
use c2r.SetVec.{elem_of, sc_len, pack_texts, non_empty, set_vec}
use c2r.SetVec.Layout.{Holds, Fits}

-- An argument that `set_vec` tests: the socket, the two names, the data, the count, and the type with
-- the width.
abbrev pub IsRefused : ℤ → Option (List ℕ) → Option (List ℕ) → Option (List ℕ) → ℕ → ℕ → Type 0
IsRefused sock name qtype buf n in_width =
    (is_neg sock ≡ true)
    ⊎ ((name ≡ none)
        ⊎ ((name ≡ some [])
            ⊎ ((qtype ≡ none)
                ⊎ ((qtype ≡ some [])
                    ⊎ ((buf ≡ none)
                        ⊎ ((n ≡ 0)
                            ⊎ ((type : List ℕ) × (qtype ≡ some type)
                                × (elem_of type in_width ≡ err bad))))))))

-- A test, which leaves the state alone and fails with -1 alone.
abbrev IsTest : {S A : Type 0} → M S A → S → Type 0
IsTest {A} m s = (m s ≡ (err bad, s)) ⊎ ((a : A) × (m s ≡ (ok a, s)))

module _ {S : Type 0} where
  reject-IsTest : (b : Bool) (s : S) → IsTest (reject b bad) s
  reject-IsTest true s = inl refl
  reject-IsTest false s = inr (tt, refl)

  non_null-IsTest : {A : Type 0} (p : Option A) (s : S) → IsTest (non_null p) s
  non_null-IsTest none s = inl refl
  non_null-IsTest (some a) s = inr (a, refl)

  non_null-some :
      {A : Type 0} (p : Option A) (a : A) (s : S) → non_null p s ≡ (ok a, s) → p ≡ some a
  non_null-some none a s h = absurd (cc)
  non_null-some (some b) a s h = cc

  lifted :
      {A B : Type 0} (r : Outcome A) (f : A → M S B) (s : S)
      → r ≡ err bad
      → (lift r >>= f) s ≡ (err bad, s)
  unfolding ◌>>=◌
  lifted r f s e = rw e refl

  -- behind a test that passes, the rest fails with -1
  refuse :
      {A B : Type 0} (m : M S A) (f : A → M S B) (s : S)
      → IsTest m s
      → ((a : A) → m s ≡ (ok a, s) → f a s ≡ (err bad, s))
      → (m >>= f) s ≡ (err bad, s)
  unfolding ◌>>=◌
  refuse m f s (inl e) k = rw e refl
  refuse m f s (inr (a, e)) k = rw e (k a e)

module _ (os : Os) where
  non_empty-IsTest : (p : Option (List ℕ)) (s : os.State) → IsTest (non_empty os p) s
  unfolding non_empty ◌>>=◌
  non_empty-IsTest none s = inl refl
  non_empty-IsTest (some []) s = inl refl
  non_empty-IsTest (some (b ∷ bs)) s =
      let e : (length (b ∷ bs) == 0) ≡ false = ground arith in rw e (inr (b ∷ bs, refl))

  non_empty-some :
      (p : Option (List ℕ)) (t : List ℕ) (s : os.State) → non_empty os p s ≡ (ok t, s) → p ≡ some t
  unfolding non_empty ◌>>=◌
  non_empty-some none t s h = absurd (cc)
  non_empty-some (some []) t s h = absurd (cc)
  non_empty-some (some (b ∷ bs)) t s h =
      let e : (length (b ∷ bs) == 0) ≡ false = ground arith in
      let q : Path (Outcome (List ℕ) × os.State) (ok (b ∷ bs), s) (ok t, s) =
        subst (λ x. x ≡ (ok t, s)) (rw e refl) h in
      cc

  non_empty-nil : (t : List ℕ) (s : os.State) → non_empty os (some []) s ≡ (ok t, s) → ⊥
  unfolding non_empty ◌>>=◌
  non_empty-nil t s h = absurd (cc)

  -- The type is at fault if all else has passed.
  only_type :
      (sock : ℤ) (name qtype buf : Option (List ℕ)) (n in_width : ℕ) (s : os.State)
      (name' type content : List ℕ)
      → IsRefused sock name qtype buf n in_width
      → is_neg sock ≡ false
      → non_empty os name s ≡ (ok name', s)
      → non_empty os qtype s ≡ (ok type, s)
      → buf ≡ some content
      → (n == 0) ≡ false
      → elem_of type in_width ≡ err bad
  only_type sock name qtype buf n in_width s name' type content h fd hn hq hb h0 =
      let n_some = non_empty-some name name' s hn in
      let q_some = non_empty-some qtype type s hq in
      elim h [
        | inl e ↦ absurd (cc)
        | inr (inl e) ↦ absurd (cc)
        | inr (inr (inl e)) ↦
            absurd (non_empty-nil name' s (subst (λ p. non_empty os p s ≡ (ok name', s)) e hn))
        | inr (inr (inr (inl e))) ↦ absurd (cc)
        | inr (inr (inr (inr (inl e)))) ↦
            absurd (non_empty-nil type s (subst (λ p. non_empty os p s ≡ (ok type, s)) e hq))
        | inr (inr (inr (inr (inr (inl e))))) ↦ absurd (cc)
        | inr (inr (inr (inr (inr (inr (inl e)))))) ↦ absurd (ground arith)
        | inr (inr (inr (inr (inr (inr (inr (t, e, bad_type))))))) ↦
            let same : t ≡ type = cc in subst (λ x. elem_of x in_width ≡ err bad) same bad_type
      ]

  -- `set_vec` returns -1 before it calls anything, whatever its other arguments are, where the
  -- socket is negative, the name or the type's name NULL or empty, the data NULL, n 0, or the type
  -- none that it knows, or that of texts with a width of 0.
  set_vec-IsRefused :
      (sock : ℤ) (name qtype buf : Option (List ℕ)) (n in_width : ℕ) (s : os.State)
      → IsRefused sock name qtype buf n in_width
      → set_vec os sock name qtype buf n in_width s ≡ (err bad, s)
  unfolding set_vec
  set_vec-IsRefused sock name qtype buf n in_width s h =
      refuse _ _ s (reject-IsTest (is_neg sock) s) λ t1 fd.
        refuse _ _ s (non_empty-IsTest name s) λ name' hn.
          refuse _ _ s (non_empty-IsTest qtype s) λ type hq.
            refuse _ _ s (non_null-IsTest buf s) λ content hb.
              refuse _ _ s (reject-IsTest (n == 0) s) λ t5 h0. lifted _ _ s (
                only_type sock name qtype buf n in_width s name' type content h
                  (reject_ok (is_neg sock) bad s s fd).0 hn hq (non_null-some buf content s hb)
                  (reject_ok (n == 0) bad s s h0).0)

  too_long :
      (buf : List ℕ) (width i cum_len : ℕ) (texts : List (List ℕ))
      → Holds buf width i texts
      → (Fits width texts → ⊥)
      → sc_len (length texts) buf width i cum_len ≡ err bad
  unfolding sc_len
  too_long buf width i cum_len [] h f = absurd (f tt)
  too_long buf width i cum_len (t ∷ texts) h f =
      rw (h.0, sc_len)
        (elim (Bool-cases (leb width (length t))) [
          | inl long ↦ rw long refl
          | inr short ↦ rw short (
              too_long buf width (i + 1) ((cum_len + length t + 1) % 2 ^ 32) texts h.1
                (λ rest. f (ground arith, rest)))
        ])

  -- Where some text and its NUL do not fit their slot, the layout of the texts ends in -1 before any
  -- memory is asked for.
  pack_texts-Fits :
      (buf : List ℕ) (width : ℕ) (texts : List (List ℕ)) (s : os.State)
      → Holds buf width 0 texts
      → (Fits width texts → ⊥)
      → pack_texts os buf width (length texts) s ≡ (err bad, s)
  unfolding pack_texts ◌>>=◌
  pack_texts-Fits buf width texts s h f = rw (too_long buf width 0 0 texts h f) refl
