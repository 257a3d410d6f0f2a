-- ===== src/Common/Bytes.antt =====
-- Byte strings: lists measured by native numbers, little-endian words, and C strings.
use c2r.Common.Tests.{◌==◌, if◌then◌else◌}
use Prim.Native.Nat.{ℕ, zero, suc, ◌+◌, ◌-◌, ◌*◌, ◌/◌, ◌%◌, ◌≤◌, ◌<◌, min}
use Prim.Native.Char.{code}
use Prim.Native.String.{String}
use mathlib.Core.Path.{◌≡◌, refl, sym, ap, ◌∙◌, subst}
use mathlib.Core.Logic.{◌≢◌}
use mathlib.Core.Bool.{Bool, true, false, ◌&&◌}
use mathlib.Core.Option
use mathlib.Core.Option.{Option, none, some}
use mathlib.Core.List.{List, [], ◌∷◌, ◌++◌, append_assoc}
use native.Mathlib.Omega.{arith}

module _ {ℓ} {A : Type ℓ} where
  abbrev pub length : List A → ℕ
  length [] = 0
  length (x ∷ xs) = suc (length xs)

  abbrev pub get_or : List A → ℕ → A → A
  get_or [] i d = d
  get_or (x ∷ xs) zero d = x
  get_or (x ∷ xs) (suc i) d = get_or xs i d

  abbrev pub take : ℕ → List A → List A
  take zero xs = []
  take (suc n) [] = []
  take (suc n) (x ∷ xs) = x ∷ take n xs

  abbrev pub drop : ℕ → List A → List A
  drop zero xs = xs
  drop (suc n) [] = []
  drop (suc n) (x ∷ xs) = drop n xs

  abbrev pub replicate : ℕ → A → List A
  replicate zero a = []
  replicate (suc n) a = a ∷ replicate n a

  pub length-append : (xs ys : List A) → length (xs ++ ys) ≡ length xs + length ys
  length-append [] ys = omega arith
  length-append (x ∷ xs) ys = omega (arith, length-append xs ys)

  pub length-replicate : (n : ℕ) (a : A) → length (replicate n a) ≡ n
  length-replicate zero a = refl
  length-replicate (suc n) a = ap suc (length-replicate n a)

  pub length-take : (n : ℕ) (xs : List A) → length (take n xs) ≡ min n (length xs)
  length-take zero xs = omega arith
  length-take (suc n) [] = omega arith
  length-take (suc n) (x ∷ xs) = omega (arith, length-take n xs)

  pub take-append-drop : (n : ℕ) (xs : List A) → take n xs ++ drop n xs ≡ xs
  take-append-drop zero xs = refl
  take-append-drop (suc n) [] = refl
  take-append-drop (suc n) (x ∷ xs) = ap (λ ys. x ∷ ys) (take-append-drop n xs)

  pub take-append : (xs ys : List A) → take (length xs) (xs ++ ys) ≡ xs
  take-append [] ys = refl
  take-append (x ∷ xs) ys = ap (λ zs. x ∷ zs) (take-append xs ys)

  pub drop-append : (xs ys : List A) → drop (length xs) (xs ++ ys) ≡ ys
  drop-append [] ys = refl
  drop-append (x ∷ xs) ys = drop-append xs ys

  pub length-drop : (n : ℕ) (xs : List A) → length (drop n xs) ≡ length xs - n
  length-drop zero xs = omega arith
  length-drop (suc n) [] = omega arith
  length-drop (suc n) (x ∷ xs) = omega (arith, length-drop n xs)

  pub take_nil : (n : ℕ) → take n [] ≡ []
  take_nil zero = refl
  take_nil (suc n) = refl

  pub drop_nil : (n : ℕ) → drop n [] ≡ []
  drop_nil zero = refl
  drop_nil (suc n) = refl

  pub drop_add : (m n : ℕ) (xs : List A) → drop (m + n) xs ≡ drop n (drop m xs)
  drop_add zero n xs = ap (λ k. drop k xs) (let e : 0 + n ≡ n = omega arith in e)
  drop_add (suc m) n [] =
      let e : suc m + n ≡ suc (m + n) = omega arith in ap (λ k. drop k []) e ∙ sym (drop_nil n)
  drop_add (suc m) n (x ∷ xs) =
      let e : suc m + n ≡ suc (m + n) = omega arith in ap (λ k. drop k (x ∷ xs)) e ∙ drop_add m n xs

  pub append_left :
      (as' bs cs ds es : List A)
      → as' ++ (bs ++ (cs ++ (ds ++ es))) ≡ (((as' ++ bs) ++ cs) ++ ds) ++ es
  append_left as' bs cs ds es = simp append_assoc

  pub take_all : (n : ℕ) (xs : List A) → length xs ≤ n → take n xs ≡ xs
  take_all zero [] h = refl
  take_all zero (x ∷ xs) h = absurd (omega arith)
  take_all (suc n) [] h = refl
  take_all (suc n) (x ∷ xs) h = ap (λ ys. x ∷ ys) (take_all n xs (omega arith))

  -- Two ways to split one list: the shorter front is a prefix of the longer one.
  pub append_split :
      (xs ys ws zs : List A)
      → xs ++ ys ≡ ws ++ zs
      → length xs ≤ length ws
      → (vs : List A) × (ws ≡ xs ++ vs) × (ys ≡ vs ++ zs)
  append_split [] ys ws zs e h = (ws, refl, e)
  append_split (x ∷ xs) ys [] zs e h = absurd (omega arith)
  append_split (x ∷ xs) ys (w ∷ ws) zs e h =
      let (vs, p, q) = append_split xs ys ws zs (cc) (omega arith) in (vs, cc, q)

  pub append-ne-nil : (xs ys : List A) → 0 < length xs → xs ++ ys ≢ []
  append-ne-nil [] ys h e = absurd (omega arith)
  append-ne-nil (x ∷ xs) ys h e = cc

  pub length_pos : (xs : List A) → xs ≢ [] → 0 < length xs
  length_pos [] ne = absurd (ne refl)
  length_pos (x ∷ xs) ne = omega arith

  abbrev pub All {κ} : (A → Type κ) → List A → Type κ
  All P [] = Unit
  All P (x ∷ xs) = P x × All P xs

-- Equality of byte strings, as `strcmp(a, b) == 0` tests it.
abbrev pub bytes_eq : List ℕ → List ℕ → Bool
bytes_eq [] [] = true
bytes_eq [] (y ∷ ys) = false
bytes_eq (x ∷ xs) [] = false
bytes_eq (x ∷ xs) (y ∷ ys) = (x == y) && bytes_eq xs ys

pub bytes_eq_self : (xs : List ℕ) → bytes_eq xs xs ≡ true
bytes_eq_self [] = refl
bytes_eq_self (x ∷ xs) = ground (arith, bytes_eq_self xs)

pub eq_of_bytes_eq : (xs ys : List ℕ) → bytes_eq xs ys ≡ true → xs ≡ ys
eq_of_bytes_eq [] [] h = refl
eq_of_bytes_eq [] (y ∷ ys) h = ground arith
eq_of_bytes_eq (x ∷ xs) [] h = ground arith
eq_of_bytes_eq (x ∷ xs) (y ∷ ys) h = ground (arith, eq_of_bytes_eq xs ys)

-- The bytes of a string literal.
abbrev pub codes : String → List ℕ
codes String.[] = []
codes (String.◌∷◌ c s) = code c ∷ codes s

-- A 32-bit word in memory, lowest byte first, and back.
abbrev pub le32 : ℕ → List ℕ
le32 w = w % 256 ∷ w / 256 % 256 ∷ w / 65536 % 256 ∷ w / 16777216 % 256 ∷ []

-- `((uint32_t *)buf)[i]`, for a buffer that holds it
abbrev pub word32 : List ℕ → ℕ → ℕ
word32 buf i =
    let b = drop (4 * i) buf in
    get_or b 0 0 + 256 * get_or b 1 0 + 65536 * get_or b 2 0 + 16777216 * get_or b 3 0

abbrev pub IsNonzero : ℕ → Type 0
IsNonzero b = 0 < b

-- The C string at the start of a buffer; `none` if no NUL ends it.
pub c_string : List ℕ → Option (List ℕ)
c_string [] = none
c_string (b ∷ bs) = if b == 0 then some [] else Option.map (λ s. b ∷ s) (c_string bs)

pub c_string-append : (s rest : List ℕ) → All IsNonzero s → c_string (s ++ 0 ∷ rest) ≡ some s
unfolding c_string
c_string-append [] rest h = ground arith
c_string-append (b ∷ s) rest h = ground (arith, c_string-append s rest)

pub c_string-unterminated : (buff : List ℕ) → All IsNonzero buff → c_string buff ≡ none
unfolding c_string
c_string-unterminated [] h = refl
c_string-unterminated (b ∷ buff) h = ground (arith, c_string-unterminated buff h.1)

-- A C string has no NUL inside.
module _ (b : ℕ) where
  IsNonzero-cases :
      (t : Bool) (o : Option (List ℕ)) (s : List ℕ)
      → (b == 0) ≡ t
      → ((r : List ℕ) → o ≡ some r → All IsNonzero r)
      → (if t then some [] else Option.map (λ r. b ∷ r) o) ≡ some s
      → All IsNonzero s
  IsNonzero-cases true o s e ih h = let q : [] ≡ s = cc in subst (All IsNonzero) q tt
  IsNonzero-cases false none s e ih h = absurd (cc)
  IsNonzero-cases false (some r) s e ih h =
      let q : b ∷ r ≡ s = cc in subst (All IsNonzero) q (ground arith, ih r refl)

pub c_string-IsNonzero : (buf s : List ℕ) → c_string buf ≡ some s → All IsNonzero s
unfolding c_string
c_string-IsNonzero [] s h = absurd (cc)
c_string-IsNonzero (b ∷ bs) s h =
    IsNonzero-cases b (b == 0) (c_string bs) s refl (λ r. c_string-IsNonzero bs r) h
