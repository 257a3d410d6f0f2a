-- ===== src/Query/Replies.antt =====
-- The pieces of Query over a working connection, and single booleans in replies.
use c2r.Common.{
  ◌^◌, ◌++◌, le32, ltb-false, int_of-small, ℕ, ◌%◌, ◌<◌, ◌≡◌, refl, List, [], ◌∷◌, Option, some,
  true, false, ℤ, pos, negsuc, is_neg, is_nonpos, length, word32, arith, ◌==◌, ltb,
}
use c2r.Os.{Os}
use c2r.Os.Actions.{M, bad}
use c2r.Os.Link.{Link, At, Runs, Runs-pure, Runs-pass, Runs-guard, Runs-try}
use c2r.Wire.Header.{word-le32}
use c2r.Query.{int_at, sprintf, output_of, ignore_status, byte_at}
use c2r.Flags.{decode_bool}

pub is_neg-nonpos : (x : ℤ) → is_nonpos x ≡ false → is_neg x ≡ false
is_neg-nonpos (pos n) h = refl
is_neg-nonpos (negsuc n) h = absurd (cc)

-- The reply of a single logical: the count, the value (0, 1, or 2 for NA), and padding.
abbrev pub logical : ℕ → ℕ → ℕ → ℕ → List ℕ
logical v p q r = 1 ∷ 0 ∷ 0 ∷ 0 ∷ v ∷ p ∷ q ∷ r ∷ []

-- an int in front of a buffer
pub int_at-le32 : (n : ℕ) (more : List ℕ) → n < 2 ^ 31 → int_at (le32 n ++ more) ≡ some (pos n)
unfolding int_at
int_at-le32 n more h =
    let whole : ltb (length (le32 n ++ more)) 4 ≡ false =
      ltb-false (length (le32 n ++ more)) 4 (omega arith) in
    let all : word32 (le32 n ++ more) 0 ≡ n = word-le32 n (omega arith) in
    rw (whole, all, int_of-small n h) refl

module _ {os : Os} {sock : ℤ} (link : Link os sock) where
  pub Runs-ignore_status :
      {A : Type 0} {m : M os.State (Option A)} {s : os.State} {a : A} {left sent : List ℕ}
      → Runs link m s (some a) left sent
      → Runs link (ignore_status m) s (some a) left sent
  unfolding ignore_status
  Runs-ignore_status {m} r = Runs-try link m output_of r refl

  pub Runs-sprintf :
      {s : os.State} {left sent : List ℕ} (size : ℕ) (text : List ℕ)
      → length text < size
      → At link s left sent
      → Runs link (sprintf size text) s text left sent
  Runs-sprintf size text h at =
      rw (let e : ltb (length text) size ≡ true = ground arith in e) (Runs-pure link text at)

  pub Runs-decode_bool :
      {s : os.State} {left sent : List ℕ} (v p q r : ℕ)
      → At link s left sent
      → Runs link (decode_bool (logical v p q r)) s (v % 2 == 1) left sent
  unfolding decode_bool byte_at
  Runs-decode_bool v p q r at = Runs-guard link bad _ refl (
      Runs-pass link 1 _ (
        Runs-guard link bad _ refl (
          let e : word32 (logical v p q r) 1 % 2 ≡ v % 2 = omega arith in
          rw e (Runs-pure link (v % 2 == 1) at))))
