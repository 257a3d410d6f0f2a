-- ===== src/Os/Returns.antt =====
-- What a run that returned a value tells of the steps in it.
use c2r.Common.{◌≡◌, refl, Bool, true, false, Option, none, some, ℤ}
use c2r.Os.Actions.{
  Outcome, ok, err, fault, stuck, M, pure, reject, non_null, call, continue, ◌>>=◌, ◌>>◌,
}

-- The step m returned `a` in state t, and the rest f ran from there.
pub record Returns {S A B : Type 0} (m : M S A) (f : A → M S B) (s : S) (b : B) (s' : S)
    : Type 0 where
  pub value : A
  pub middle : S
  pub first : m s ≡ (ok value, middle)
  pub rest : f value middle ≡ (ok b, s')

module _ {S A B : Type 0} where
  continue_ok :
      (m : M S A) (r : Outcome A) (t : S) (f : A → M S B) (s : S) (b : B) (s' : S)
      → m s ≡ (r, t)
      → continue r f t ≡ (ok b, s')
      → Returns m f s b s'
  continue_ok m (ok a) t f s b s' e h = record { value = a; middle = t; first = e; rest = h }
  continue_ok m (err e') t f s b s' e h = absurd (cc)
  continue_ok m fault t f s b s' e h = absurd (cc)
  continue_ok m stuck t f s b s' e h = absurd (cc)

  pub bind_ok :
      (m : M S A) (f : A → M S B) (s : S) (b : B) (s' : S)
      → (m >>= f) s ≡ (ok b, s')
      → Returns m f s b s'
  unfolding ◌>>=◌
  bind_ok m f s b s' h = continue_ok m (m s).0 (m s).1 f s b s' refl h

module _ {S : Type 0} where
  pub reject_ok :
      (t : Bool) (e : ℤ) (s s' : S) → reject t e s ≡ (ok tt, s') → (t ≡ false) × (s ≡ s')
  reject_ok true e s s' h = absurd (cc)
  reject_ok false e s s' h = (refl, cc)

module _ {S B : Type 0} where
  -- a test that let a run pass
  pub guard_ok :
      (t : Bool) (e : ℤ) (k : M S B) (s : S) (b : B) (s' : S)
      → (reject t e >> k) s ≡ (ok b, s')
      → (t ≡ false) × (k s ≡ (ok b, s'))
  unfolding ◌>>=◌
  guard_ok true e k s b s' h = absurd (cc)
  guard_ok false e k s b s' h = (refl, h)

  pub non_null_ok :
      {A : Type 0} (p : Option A) (f : A → M S B) (s : S) (b : B) (s' : S)
      → (non_null p >>= f) s ≡ (ok b, s')
      → (a : A) × (p ≡ some a) × (f a s ≡ (ok b, s'))
  unfolding ◌>>=◌
  non_null_ok none f s b s' h = absurd (cc)
  non_null_ok (some a) f s b s' h = (a, refl, h)

  -- A call of the system always returns.
  pub call_ok :
      {A : Type 0} (c : S → A × S) (f : A → M S B) (s : S) (b : B) (s' : S)
      → (call c >>= f) s ≡ (ok b, s')
      → f (c s).0 (c s).1 ≡ (ok b, s')
  unfolding ◌>>=◌
  call_ok c f s b s' h = h

  pub pure_ok : (b b' : B) (s s' : S) → pure b s ≡ (ok b', s') → (b ≡ b') × (s ≡ s')
  pure_ok b b' s s' h = (cc, cc)
