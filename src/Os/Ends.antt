-- ===== src/Os/Ends.antt =====
-- Actions by how they end: a call that returned goes on, and one that does not return, or runs into
-- undefined behaviour, is the end of what it is part of.
use c2r.Common.{◌≡◌, refl}
use c2r.Os.Actions.{Outcome, ok, fault, stuck, M, ◌>>=◌}

module _ {S A B : Type 0} (m : M S A) (f : A → M S B) where
  pub Ends-bind :
      (s s' : S) (a : A) (r : Outcome B) → m s ≡ (ok a, s') → (f a s').0 ≡ r → ((m >>= f) s).0 ≡ r
  unfolding ◌>>=◌
  Ends-bind s s' a r e h = rw e h

  pub Stuck-first : (s : S) → (m s).0 ≡ stuck → ((m >>= f) s).0 ≡ stuck
  unfolding ◌>>=◌
  Stuck-first s e = rw e refl

  pub Fault-first : (s : S) → (m s).0 ≡ fault → ((m >>= f) s).0 ≡ fault
  unfolding ◌>>=◌
  Fault-first s e = rw e refl
