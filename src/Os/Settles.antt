-- ===== src/Os/Settles.antt =====
-- Actions that end: in a value, a status or undefined behaviour, and never in a loop of the model that
-- is cut off; one rule for each way to build an action.
use c2r.Common.{◌≢◌, Bool, true, false, Option, none, some, ℤ, if◌then◌else◌}
use c2r.Os.Actions.{
  Outcome, ok, err, fault, stuck, M, lift, pure, crash, non_null, deref, call, reject, try,
  continue, ◌>>=◌,
}
use c2r.Os.Clean.{IsClean, Clean}

abbrev pub IsSettled : {A : Type 0} → Outcome A → Type 0
IsSettled (ok a) = Unit
IsSettled (err e) = Unit
IsSettled fault = Unit
IsSettled stuck = ⊥

pub record Settles {S A : Type 0} (m : M S A) : Type 0 where
  pub at : (s : S) → IsSettled (m s).0

module _ {A : Type 0} where
  pub IsSettled-ne-stuck : (r : Outcome A) → IsSettled r → r ≢ stuck
  IsSettled-ne-stuck (ok a) h e = cc
  IsSettled-ne-stuck (err x) h e = cc
  IsSettled-ne-stuck fault h e = cc
  IsSettled-ne-stuck stuck h e = h

  IsSettled-IsClean : (r : Outcome A) → IsClean r → IsSettled r
  IsSettled-IsClean (ok a) h = tt
  IsSettled-IsClean (err e) h = tt
  IsSettled-IsClean fault h = tt
  IsSettled-IsClean stuck h = h

  pub IsSettled-if :
      (b : Bool) (r r' : Outcome A) → IsSettled r → IsSettled r' → IsSettled (if b then r else r')
  IsSettled-if true r r' h h' = h
  IsSettled-if false r r' h h' = h'

module _ {S A : Type 0} where
  pub Settles-Clean : (m : M S A) → Clean m → Settles m
  Settles-Clean m h = record { at = λ s. IsSettled-IsClean (m s).0 (h.at s) }

  pub Settles-lift : (r : Outcome A) → IsSettled r → Settles {S = S} (lift r)
  Settles-lift r h = record { at = λ s. h }

  pub Settles-pure : (a : A) → Settles {S = S} (pure a)
  Settles-pure a = record { at = λ s. tt }

  pub Settles-crash : Settles {S = S} {A = A} crash
  Settles-crash = record { at = λ s. tt }

  pub Settles-non_null : (p : Option A) → Settles {S = S} (non_null p)
  Settles-non_null none = record { at = λ s. tt }
  Settles-non_null (some a) = record { at = λ s. tt }

  pub Settles-deref : (p : Option A) → Settles {S = S} (deref p)
  Settles-deref none = record { at = λ s. tt }
  Settles-deref (some a) = record { at = λ s. tt }

  pub Settles-call : (f : S → A × S) → Settles (call f)
  Settles-call f = record { at = λ s. tt }

  pub Settles-if : (b : Bool) (m n : M S A) → Settles m → Settles n → Settles (if b then m else n)
  Settles-if true m n hm hn = hm
  Settles-if false m n hm hn = hn

module _ {S : Type 0} where
  pub Settles-reject : (b : Bool) (e : ℤ) → Settles {S = S} (reject b e)
  Settles-reject true e = record { at = λ s. tt }
  Settles-reject false e = record { at = λ s. tt }

module _ {S A B : Type 0} where
  IsSettled-continue :
      (r : Outcome A) (f : A → M S B) (s : S)
      → IsSettled r
      → ((a : A) → Settles (f a))
      → IsSettled (continue r f s).0
  IsSettled-continue (ok a) f s h k = (k a).at s
  IsSettled-continue (err e) f s h k = tt
  IsSettled-continue fault f s h k = tt
  IsSettled-continue stuck f s h k = h

  pub Settles-bind :
      (m : M S A) (f : A → M S B) → Settles m → ((a : A) → Settles (f a)) → Settles (m >>= f)
  unfolding ◌>>=◌
  Settles-bind m f hm hf = record {
    at = λ s. let (r, s') = m s in IsSettled-continue r f s' (hm.at s) hf;
  }

  -- what goes on after an error does not make an outcome of its own out of nothing
  pub Settles-try :
      (m : M S A) (f : Outcome A → Outcome B)
      → Settles m
      → ((r : Outcome A) → IsSettled r → IsSettled (f r))
      → Settles (try m (λ r. lift (f r)))
  unfolding try
  Settles-try m f hm hf = record { at = λ s. let (r, s') = m s in hf r (hm.at s) }

pub ruleset settles_rules = (
  Settles-pure, Settles-crash, Settles-non_null, Settles-deref, Settles-call, Settles-if,
  Settles-reject, Settles-bind,
)
