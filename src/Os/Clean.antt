-- ===== src/Os/Clean.antt =====
-- Actions that always return: a value or a status of a given kind, and never undefined behaviour
-- or a loop that is cut off; one rule for each way to build an action.
use c2r.Common.{
  ◌≡◌, refl, Bool, true, false, Option, none, some, ℤ, pos, negsuc, is_neg, if◌then◌else◌, ◌⊎◌, inl,
}
use c2r.Os.Actions.{
  Outcome, ok, err, fault, stuck, M, bad, at_eof, read_failed, lift, pure, non_null, call, reject,
  c_bye, continue, ◌>>=◌,
}

-- The three statuses that the client names.
abbrev pub IsStatus : ℤ → Type 0
IsStatus e = (e ≡ bad) ⊎ ((e ≡ at_eof) ⊎ (e ≡ read_failed))

abbrev pub IsClean : {A : Type 0} → Outcome A → Type 0
IsClean (ok a) = Unit
IsClean (err e) = IsStatus e
IsClean fault = ⊥
IsClean stuck = ⊥

pub record Clean {S A : Type 0} (m : M S A) : Type 0 where
  pub at : (s : S) → IsClean (m s).0

module _ {S A : Type 0} where
  pub Clean-lift : (r : Outcome A) → IsClean r → Clean {S = S} (lift r)
  Clean-lift r h = record { at = λ s. h }

  pub Clean-pure : (a : A) → Clean {S = S} (pure a)
  Clean-pure a = record { at = λ s. tt }

  pub Clean-non_null : (p : Option A) → Clean {S = S} (non_null p)
  Clean-non_null none = record { at = λ s. inl refl }
  Clean-non_null (some a) = record { at = λ s. tt }

  pub Clean-call : (f : S → A × S) → Clean (call f)
  Clean-call f = record { at = λ s. tt }

  pub Clean-if :
      (b : Bool) (m n : M S A)
      → (b ≡ true → Clean m)
      → (b ≡ false → Clean n)
      → Clean (if b then m else n)
  Clean-if true m n hm hn = hm refl
  Clean-if false m n hm hn = hn refl

module _ {S : Type 0} where
  pub Clean-reject : (b : Bool) → Clean {S = S} (reject b bad)
  Clean-reject true = record { at = λ s. inl refl }
  Clean-reject false = record { at = λ s. tt }

  -- `cBYE` hands on the status of a call, which must be one of the three if it is negative.
  pub Clean-c_bye :
      (status : ℤ) → (is_neg status ≡ true → IsStatus status) → Clean {S = S} (c_bye status)
  Clean-c_bye (pos n) h = record { at = λ s. tt }
  Clean-c_bye (negsuc n) h = record { at = λ s. h refl }

module _ {S A B : Type 0} where
  IsClean-continue :
      (r : Outcome A) (f : A → M S B) (s : S)
      → IsClean r
      → ((a : A) → Clean (f a))
      → IsClean (continue r f s).0
  IsClean-continue (ok a) f s h k = (k a).at s
  IsClean-continue (err e) f s h k = h
  IsClean-continue fault f s h k = h
  IsClean-continue stuck f s h k = h

  pub Clean-bind : (m : M S A) (f : A → M S B) → Clean m → ((a : A) → Clean (f a)) → Clean (m >>= f)
  unfolding ◌>>=◌
  Clean-bind m f hm hf = record {
    at = λ s. let (r, s') = m s in IsClean-continue r f s' (hm.at s) hf;
  }

pub ruleset clean_rules =
    (Clean-pure, Clean-non_null, Clean-call, Clean-if, Clean-reject, Clean-bind)
