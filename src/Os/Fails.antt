-- ===== src/Os/Fails.antt =====
-- Actions that end in a negative status over a working connection, with what they leave behind.
use c2r.Common.{ℕ, List, ◌≡◌, refl, Bool, true, false, ℤ}
use c2r.Os.{Os}
use c2r.Os.Actions.{M, err, pure, reject, ◌>>=◌, ◌>>◌}
use c2r.Os.Link.{Link, At, Runs}

module _ {os : Os} {sock : ℤ} (link : Link os sock) where
  -- From `s` the action ends with the status e, leaves `left` to be read, and has sent `sent`.
  pub record Fails {A : Type 0} (m : M os.State A) (s : os.State) (e : ℤ) (left sent : List ℕ)
      : Type 0 where
    pub final : os.State
    pub fails : m s ≡ (err e, final)
    pub at : At link final left sent

  pub Fails-bind :
      {A B : Type 0} {m : M os.State A} (f : A → M os.State B) {s : os.State} {a : A} {e : ℤ}
      {left sent left' sent' : List ℕ}
      → Runs link m s a left sent
      → ((s' : os.State) → At link s' left sent → Fails (f a) s' e left' sent')
      → Fails (m >>= f) s e left' sent'
  unfolding ◌>>=◌
  Fails-bind f r k =
      let next = k r.final r.at in
      record { final = next.final; fails = rw r.runs next.fails; at = next.at }

  -- an error of the first of two steps
  pub Fails-first :
      {A B : Type 0} {m : M os.State A} (f : A → M os.State B) {s : os.State} {e : ℤ}
      {left sent : List ℕ}
      → Fails m s e left sent
      → Fails (m >>= f) s e left sent
  unfolding ◌>>=◌
  Fails-first f r = record { final = r.final; fails = rw r.fails; at = r.at }

  pub Fails-pass :
      {A B : Type 0} (a : A) (f : A → M os.State B) {s : os.State} {e : ℤ} {left sent : List ℕ}
      → Fails (f a) s e left sent
      → Fails (pure a >>= f) s e left sent
  unfolding ◌>>=◌
  Fails-pass a f r = record { final = r.final; fails = r.fails; at = r.at }

  -- a test that passes, and one that does not
  pub Fails-guard :
      {B : Type 0} {t : Bool} (e : ℤ) (k : M os.State B) {s : os.State} {e' : ℤ}
      {left sent : List ℕ}
      → t ≡ false
      → Fails k s e' left sent
      → Fails (reject t e >> k) s e' left sent
  unfolding ◌>>=◌
  Fails-guard e k p r = record { final = r.final; fails = rw (p, ◌>>=◌) r.fails; at = r.at }

  pub Fails-reject :
      {B : Type 0} {t : Bool} (e : ℤ) (k : M os.State B) {s : os.State} {left sent : List ℕ}
      → t ≡ true
      → At link s left sent
      → Fails (reject t e >> k) s e left sent
  unfolding ◌>>=◌
  Fails-reject e k {s} p at = record { final = s; fails = rw (p, ◌>>=◌) refl; at = at }
