-- ===== src/Os/Link.antt =====
-- A working connection: what the documentation of `read`, `send` and the allocator promises while
-- neither side fails. `incoming` is what the server will have sent, `outgoing` what it has been sent.
use c2r.Common.{
  ℕ, ◌<◌, ◌≤◌, ◌^◌, List, [], ◌++◌, length, ◌≡◌, refl, ap, ◌≢◌, Bool, true, false, ℤ, pos,
}
use c2r.Os.{Os, got}
use c2r.Os.Actions.{M, Outcome, ok, lift, pure, reject, try, ◌>>=◌, ◌>>◌}

pub record Link (os : Os) (sock : ℤ) : Type 0 where
  pub incoming : os.State → List ℕ
  pub outgoing : os.State → List ℕ
  -- TCP is a byte stream: a read takes some of what is there, in order, cut anywhere.
  pub read_lem :
      (n : ℕ) (s : os.State)
      → 0 < n
      → incoming s ≢ []
      → (bs : List ℕ) × (s' : os.State) × (os.read sock n s ≡ (got bs, s'))
        × (bs ≢ [])
        × (length bs ≤ n)
        × (incoming s ≡ bs ++ incoming s')
        × (outgoing s' ≡ outgoing s)
  -- A blocking `send` takes all of a message.
  pub send_lem :
      (bs : List ℕ) (s : os.State)
      → (s' : os.State) × (os.send sock bs s ≡ (pos (length bs), s'))
        × (incoming s' ≡ incoming s)
        × (outgoing s' ≡ outgoing s ++ bs)
  -- Memory is there for what an object can hold.
  pub malloc_lem :
      (n : ℕ) (s : os.State)
      → n < 2 ^ 63
      → (s' : os.State) × (os.malloc n s ≡ (true, s'))
        × (incoming s' ≡ incoming s)
        × (outgoing s' ≡ outgoing s)
  pub memalign_lem :
      (n : ℕ) (s : os.State)
      → n < 2 ^ 63
      → (s' : os.State) × (os.posix_memalign n s ≡ (pos 0, s'))
        × (incoming s' ≡ incoming s)
        × (outgoing s' ≡ outgoing s)

module _ {os : Os} {sock : ℤ} (link : Link os sock) where
  -- what is still to come and what has been sent, in a state
  pub record At (s : os.State) (left sent : List ℕ) : Type 0 where
    pub left_lem : link.incoming s ≡ left
    pub sent_lem : link.outgoing s ≡ sent

  -- From `s` the action returns `a`, leaves `left` to be read, and `sent` is what was sent by then.
  pub record Runs {A : Type 0} (m : M os.State A) (s : os.State) (a : A) (left sent : List ℕ)
      : Type 0 where
    pub final : os.State
    pub runs : m s ≡ (ok a, final)
    pub at : At final left sent

  pub Runs-pure :
      {A : Type 0} {s : os.State} {left sent : List ℕ} (a : A)
      → At s left sent
      → Runs (pure a) s a left sent
  Runs-pure {s} a at = record { final = s; runs = refl; at = at }

  pub Runs-bind :
      {A B : Type 0} {m : M os.State A} (f : A → M os.State B) {s : os.State} {a : A} {b : B}
      {left sent left' sent' : List ℕ}
      → Runs m s a left sent
      → ((s' : os.State) → At s' left sent → Runs (f a) s' b left' sent')
      → Runs (m >>= f) s b left' sent'
  unfolding ◌>>=◌
  Runs-bind f r k =
      let next = k r.final r.at in
      record { final = next.final; runs = rw r.runs next.runs; at = next.at }

  -- a step that has its value at hand, and a test that passes
  pub Runs-pass :
      {A B : Type 0} (a : A) (f : A → M os.State B) {s : os.State} {b : B} {left sent : List ℕ}
      → Runs (f a) s b left sent
      → Runs (pure a >>= f) s b left sent
  unfolding ◌>>=◌
  Runs-pass a f r = record { final = r.final; runs = r.runs; at = r.at }

  pub Runs-guard :
      {B : Type 0} {t : Bool} (e : ℤ) (k : M os.State B) {s : os.State} {b : B} {left sent : List ℕ}
      → t ≡ false
      → Runs k s b left sent
      → Runs (reject t e >> k) s b left sent
  unfolding ◌>>=◌
  Runs-guard e k p r = record { final = r.final; runs = rw (p, ◌>>=◌) r.runs; at = r.at }

  pub Runs-try :
      {A B : Type 0} (m : M os.State A) (f : Outcome A → Outcome B) {s : os.State} {a : A} {b : B}
      {left sent : List ℕ}
      → Runs m s a left sent
      → f (ok a) ≡ ok b
      → Runs (try m (λ r. lift (f r))) s b left sent
  unfolding try
  Runs-try m f r e = record {
    final = r.final;
    runs = rw r.runs (ap (λ x. (x, r.final)) e);
    at = r.at;
  }

  -- A read returns all that is asked for, where the server will send as much.
  abbrev pub Prompt : Type 0
  Prompt =
      (s : os.State) (bs left : List ℕ)
      → 0 < length bs
      → link.incoming s ≡ bs ++ left
      → (s' : os.State) × (os.read sock (length bs) s ≡ (got bs, s'))
        × (link.incoming s' ≡ left)
        × (link.outgoing s' ≡ link.outgoing s)
