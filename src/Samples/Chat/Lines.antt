-- ===== src/Samples/Chat/Lines.antt =====
-- How the programs of the chat read a line that is typed.
use c2r.Common.{
  ℕ, zero, suc, ◌%◌, ◌^◌, ◌<◌, ◌≡◌, ◌≢◌, refl, sym, ap, ◌∙◌, List, [], ◌∷◌, ◌++◌, false, ℤ, pos,
  negsuc, length, take, take_nil, subst, ◌⊎◌, inl, inr, append_assoc, arith, All, ◌==◌,
}
use c2r.Os.Actions.{M, pure, ok, fault, ◌>>=◌}
use c2r.Os.Link.{Link, At, Runs}
use c2r.Samples.{Net}
use c2r.Samples.Chat.{read_line, char_of}

-- What is typed at one end of a connection: `getchar` gives it a byte at a time, and -1 behind it.
pub record Keyboard (net : Net) {sock : ℤ} (link : Link net.os sock) : Type 0 where
  pub typed : net.State → List ℕ
  pub key_lem :
      (b : ℕ) (more : List ℕ) (s : net.State)
      → typed s ≡ b ∷ more
      → (s' : net.State) × (net.getchar s ≡ (pos b, s'))
        × (typed s' ≡ more)
        × (link.incoming s' ≡ link.incoming s)
        × (link.outgoing s' ≡ link.outgoing s)
  pub end_lem :
      (s : net.State)
      → typed s ≡ []
      → (s' : net.State) × (net.getchar s ≡ (negsuc 0, s')) × (typed s' ≡ [])
  pub read_lem : (n : ℕ) (s : net.State) → typed (net.read sock n s).1 ≡ typed s
  pub write_lem : (bs : List ℕ) (s : net.State) → typed (net.write sock bs s).1 ≡ typed s

-- a byte that is not the end of a line
abbrev pub IsInLine : ℕ → Type 0
IsInLine b = (b < 256) × (b ≢ 10)

not_newline : (b : ℕ) → IsInLine b → (char_of (pos b) == 10) ≡ false
not_newline b (small, other) = ground arith

list_cases : (xs : List ℕ) → (xs ≡ []) ⊎ ((x : ℕ) × (ys : List ℕ) × (xs ≡ x ∷ ys))
list_cases [] = inl refl
list_cases (x ∷ xs) = inr (x, xs, refl)

module _ (net : Net) {sock : ℤ} (link : Link net.os sock) (keys : Keyboard net link) where
  -- a run that leaves `more` to be typed
  pub record Types {A : Type 0} (m : M net.State A) (s : net.State) (a : A)
      (more left sent : List ℕ) : Type 0 where
    pub run : Runs link m s a left sent
    pub typed_lem : keys.typed run.final ≡ more

  pub Types-bind :
      {A B : Type 0} {m : M net.State A} (f : A → M net.State B) {s : net.State} {a : A} {b : B}
      {more left sent more' left' sent' : List ℕ}
      → Types m s a more left sent
      → ((t : net.State)
          → keys.typed t ≡ more
          → At link t left sent
          → Types (f a) t b more' left' sent')
      → Types (m >>= f) s b more' left' sent'
  unfolding ◌>>=◌
  Types-bind f r k =
      let next = k r.run.final r.typed_lem r.run.at in
      record {
        run = record {
          final = next.run.final;
          runs = rw r.run.runs next.run.runs;
          at = next.run.at;
        };
        typed_lem = next.typed_lem;
      }

  pub Types-pass :
      {A B : Type 0} (a : A) (f : A → M net.State B) {s : net.State} {b : B}
      {more left sent : List ℕ}
      → Types (f a) s b more left sent
      → Types (pure a >>= f) s b more left sent
  unfolding ◌>>=◌
  Types-pass a f r = record {
    run = record { final = r.run.final; runs = r.run.runs; at = r.run.at };
    typed_lem = r.typed_lem;
  }

  pub Types-pure :
      {A : Type 0} {s : net.State} {more left sent : List ℕ} (a : A)
      → keys.typed s ≡ more
      → At link s left sent
      → Types (pure a) s a more left sent
  Types-pure {s} a e at = record { run = record { final = s; runs = refl; at = at }; typed_lem = e }

  pub Types-read_line :
      (room : ℕ) {s : net.State} {left sent : List ℕ} (line rest more : List ℕ)
      → All IsInLine rest
      → length rest < room
      → keys.typed s ≡ rest ++ 10 ∷ more
      → At link s left sent
      → Types (read_line net room line) s (line ++ (rest ++ 10 ∷ [])) more left sent
  unfolding read_line ◌>>=◌
  Types-read_line zero line rest more ok_rest h e at = absurd (omega arith)
  Types-read_line (suc room) {s} line [] more ok_rest h e at =
      let (s', run, t, inc, out) = keys.key_lem 10 more s e in
      record {
        run = record {
          final = s';
          runs = rw run refl;
          at = record { left_lem = inc ∙ at.left_lem; sent_lem = out ∙ at.sent_lem };
        };
        typed_lem = t;
      }
  Types-read_line (suc room) {s} line (b ∷ rest) more (b_ok, ok_rest) h e at =
      let (s', run, t, inc, out) = keys.key_lem b (rest ++ 10 ∷ more) s e in
      let same : b % 2 ^ 8 ≡ b = let small = b_ok.0 in omega arith in
      let r =
        Types-read_line room (line ++ b ∷ []) rest more ok_rest (omega arith) t
          (record { left_lem = inc ∙ at.left_lem; sent_lem = out ∙ at.sent_lem }) in
      record {
        run = record {
          final = r.run.final;
          runs = rw run (
              rw (not_newline b b_ok, same)
                (r.run.runs
                  ∙ ap (λ l. (ok l, r.run.final)) (append_assoc line (b ∷ []) (rest ++ 10 ∷ []))));
          at = r.run.at;
        };
        typed_lem = r.typed_lem;
      }

  pub read_line-overflow :
      (room : ℕ) (s : net.State) (line : List ℕ)
      → All IsInLine (take room (keys.typed s))
      → (read_line net room line s).0 ≡ fault
  unfolding read_line ◌>>=◌
  read_line-overflow zero s line h = refl
  read_line-overflow (suc room) s line h = elim (list_cases (keys.typed s)) [
    | inl e ↦
        let (s', run, t) = keys.end_lem s e in
        rw run (read_line-overflow room s' (line ++ 255 ∷ []) (rw (t, take_nil {A = ℕ} room) tt))
    | inr p ↦
        let (b, more, e) = p in
        let (s', run, t, inc, out) = keys.key_lem b more s e in
        let h' : All IsInLine (b ∷ take room more) =
          subst (λ l. All IsInLine (take (suc room) l)) e h in
        rw run (
          rw (not_newline b h'.0) (
            read_line-overflow room s' (line ++ char_of (pos b) ∷ [])
              (subst (λ l. All IsInLine (take room l)) (sym t) h'.1)))
  ]
