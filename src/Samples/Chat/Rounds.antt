-- ===== src/Samples/Chat/Rounds.antt =====
-- The rounds of the chat, over a connection that hands over a buffer as one piece.
use c2r.Common.{
  ℕ, zero, suc, ◌-◌, ◌<◌, ◌≡◌, refl, sym, ap, ◌∙◌, List, [], ◌∷◌, ◌++◌, some, ℤ, pos, length, take,
  drop, replicate, length-append, length-replicate, append-nil, arith, All, IsNonzero, c_string,
  c_string-append, c_string-unterminated,
}
use c2r.Os.Actions.{call, fault, ◌>>=◌}
use c2r.Os.Ends.{Ends-bind, Fault-first}
use c2r.Os.Link.{Link, At, Prompt}
use c2r.Samples.{Net, read_at, received_at, store_at}
use c2r.Samples.Transfer.{Writes, store_at-append}
use c2r.Samples.Chat.{max, zeros, padded_line, is_exit, client_round, server_round}
use c2r.Samples.Chat.Lines.{
  Keyboard, IsInLine, Types, Types-bind, Types-pass, Types-pure, Types-read_line,
  read_line-overflow,
}

-- what is typed, of fewer than 80 bytes with its end
pub record IsLine (line : List ℕ) : Type 0 where
  pub keys_lem : All IsInLine line
  pub text_lem : All IsNonzero line
  pub short : length line < 79

-- the line with its end
abbrev pub ended : List ℕ → List ℕ
ended line = line ++ 10 ∷ []

replicate_pos : (k : ℕ) → 0 < k → replicate {A = ℕ} k 0 ≡ 0 ∷ replicate (k - 1) 0
replicate_pos zero h = absurd (omega arith)
replicate_pos (suc k) h =
    ap (λ i. 0 ∷ replicate {A = ℕ} i 0) (let e : k ≡ suc k - 1 = omega arith in e)

All-append : (P : ℕ → Type 0) (xs ys : List ℕ) → All P xs → All P ys → All P (xs ++ ys)
All-append P [] ys hx hy = hy
All-append P (x ∷ xs) ys hx hy = (hx.0, All-append P xs ys hx.1 hy)

length-padded_line : (line : List ℕ) → length line < 79 → length (padded_line (ended line)) ≡ max
length-padded_line line h =
    let len = length-append line (10 ∷ []) in
    omega (
      arith,
      len,
      length-append (ended line) (replicate (max - length (ended line)) 0),
      length-replicate {A = ℕ} (max - length (ended line)) 0,
    )

c_string-padded_line :
    (line : List ℕ) → IsLine line → c_string (padded_line (ended line)) ≡ some (ended line)
c_string-padded_line line h =
    let k = max - length (ended line) in
    let filled : replicate {A = ℕ} k 0 ≡ 0 ∷ replicate (k - 1) 0 =
      replicate_pos k
        (let short = h.short in let len = length-append line (10 ∷ []) in omega arith) in
    ap (λ l. c_string (ended line ++ l)) filled
    ∙ c_string-append (ended line) (replicate (k - 1) 0)
        (All-append IsNonzero line (10 ∷ []) h.text_lem (omega arith, tt))

module _ (net : Net) {sock : ℤ} (link : Link net.os sock) (keys : Keyboard net link) where
  -- a write, and a read of a whole buffer
  Types-write :
      {s : net.State} {more left sent : List ℕ} (bs : List ℕ)
      → Writes net link
      → keys.typed s ≡ more
      → At link s left sent
      → Types net link keys (call (net.write sock bs)) s (pos (length bs)) more left (sent ++ bs)
  Types-write {s} bs writes t at =
      let (s', e, l, o) = writes bs s in
      record {
        run = record {
          final = s';
          runs = rw e refl;
          at = record { left_lem = l ∙ at.left_lem; sent_lem = o ∙ ap (λ x. x ++ bs) at.sent_lem };
        };
        typed_lem = ap (λ p. keys.typed p.1) (sym e) ∙ keys.write_lem bs s ∙ t;
      }

  Types-read_buff :
      {s : net.State} {more left sent : List ℕ} (buff : List ℕ)
      → Prompt link
      → length buff ≡ max
      → keys.typed s ≡ more
      → At link s (buff ++ left) sent
      → Types net link keys (read_at net sock zeros (pos 0) max) s (pos max, buff) more left sent
  unfolding read_at received_at ◌>>=◌
  Types-read_buff {s} {more} {left} buff prompt e t at =
      let (s', run, inc, out) = prompt s buff left (omega arith) at.left_lem in
      let stored : store_at zeros (pos 0) buff ≡ some (buff ++ drop (length buff) zeros) =
        store_at-append [] zeros buff (omega arith) in
      let whole : buff ++ drop (length buff) zeros ≡ buff =
        ap (λ k. buff ++ drop k zeros) e ∙ append-nil buff in
      rw (← e) (record {
        run = record {
          final = s';
          runs = rw run (rw stored (rw whole refl));
          at = record { left_lem = inc; sent_lem = out ∙ at.sent_lem };
        };
        typed_lem = ap (λ p. keys.typed p.1) (sym run) ∙ keys.read_lem (length buff) s ∙ t;
      })

  -- A line of 80 bytes or more, or the end of the input before the end of a line, makes the client
  -- store a byte behind its buffer: the loop that reads the line has no other end.
  pub client_round-overflow :
      (s : net.State) → All IsInLine (take max (keys.typed s)) → (client_round net sock s).0 ≡ fault
  unfolding client_round
  client_round-overflow s h = Fault-first _ _ s (read_line-overflow net link keys max s [] h)

  -- A buffer of 80 bytes that has no NUL makes the server read past the end of its own, as it prints
  -- it for a string. A read hands over the whole buffer.
  server_round-unterminated :
      (s : net.State) (buff left sent : List ℕ)
      → Prompt link
      → length buff ≡ max
      → All IsNonzero buff
      → At link s (buff ++ left) sent
      → (server_round net sock s).0 ≡ fault
  unfolding server_round
  server_round-unterminated s buff left sent prompt len h at =
      let r = (Types-read_buff buff prompt len refl at).run in
      Ends-bind _ _ s r.final (pos max, buff) fault r.runs
        (Fault-first _ _ r.final (rw (c_string-unterminated buff h) refl))

  module _ (prompt : Prompt link) (writes : Writes net link) where
    -- a round in which each side types a line: whether it is the last, to both sides
    pub Types-client_round :
        {s : net.State} {left sent : List ℕ} (mine answer more : List ℕ)
        → IsLine mine
        → IsLine answer
        → keys.typed s ≡ mine ++ 10 ∷ more
        → At link s (padded_line (ended answer) ++ left) sent
        → Types net link keys
            (client_round net sock)
            s
            (is_exit (padded_line (ended answer)))
            more
            left
            (sent ++ padded_line (ended mine))
    unfolding client_round
    Types-client_round {s} mine answer more m a e at =
        let buff = padded_line (ended answer) in
        Types-bind net link keys _
          (Types-read_line net link keys max [] mine more m.keys_lem
            (let short = m.short in omega arith) e at)
          λ s1 t1 at1.
            Types-bind net link keys _ (Types-write (padded_line (ended mine)) writes t1 at1)
              λ s2 t2 at2.
                Types-bind net link keys _
                  (Types-read_buff buff prompt (length-padded_line answer a.short) t2 at2)
                  λ s3 t3 at3. rw (c_string-padded_line answer a) (
                    Types-pass net link keys (ended answer) _
                      (Types-pure net link keys (is_exit buff) t3 at3))

    pub Types-server_round :
        {s : net.State} {left sent : List ℕ} (theirs mine more : List ℕ)
        → IsLine theirs
        → IsLine mine
        → keys.typed s ≡ mine ++ 10 ∷ more
        → At link s (padded_line (ended theirs) ++ left) sent
        → Types net link keys
            (server_round net sock)
            s
            (is_exit (padded_line (ended mine)))
            more
            left
            (sent ++ padded_line (ended mine))
    unfolding server_round
    Types-server_round {s} theirs mine more t m e at =
        let buff = padded_line (ended mine) in
        Types-bind net link keys _
          (Types-read_buff (padded_line (ended theirs)) prompt (length-padded_line theirs t.short) e
            at)
          λ s1 t1 at1. rw (c_string-padded_line theirs t) (
            Types-pass net link keys (ended theirs) _ (
              Types-bind net link keys _
                (Types-read_line net link keys max [] mine more m.keys_lem
                  (let short = m.short in omega arith) t1 at1)
                λ s2 t2 at2.
                  Types-bind net link keys _ (Types-write buff writes t2 at2)
                    λ s3 t3 at3. Types-pure net link keys (is_exit buff) t3 at3))
