-- ===== src/Samples/Echo/Progress.antt =====
-- That the two programs of the benchmark go on, and how long.
use c2r.Common.{
  some, ℕ, ◌≢◌, take, zero, suc, ◌+◌, ◌-◌, ◌*◌, ◌%◌, ◌^◌, ◌≤◌, ◌<◌, ◌≡◌, refl, sym, ap, ◌∙◌, ◌⊎◌,
  inl, inr, List, [], ◌++◌, pos, length, drop, replicate, le32, length-replicate, append-nil, arith,
  ltb-false, lt→ltb, word_of,
}
use native.Mathlib.Decide.{dec_lt}
use c2r.Query.{int_at}
use c2r.Query.Replies.{int_at-le32}
use c2r.Samples.Transfer.{store_at-append}
use c2r.Samples.MyClient.{message}
use c2r.Samples.MyClient.Reply.{request, reply}
use c2r.Samples.Echo.{
  World, c_write, c_size, c_read, s_size, s_read, Chunk, ClientStep, ServerStep, Step, by_client,
  by_server, Run, IsWhole, IsWholeRun, c_ended, start,
}
use c2r.Samples.Echo.Phases.{Sized, Half, Phase, idle, sent, filling, answered, draining}
use c2r.Samples.Echo.Reached.{Run-Reached, Run-Active}
use c2r.Samples.Echo.Messages.{message-request, converted, size-valid}
use c2r.Samples.Echo.Steps.{Chunk-stored}

-- As long as the client has not ended, a run in which nothing goes wrong is short: with buffers of n
-- bytes, 4 ≤ n < 2^31, that the server's holds, a run of so many rounds has at most 2 n + 5 steps in
-- each, in whatever order and pieces. The condition is that each message is written whole, that the 4
-- bytes of a size come in one read, as neither program looks at its result, and that no call fails.
pub Run-bounded :
    (rounds n : ℕ) (rcvbuf buf : List ℕ)
    → 4 ≤ n
    → n < 2 ^ 31
    → length rcvbuf ≡ n
    → n ≤ length buf
    → {steps : ℕ} {w : World} (run : Run (start rounds rcvbuf buf) steps w) → IsWholeRun run
    → w.client ≢ c_ended
    → steps ≤ rounds * (2 * n + 5)
Run-bounded rounds n rcvbuf buf low small len fits run wh on =
    let reached = Run-Active rounds n rcvbuf buf low small len fits run wh on in
    let count = reached.count in omega arith

-- a next step in which nothing goes wrong
abbrev pub Goes : World → Type 0
Goes w = (w' : World) × (st : Step w w') × IsWhole st

rounds-cases : (r : ℕ) → (r ≡ 0) ⊎ ((m : ℕ) × (r ≡ suc m))
rounds-cases zero = inl refl
rounds-cases (suc m) = inr (m, refl)

lt_or_ge : (a b : ℕ) → (a < b) ⊎ (b ≤ a)
lt_or_ge a b = elim (dec_lt a b) [ yes lt ↦ inl lt | no ge ↦ inr (omega arith) ]

module _ {w : World} {n : ℕ} (sz : Sized w n) where
  idle-moves : w.client ≡ c_write → w.server ≡ s_size → w.up ≡ [] → w.down ≡ [] → Goes w
  idle-moves c s u d =
      let m : message w.size ≡ some (request n) =
        ap message sz.size_lem ∙ message-request n sz.low in
      let int : int_at (request n) ≡ some (pos n) = int_at-le32 n (replicate (n - 4) 1) sz.small in
      elim (rounds-cases w.rounds) [
        | inl e ↦ (_, by_client (ClientStep.ends c e refl), tt)
        | inr p ↦ (
          _,
          by_client (
              ClientStep.writes p.0 (request n) (request n) [] (pos n) c p.1 m int
                (size-valid sz.low sz.small sz.size_lem m int) (sym (append-nil (request n))) refl),
          refl,
        )
      ]

  sent-moves : w.server ≡ s_size → w.up ≡ request n → Goes w
  sent-moves s u = (
    _,
    by_server (
        ServerStep.reads_size (le32 n) (replicate (n - 4) 1) (le32 n ++ drop 4 w.buf) (pos n) s u
          (omega arith) (store_at-append [] w.buf (le32 n) (omega (arith, sz.low, sz.fits)))
          (int_at-le32 n (drop 4 w.buf) sz.small) refl),
    refl,
  )

  answered-moves : w.client ≡ c_size → w.down ≡ reply n → Goes w
  answered-moves c d = (
    _,
    by_client (
        ClientStep.reads_size (le32 n) (replicate (n - 4) 2) (le32 n ++ drop 4 w.rcvbuf) (pos n) c d
          (omega arith)
          (store_at-append [] w.rcvbuf (le32 n) (omega (arith, sz.low, sz.rcvbuf_lem)))
          (int_at-le32 n (drop 4 w.rcvbuf) sz.small) refl),
    refl,
  )

  -- all that is in a queue, as one piece
  rest_of :
      (buf queue : List ℕ) (k b : ℕ)
      → k < n
      → Half buf queue k b n
      → Chunk queue (word_of 64 (pos n)) (replicate (n - k) b) []
  rest_of buf queue k b lt h =
      let len : length (replicate (n - k) b) ≡ n - k = length-replicate {A = ℕ} (n - k) b in
      let small = sz.small in
      record {
        split = h.queue_lem ∙ sym (append-nil (replicate (n - k) b));
        some_bytes = omega (arith, len);
        few = (let e : length (replicate (n - k) b) ≤ n % 2 ^ 64 = omega (arith, len) in e);
      }

  filling-moves : (k : ℕ) → w.server ≡ s_read (pos k) (pos n) → Half w.buf w.up k 1 n → Goes w
  filling-moves k s h = elim (lt_or_ge k n) [
    | inl lt ↦
        let c = rest_of w.buf w.up k 1 lt h in
        (
          _,
          by_server (
              ServerStep.reads (pos k) (pos n) (replicate (n - k) 1) [] _ s (lt→ltb k n lt) c
                (Chunk-stored w.buf (replicate (n - k) 1) sz.fits h c) refl),
          tt,
        )
    | inr ge ↦ (
      _,
      by_server (
          ServerStep.answers (pos k) (pos n) (replicate (n - 4) 2 ++ h.room)
            (take (word_of 31 (pos n)) (take 4 w.buf ++ (replicate (n - 4) 2 ++ h.room))) [] s
            (ltb-false k n ge) (converted (pos n) h (let most = h.most in omega arith) refl)
            (sym (append-nil _)) refl),
      refl,
    )
  ]

  draining-moves :
      (r k : ℕ)
      → w.rounds ≡ suc r
      → w.client ≡ c_read (pos k) (pos n)
      → Half w.rcvbuf w.down k 2 n
      → Goes w
  draining-moves r k e c' h = elim (lt_or_ge k n) [
    | inl lt ↦
        let c = rest_of w.rcvbuf w.down k 2 lt h in
        (
          _,
          by_client (
              ClientStep.reads (pos k) (pos n) (replicate (n - k) 2) [] _ c' (lt→ltb k n lt) c
                (Chunk-stored w.rcvbuf (replicate (n - k) 2) (omega (arith, sz.rcvbuf_lem)) h c)
                refl),
          tt,
        )
    | inr ge ↦
        (_, by_client (ClientStep.ends_round (pos k) (pos n) r c' (ltb-false k n ge) e refl), tt)
  ]

Phase-moves : {w : World} {n : ℕ} → Sized w n → Phase w n → Goes w
Phase-moves sz (idle c s u d) = idle-moves sz c s u d
Phase-moves sz (sent r e c s u d) = sent-moves sz s u
Phase-moves sz (filling r k e c s h d) = filling-moves sz k s h
Phase-moves sz (answered r e c s u d) = answered-moves sz c d
Phase-moves sz (draining r k e c s u h) = draining-moves sz r k e c h

-- No deadlock: with buffers of n bytes, 4 ≤ n < 2^31, that the server's holds, after every run in which
-- nothing goes wrong (each message written whole, the 4 bytes of each size in one read, and no call
-- that fails) the client has ended, or some step can follow in which nothing goes wrong.
pub Run-moves :
    (rounds n : ℕ) (rcvbuf buf : List ℕ)
    → 4 ≤ n
    → n < 2 ^ 31
    → length rcvbuf ≡ n
    → n ≤ length buf
    → {steps : ℕ} {w : World} (run : Run (start rounds rcvbuf buf) steps w) → IsWholeRun run
    → (w.client ≡ c_ended) ⊎ Goes w
Run-moves rounds n rcvbuf buf low small len fits run wh =
    elim (Run-Reached rounds n rcvbuf buf low small len fits run wh) [
      | inl over ↦ inl over.0
      | inr a ↦ inr (Phase-moves a.sized a.phase)
    ]
