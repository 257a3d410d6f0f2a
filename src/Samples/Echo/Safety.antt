-- ===== src/Samples/Echo/Safety.antt =====
-- What holds in every state the two programs reach where nothing goes wrong: no byte is stored outside a
-- buffer, and every message passes the test of the program that gets it.
use c2r.Common.{
  ℕ, ◌-◌, ◌^◌, ◌≤◌, ◌<◌, ◌≡◌, ◌≢◌, inl, inr, refl, sym, ap, ◌∙◌, List, [], ◌∷◌, ◌++◌, some, true,
  false, ℤ, pos, length, drop, length-append, append-nil, arith, word_of,
}
use c2r.Os.Actions.{ok}
use c2r.Samples.{lt_int, store_at}
use c2r.Samples.MyClient.{past_size, all_twos}
use c2r.Samples.MyClient.Reply.{reply, length-reply, all_twos-replicate}
use c2r.Samples.Echo.{World, c_read, s_read, s_exited, c_ended, Chunk, Run, IsWholeRun, start}
use c2r.Samples.Echo.Phases.{Half, Phase, idle, sent, filling, answered, draining}
use c2r.Samples.Echo.Reached.{Run-Reached, Run-Active}
use c2r.Samples.Echo.Messages.{full, empty, whole, s_read_injective, c_read_injective}
use c2r.Samples.Echo.Steps.{Chunk-stored}

-- the two programs: whether one is in the loop that reads the rest of a message, its buffer, and what
-- is on the way to it
pub data Party : Type 0 where
  server_side client_side : Party

abbrev pub IsReading : Party → World → ℤ → ℤ → Type 0
IsReading server_side w k m = w.server ≡ s_read k m
IsReading client_side w k m = w.client ≡ c_read k m

abbrev pub buffer_of : Party → World → List ℕ
buffer_of server_side w = w.buf
buffer_of client_side w = w.rcvbuf

abbrev pub queue_of : Party → World → List ℕ
queue_of server_side w = w.up
queue_of client_side w = w.down

-- where a program stands in the loop that reads the rest of a message
record Reading (buf queue : List ℕ) (k m : ℤ) (b n : ℕ) : Type 0 where
  i : ℕ
  k_lem : k ≡ pos i
  m_lem : m ≡ pos n
  half : Half buf queue i b n

server-Reading :
    {w : World} {n : ℕ} (k m : ℤ) → Phase w n → w.server ≡ s_read k m → Reading w.buf w.up k m 1 n
server-Reading k m (idle c s u d) at = absurd cc
server-Reading k m (sent r e c s u d) at = absurd cc
server-Reading k m (filling r i e c s h d) at =
    let (k_is, m_is) = s_read_injective (sym at ∙ s) in
    record { i = i; k_lem = k_is; m_lem = m_is; half = h }
server-Reading k m (answered r e c s u d) at = absurd cc
server-Reading k m (draining r i e c s u h) at = absurd cc

client-Reading :
    {w : World} {n : ℕ} (k m : ℤ)
    → Phase w n
    → w.client ≡ c_read k m
    → Reading w.rcvbuf w.down k m 2 n
client-Reading k m (idle c s u d) at = absurd cc
client-Reading k m (sent r e c s u d) at = absurd cc
client-Reading k m (filling r i e c s h d) at = absurd cc
client-Reading k m (answered r e c s u d) at = absurd cc
client-Reading k m (draining r i e c s u h) at =
    let (k_is, m_is) = c_read_injective (sym at ∙ c) in
    record { i = i; k_lem = k_is; m_lem = m_is; half = h }

not-exited : {w : World} {n : ℕ} → Phase w n → w.server ≢ s_exited
not-exited (idle c s u d) x = cc
not-exited (sent r e c s u d) x = cc
not-exited (filling r i e c s h d) x = cc
not-exited (answered r e c s u d) x = cc
not-exited (draining r i e c s u h) x = cc

nil_of_length : {xs : List ℕ} → length xs ≡ 0 → xs ≡ []
nil_of_length {xs = []} e = refl
nil_of_length {xs = x ∷ xs} e = absurd (omega arith)

Reading-stored :
    {buf queue bs rest : List ℕ} {k m : ℤ} {b n limit : ℕ}
    → n ≤ length buf
    → Reading buf queue k m b n
    → Chunk queue limit bs rest
    → (buf' : List ℕ) × (store_at buf k bs ≡ some buf')
Reading-stored {buf} {bs} {k} fits r c =
    (_, ap (λ i. store_at buf i bs) r.k_lem ∙ Chunk-stored buf bs fits r.half c)

no-Chunk : {n : ℕ} {queue bs rest : List ℕ} → queue ≡ [] → Chunk queue n bs rest → ⊥
no-Chunk {bs = []} u c = absurd (let some_bytes = c.some_bytes in omega arith)
no-Chunk {bs = b ∷ bs} u c = let split = c.split in absurd cc

module _ (rounds n : ℕ) (rcvbuf buf : List ℕ) (low : 4 ≤ n) (small : n < 2 ^ 31)
    (len : length rcvbuf ≡ n) (fits : n ≤ length buf) {steps : ℕ} {w : World}
    (run : Run (start rounds rcvbuf buf) steps w) (wh : IsWholeRun run) where
  -- With buffers of n bytes, 4 ≤ n < 2^31, that the server's holds, the server does not call `exit`
  -- before the client has ended, where nothing goes wrong up to then: each message is written whole,
  -- the 4 bytes of a size come in one read, and no call fails. The size it reads is one it accepts, and
  -- all the bytes behind it are 1.
  pub server-goes_on : w.server ≡ s_exited → w.client ≡ c_ended
  server-goes_on x = elim (Run-Reached rounds n rcvbuf buf low small len fits run wh) [
    | inl over ↦ over.0
    | inr a ↦ absurd (not-exited a.phase x)
  ]

  -- With buffers of n bytes, 4 ≤ n < 2^31, that the server's holds, no `read` in the loop of the server
  -- or of the client, whatever piece of its queue it gives, stores a byte outside the buffer, where
  -- nothing has gone wrong before, up to the client's end: each message was written whole, the 4 bytes
  -- of each size came in one read, and no call failed.
  pub reads-fit :
      (p : Party) (k m : ℤ) {bs rest : List ℕ}
      → IsReading p w k m
      → Chunk (queue_of p w) (word_of 64 m) bs rest
      → (buf' : List ℕ) × (store_at (buffer_of p w) k bs ≡ some buf')
  reads-fit server_side k m at c =
      elim (Run-Reached rounds n rcvbuf buf low small len fits run wh) [
        | inl over ↦ absurd (no-Chunk over.1 c)
        | inr a ↦ Reading-stored a.sized.fits (server-Reading k m a.phase at) c
      ]
  reads-fit client_side k m at c =
      let a = Run-Active rounds n rcvbuf buf low small len fits run wh (λ x. cc) in
      let rcv = a.sized.rcvbuf_lem in
      Reading-stored (omega (arith, rcv)) (client-Reading k m a.phase at) c

  -- Whenever the client ends its loop, `rcvbuf` holds the size and n - 4 bytes of 2, and nothing else,
  -- so that the test that follows passes; nothing is left on the connection, for buffers of n bytes,
  -- 4 ≤ n < 2^31, that the server's holds, and where nothing has gone wrong: each message was written
  -- whole, the 4 bytes of each size came in one read, and no call failed.
  pub client-passes :
      {k m : ℤ}
      → w.client ≡ c_read k m
      → lt_int k m ≡ false
      → (w.rcvbuf ≡ reply n) × (all_twos (past_size m) (drop 4 w.rcvbuf) ≡ ok true) × (w.down ≡ [])
  client-passes {k} {m} at lt =
      let reached = Run-Active rounds n rcvbuf buf low small len fits run wh (λ x. cc) in
      let r = client-Reading k m reached.phase at in
      let end : n ≡ r.i =
        whole (ap (λ x. lt_int x (pos n)) (sym r.k_lem) ∙ ap (lt_int k) (sym r.m_lem) ∙ lt)
          r.half in
      let all : w.rcvbuf ≡ reply n ++ r.half.room = full r.half end in
      let rcv = reached.sized.rcvbuf_lem in
      let none : r.half.room ≡ [] = nil_of_length (
        omega
          (arith, rcv, ap length all, length-append (reply n) r.half.room, length-reply n 2 low)) in
      let whole_reply : w.rcvbuf ≡ reply n =
        all ∙ ap (λ l. reply n ++ l) none ∙ append-nil (reply n) in
      (whole_reply, rw (r.m_lem, whole_reply) (all_twos-replicate (n - 4)), empty r.half end)
