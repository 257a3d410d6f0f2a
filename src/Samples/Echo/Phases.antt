-- ===== src/Samples/Echo/Phases.antt =====
-- The five phases of a round, and what the buffers and the queues hold in each.
use c2r.Common.{
  ℕ, suc, ◌+◌, ◌-◌, ◌*◌, ◌^◌, ◌≤◌, ◌<◌, ◌≡◌, List, [], ◌++◌, pos, length, replicate, le32,
}
use c2r.Samples.MyClient.Reply.{request, reply}
use c2r.Samples.Echo.{World, c_write, c_size, c_read, c_ended, s_size, s_read}

-- the sizes of the buffers, as the start has them
pub record Sized (w : World) (n : ℕ) : Type 0 where
  pub low : 4 ≤ n
  pub small : n < 2 ^ 31
  pub size_lem : w.size ≡ n
  pub rcvbuf_lem : length w.rcvbuf ≡ n
  pub szbuf_lem : w.szbuf ≡ length w.buf
  pub fits : n ≤ length w.buf

-- A buffer holds the size, j of the n - 4 bytes b that follow it, and anything behind them; the
-- others are in the queue.
pub record Half (buf queue : List ℕ) (k b n : ℕ) : Type 0 where
  pub j : ℕ
  pub room : List ℕ
  pub k_lem : k ≡ 4 + j
  pub most : k ≤ n
  pub buf_lem : buf ≡ (le32 n ++ replicate j b) ++ room
  pub queue_lem : queue ≡ replicate (n - k) b

pub data Phase (w : World) (n : ℕ) : Type 0 where
  idle : w.client ≡ c_write → w.server ≡ s_size → w.up ≡ [] → w.down ≡ [] → Phase w n
  sent :
      (r : ℕ)
      → w.rounds ≡ suc r
      → w.client ≡ c_size
      → w.server ≡ s_size
      → w.up ≡ request n
      → w.down ≡ []
      → Phase w n
  filling :
      (r k : ℕ)
      → w.rounds ≡ suc r
      → w.client ≡ c_size
      → w.server ≡ s_read (pos k) (pos n)
      → Half w.buf w.up k 1 n
      → w.down ≡ []
      → Phase w n
  answered :
      (r : ℕ)
      → w.rounds ≡ suc r
      → w.client ≡ c_size
      → w.server ≡ s_size
      → w.up ≡ []
      → w.down ≡ reply n
      → Phase w n
  draining :
      (r k : ℕ)
      → w.rounds ≡ suc r
      → w.client ≡ c_read (pos k) (pos n)
      → w.server ≡ s_size
      → w.up ≡ []
      → Half w.rcvbuf w.down k 2 n
      → Phase w n

-- how many steps are left at most
abbrev pub left : {w : World} {n : ℕ} → Phase w n → ℕ
left {w} {n} (idle c s u d) = w.rounds * (2 * n + 5)
left {n} (sent r e c s u d) = r * (2 * n + 5) + (2 * n + 4)
left {n} (filling r k e c s h d) = r * (2 * n + 5) + (n + 2 + (n - k))
left {n} (answered r e c s u d) = r * (2 * n + 5) + (n + 1)
left {n} (draining r k e c s u h) = r * (2 * n + 5) + (1 + (n - k))

-- a phase after which fewer steps are left
pub record Later (w : World) (n bound : ℕ) : Type 0 where
  pub sized : Sized w n
  pub phase : Phase w n
  pub less : left phase < bound

-- The client has ended, and the server has taken all that it sent.
abbrev pub Ended : World → Type 0
Ended w = (w.client ≡ c_ended) × (w.up ≡ [])
