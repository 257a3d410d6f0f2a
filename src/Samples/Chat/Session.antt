-- ===== src/Samples/Chat/Session.antt =====
-- A whole chat: both programs leave it in the same round.
use c2r.Common.{
  ℕ, zero, suc, ◌<◌, ◌≡◌, List, [], ◌∷◌, ◌++◌, Bool, true, false, ℤ, length, arith, All,
  append_assoc,
}
use c2r.Os.Actions.{M}
use c2r.Os.Link.{Link, At, Prompt}
use c2r.Samples.{Net}
use c2r.Samples.Transfer.{Writes}
use c2r.Samples.Chat.{padded_line, is_exit, chat, client_round, server_round}
use c2r.Samples.Chat.Lines.{Keyboard, Types, Types-bind, Types-pure}
use c2r.Samples.Chat.Rounds.{IsLine, ended, Types-client_round, Types-server_round}

-- what the client's side types in a round, and the answer
pub record Turn : Type 0 where
  pub asked : List ℕ
  pub answer : List ℕ

-- the buffers that are sent, and the keys for them, in front of what is to follow
abbrev pub buffers : (Turn → List ℕ) → List Turn → List ℕ → List ℕ
buffers line [] left = left
buffers line (t ∷ ts) left = padded_line (ended (line t)) ++ buffers line ts left

abbrev pub keys_of : (Turn → List ℕ) → List Turn → List ℕ → List ℕ
keys_of line [] more = more
keys_of line (t ∷ ts) more = line t ++ 10 ∷ keys_of line ts more

abbrev pub asked_of : Turn → List ℕ
asked_of t = t.asked

abbrev pub answer_of : Turn → List ℕ
answer_of t = t.answer

abbrev pub IsTurn : Bool → Turn → Type 0
IsTurn last t = IsLine t.asked × IsLine t.answer × (is_exit (padded_line (ended t.answer)) ≡ last)

-- One side of a chat, by its rounds: `mine` is what is typed and sent, `theirs` what comes.
module _ (net : Net) {sock : ℤ} (link : Link net.os sock) (keys : Keyboard net link) where
  module _ (mine theirs : Turn → List ℕ) (round : M net.State Bool) where
    abbrev Rounds : Type 0
    Rounds =
        (t : Turn) (last : Bool) (s : net.State) (more left sent : List ℕ)
        → IsTurn last t
        → keys.typed s ≡ mine t ++ 10 ∷ more
        → At link s (padded_line (ended (theirs t)) ++ left) sent
        → Types net link keys round s last more left (sent ++ padded_line (ended (mine t)))

    Types-chat :
        (rounds : ℕ) (ts : List Turn) (t : Turn) (s : net.State) (more left sent : List ℕ)
        → Rounds
        → length ts < rounds
        → All (IsTurn false) ts
        → IsTurn true t
        → keys.typed s ≡ keys_of mine ts (mine t ++ 10 ∷ more)
        → At link s (buffers theirs ts (padded_line (ended (theirs t)) ++ left)) sent
        → Types net link keys
            (chat net rounds round)
            s
            tt
            more
            left
            (sent ++ buffers mine ts (padded_line (ended (mine t))))
    unfolding chat
    Types-chat zero ts t s more left sent each few going last e at = absurd (omega arith)
    Types-chat (suc rounds) [] t s more left sent each few going last e at =
        Types-bind net link keys _ (each t true s more left sent last e at)
          λ s1 t1 at1. Types-pure net link keys tt t1 at1
    Types-chat (suc rounds) (u ∷ ts) t s more left sent each few going last e at =
        rw
          (← append_assoc sent (padded_line (ended (mine u)))
            (buffers mine ts (padded_line (ended (mine t)))))
          (Types-bind net link keys _ (each u false s _ _ sent going.0 e at) λ s1 t1 at1.
            Types-chat rounds ts t s1 more left (sent ++ padded_line (ended (mine u))) each
              (omega arith) going.1 last t1 at1)

  module _ (prompt : Prompt link) (writes : Writes net link) where
    client-Rounds : Rounds asked_of answer_of (client_round net sock)
    client-Rounds t last s more left sent (a, b, is_last) e at =
        rw (← is_last)
          (Types-client_round net link keys prompt writes t.asked t.answer more a b e at)

    server-Rounds : Rounds answer_of asked_of (server_round net sock)
    server-Rounds t last s more left sent (a, b, is_last) e at =
        rw (← is_last)
          (Types-server_round net link keys prompt writes t.asked t.answer more a b e at)

module _ (net net' : Net) {sock sock' : ℤ} (link : Link net.os sock) (link' : Link net'.os sock')
    (keys : Keyboard net link) (keys' : Keyboard net' link') where
  -- Both programs of the chat leave it after the same round, the first in which the server's side
  -- types a line that begins with "exit": where all lines have fewer than 80 bytes with their end and
  -- no NUL, and the connections, which hand over a buffer as one piece, carry to each side what the
  -- other sends, every line is sent, filled up with 0 to 80 bytes, in order, and nothing more is read
  -- or typed. Any number of rounds from that of the turns on may be looked at.
  pub chats-end :
      (rounds : ℕ) (ts : List Turn) (t : Turn) (s : net.State) (s' : net'.State)
      (more left sent more' left' sent' : List ℕ)
      → Prompt link
      → Prompt link'
      → Writes net link
      → Writes net' link'
      → length ts < rounds
      → All (IsTurn false) ts
      → IsTurn true t
      → keys.typed s ≡ keys_of asked_of ts (t.asked ++ 10 ∷ more)
      → keys'.typed s' ≡ keys_of answer_of ts (t.answer ++ 10 ∷ more')
      → At link s (buffers answer_of ts (padded_line (ended t.answer) ++ left)) sent
      → At link' s' (buffers asked_of ts (padded_line (ended t.asked) ++ left')) sent'
      → Types net link keys
          (chat net rounds (client_round net sock))
          s
          tt
          more
          left
          (sent ++ buffers asked_of ts (padded_line (ended t.asked)))
        × Types net' link' keys'
            (chat net' rounds (server_round net' sock'))
            s'
            tt
            more'
            left'
            (sent' ++ buffers answer_of ts (padded_line (ended t.answer)))
  chats-end rounds ts t s s' more left sent more' left' sent' prompt prompt' writes writes' few
        going last e e' at at' =
      (
        Types-chat net link keys asked_of answer_of (client_round net sock) rounds ts t s more left
            sent (client-Rounds net link keys prompt writes) few going last e at,
        Types-chat net' link' keys' answer_of asked_of (server_round net' sock') rounds ts t s'
            more' left' sent' (server-Rounds net' link' keys' prompt' writes') few going last e'
            at',
      )
