-- ===== src/Samples/Examples.antt =====
-- Runs of the benchmark: a round with messages of 6 bytes, in which the four bytes of the size come
-- alone; and either side where the other closes the connection.
use c2r.Common.{
  inr, inl, codes, true, ℕ, ◌+◌, ◌*◌, ◌≤◌, ◌≡◌, refl, ◌⊎◌, List, [], ◌∷◌, ◌++◌, some, arith, pos,
  drop, le32, replicate,
}
use c2r.Os.Actions.{try, ◌>>=◌, fault, ok, stuck, bad}
use c2r.Os.Link.{Runs}
use c2r.Os.Fails.{Fails}
use c2r.Query.{int_at}
use c2r.Samples.{store, store_at, read_at, received_at}
use c2r.Samples.Console.{console, net, link, net-Prompt, net-Closes, net-Writes}
use c2r.Samples.MyClient
use c2r.Samples.MyClient.{message, past_size, all_twos}
use c2r.Samples.MyClient.Reply.{request, reply, func-reply}
use c2r.Samples.MyClient.Closing.{func-Closes}
use c2r.Samples.MyServer.{to_twos, serve}
use c2r.Samples.MyServer.Serve.{serve-request, serve-Closes}
use c2r.Samples.Echo.{
  World, ClientAt, ServerAt, c_ended, IsWholeRun, c_read, s_read, s_exited, Chunk, ClientStep,
  ServerStep, by_client, by_server, Run, here, next, start,
}
use c2r.Samples.Echo.Progress.{Goes, Run-bounded, Run-moves}
use c2r.Samples.Echo.Safety.{server-goes_on, client_side, reads-fit, client-passes}

abbrev six : List ℕ
six = replicate 6 0

abbrev eight : List ℕ
eight = replicate 8 7

abbrev asked : World
asked = record (start 1 six eight) { client = ClientAt.c_size; up = request 6 }

asked-Run : Run (start 1 six eight) 1 asked
unfolding message int_at
asked-Run = next here (
    by_client
      (ClientStep.writes 0 (request 6) (request 6) [] (pos 6) refl refl refl refl refl refl refl))

abbrev sized : World
sized = record asked {
  server = s_read (pos 4) (pos 6);
  buf = le32 6 ++ replicate 4 7;
  up = 1 ∷ 1 ∷ [];
}

sized-Run : Run (start 1 six eight) 2 sized
unfolding store_at store int_at
sized-Run = next asked-Run (
    by_server (
      ServerStep.reads_size (le32 6) (1 ∷ 1 ∷ []) _ (pos 6) refl refl (omega arith) refl refl refl))

-- one byte at a time
abbrev one_byte : World
one_byte = record sized {
  server = s_read (pos 5) (pos 6);
  buf = le32 6 ++ 1 ∷ replicate 3 7;
  up = 1 ∷ [];
}

piece : (b : ℕ) (rest : List ℕ) → Chunk (b ∷ rest) 6 (b ∷ []) rest
piece b rest = record { split = refl; some_bytes = omega arith; few = omega arith }

one_byte-Run : Run (start 1 six eight) 3 one_byte
unfolding store_at store
one_byte-Run = next sized-Run (
    by_server
      (ServerStep.reads (pos 4) (pos 6) (1 ∷ []) (1 ∷ []) _ refl refl (piece 1 (1 ∷ [])) refl refl))

abbrev answered : World
answered = record one_byte {
  server = ServerAt.s_size;
  buf = reply 6 ++ 7 ∷ 7 ∷ [];
  up = [];
  down = reply 6;
}

answered-Run : Run (start 1 six eight) 5 answered
unfolding store_at store to_twos
answered-Run =
    next
      (next one_byte-Run (
        by_server
          (ServerStep.reads (pos 5) (pos 6) (1 ∷ []) [] _ refl refl (piece 1 []) refl refl)))
      (by_server (
        ServerStep.answers (pos 6) (pos 6) (2 ∷ 2 ∷ 7 ∷ 7 ∷ []) (reply 6) [] refl refl refl refl
          refl))

abbrev draining : World
draining = record answered {
  client = c_read (pos 5) (pos 6);
  rcvbuf = le32 6 ++ 2 ∷ 0 ∷ [];
  down = 2 ∷ [];
}

draining-Run : Run (start 1 six eight) 7 draining
unfolding store_at store int_at
draining-Run =
    next
      (next answered-Run (
        by_client (
          ClientStep.reads_size (le32 6) (2 ∷ 2 ∷ []) _ (pos 6) refl refl (omega arith) refl refl
            refl)))
      (by_client (
        ClientStep.reads (pos 4) (pos 6) (2 ∷ []) (2 ∷ []) _ refl refl (piece 2 (2 ∷ [])) refl
          refl))

abbrev drained : World
drained = record draining { client = c_read (pos 6) (pos 6); rcvbuf = reply 6; down = [] }

drained-Run : Run (start 1 six eight) 8 drained
unfolding store_at store
drained-Run =
    next draining-Run
      (by_client (ClientStep.reads (pos 5) (pos 6) (2 ∷ []) [] _ refl refl (piece 2 []) refl refl))

-- Nothing goes wrong in these runs.
answered-IsWhole : IsWholeRun answered-Run
unfolding asked-Run sized-Run one_byte-Run answered-Run
answered-IsWhole = (((((tt, inl refl), inl refl), inl tt), inl tt), inl refl)

draining-IsWhole : IsWholeRun draining-Run
unfolding asked-Run sized-Run one_byte-Run answered-Run draining-Run
draining-IsWhole = (((((((tt, inl refl), inl refl), inl tt), inl tt), inl refl), inl refl), inl tt)

drained-IsWhole : IsWholeRun drained-Run
unfolding asked-Run sized-Run one_byte-Run answered-Run draining-Run drained-Run
drained-IsWhole =
    ((((((((tt, inl refl), inl refl), inl tt), inl tt), inl refl), inl refl), inl tt), inl tt)

Run-bounded_example : 8 ≤ 1 * (2 * 6 + 5)
Run-bounded_example =
    Run-bounded 1 6 six eight (omega arith) (omega arith) refl (omega arith) drained-Run
      drained-IsWhole (λ x. cc)

Run-moves_example : (drained.client ≡ c_ended) ⊎ Goes drained
Run-moves_example =
    Run-moves 1 6 six eight (omega arith) (omega arith) refl (omega arith) drained-Run
      drained-IsWhole

-- The client ends, and the server takes its last size for a new one and exits.
abbrev deserted : World
deserted = record drained { client = c_ended; server = s_exited; rounds = 0 }

deserted-Run : Run (start 1 six eight) 12 deserted
unfolding store_at store int_at
deserted-Run =
    next
      (next
        (next
          (next drained-Run
            (by_client (ClientStep.ends_round (pos 6) (pos 6) 0 refl refl refl refl)))
          (by_client (ClientStep.ends refl refl refl)))
        (by_server (ServerStep.reads_size [] [] _ (pos 6) refl refl (omega arith) refl refl refl)))
      (by_server (ServerStep.sees_end (pos 4) (pos 6) refl refl refl refl refl))

deserted-IsWhole : IsWholeRun deserted-Run
unfolding asked-Run sized-Run one_byte-Run answered-Run draining-Run drained-Run deserted-Run
deserted-IsWhole = ((((drained-IsWhole, inl tt), inl tt), inr refl), inl tt)

server-goes_on_example : deserted.client ≡ c_ended
server-goes_on_example =
    server-goes_on 1 6 six eight (omega arith) (omega arith) refl (omega arith) deserted-Run
      deserted-IsWhole refl

reads-fit_example : (buf' : List ℕ) × (store_at draining.rcvbuf (pos 5) (2 ∷ []) ≡ some buf')
reads-fit_example =
    reads-fit 1 6 six eight (omega arith) (omega arith) refl (omega arith) draining-Run
      draining-IsWhole client_side (pos 5) (pos 6) refl (piece 2 [])

client-passes_example :
    (drained.rcvbuf ≡ reply 6)
    × (all_twos (past_size (pos 6)) (drop 4 drained.rcvbuf) ≡ ok true)
    × (drained.down ≡ [])
client-passes_example =
    client-passes 1 6 six eight (omega arith) (omega arith) refl (omega arith) drained-Run
      drained-IsWhole refl refl

func-reply_example :
    Runs link
      (MyClient.func net 6 (pos 3) (request 6) six 6)
      (console (reply 6) [])
      (pos 0, reply 6)
      []
      ([] ++ request 6)
func-reply_example =
    func-reply net link 6 6 six net-Prompt net-Writes (omega arith) (omega arith) (omega arith) refl
      (record { left_lem = refl; sent_lem = refl })

func-Closes_example :
    (MyClient.func net 100 (pos 3) (request 6) six 6 (console (le32 6 ++ 2 ∷ []) [])).0 ≡ stuck
func-Closes_example =
    func-Closes net link net-Closes (console (le32 6 ++ 2 ∷ []) []) [] 100 6 six (2 ∷ []) net-Prompt
      net-Writes (omega arith) (omega arith) refl (omega arith)
      (record { left_lem = refl; sent_lem = refl })

serve-request_example :
    Runs link
      (serve net 6 (pos 3) eight 8)
      (console (request 6) [])
      (reply 6 ++ 7 ∷ 7 ∷ [])
      []
      ([] ++ reply 6)
serve-request_example =
    serve-request net link 6 6 eight net-Prompt net-Writes (omega arith) (omega arith) (omega arith)
      (omega arith) (record { left_lem = refl; sent_lem = refl })

serve-Closes_example :
    Fails link (serve net 1 (pos 3) (reply 6 ++ 7 ∷ 7 ∷ []) 8) (console [] []) bad [] []
serve-Closes_example =
    serve-Closes net link 1 6 (7 ∷ 7 ∷ []) net-Closes (omega arith) (omega arith) (omega arith)
      (omega arith) (record { left_lem = refl; sent_lem = refl })

-- the client of the benchmark, with messages of 8 bytes: one round
main_test :
    (MyClient.main net 9
      (codes "client" ∷ codes "--------" ∷ codes "-" ∷ [])
      (console (reply 8) [])).0
    ≡ ok (pos 0)
unfolding MyClient.main MyClient.prepare MyClient.count_arg MyClient.finish MyClient.run
    MyClient.iterate MyClient.func MyClient.round_trip MyClient.rcv_loop all_twos message read_at
    received_at store_at store int_at try ◌>>=◌
main_test = refl

-- two rounds, and a server that answers ahead: the second reply is read behind the first
ahead_test :
    (MyClient.main net 9
      (codes "client" ∷ codes "--------" ∷ codes "--" ∷ [])
      (console (reply 8 ++ reply 8) [])).0
    ≡ fault
unfolding MyClient.main MyClient.prepare MyClient.count_arg MyClient.finish MyClient.run
    MyClient.iterate MyClient.func MyClient.round_trip MyClient.rcv_loop all_twos message read_at
    received_at store_at store int_at try ◌>>=◌
ahead_test = refl

-- a size of 3 bytes, which does not hold the size
small_test :
    (MyClient.main net 9 (codes "client" ∷ codes "---" ∷ codes "-" ∷ []) (console (reply 8) [])).0
    ≡ fault
unfolding MyClient.main MyClient.prepare MyClient.count_arg MyClient.finish MyClient.run
    MyClient.iterate MyClient.func MyClient.round_trip MyClient.rcv_loop all_twos message read_at
    received_at store_at store int_at try ◌>>=◌
small_test = refl
