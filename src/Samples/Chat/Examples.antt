-- ===== src/Samples/Chat/Examples.antt =====
-- A round of the chat that is its last, and lines that its buffers do not hold.
use c2r.Common.{ℕ, ◌≡◌, refl, List, [], ◌∷◌, ◌++◌, pos, arith, codes}
use c2r.Os.Actions.{fault}
use c2r.Samples.Console.{console, net, link, net-Prompt, net-Writes, keyboard}
use c2r.Samples.Chat.{padded_line, client_round, server_round, chat}
use c2r.Samples.Chat.Lines.{Types}
use c2r.Samples.Chat.Session.{Turn, buffers, keys_of, asked_of, answer_of, chats-end}
use c2r.Samples.Chat.Rounds.{IsLine, ended, client_round-overflow}

abbrev hi : List ℕ
hi = codes "hi"

abbrev exit_line : List ℕ
exit_line = codes "exit"

hi-IsLine : IsLine hi
hi-IsLine = record {
  keys_lem = ((omega arith, omega arith), ((omega arith, omega arith), tt));
  text_lem = (omega arith, (omega arith, tt));
  short = omega arith;
}

exit_line-IsLine : IsLine exit_line
exit_line-IsLine = record {
  keys_lem = (
    (omega arith, omega arith),
    ((omega arith, omega arith), ((omega arith, omega arith), ((omega arith, omega arith), tt))),
  );
  text_lem = (omega arith, (omega arith, (omega arith, (omega arith, tt))));
  short = omega arith;
}

-- "exit" ends the chat only on the server's side: the client's side types it first
abbrev going : Turn
going = record { asked = exit_line; answer = hi }

abbrev last : Turn
last = record { asked = hi; answer = exit_line }

chats-end_example :
    Types net link keyboard
      (chat net 2 (client_round net (pos 3)))
      (console
        (buffers answer_of (going ∷ []) (padded_line (ended exit_line)))
        (keys_of asked_of (going ∷ []) (hi ++ 10 ∷ [])))
      tt
      []
      []
      ([] ++ buffers asked_of (going ∷ []) (padded_line (ended hi)))
    × Types net link keyboard
        (chat net 2 (server_round net (pos 3)))
        (console
          (buffers asked_of (going ∷ []) (padded_line (ended hi)))
          (keys_of answer_of (going ∷ []) (exit_line ++ 10 ∷ [])))
        tt
        []
        []
        ([] ++ buffers answer_of (going ∷ []) (padded_line (ended exit_line)))
chats-end_example =
    chats-end net net link link keyboard keyboard 2 (going ∷ []) last _ _ [] [] [] [] [] []
      net-Prompt net-Prompt net-Writes net-Writes (omega arith)
      ((exit_line-IsLine, hi-IsLine, refl), tt) (hi-IsLine, exit_line-IsLine, refl) refl refl
      (record { left_lem = refl; sent_lem = refl }) (record { left_lem = refl; sent_lem = refl })

client_round-overflow_example : (client_round net (pos 3) (console [] (hi ++ hi))).0 ≡ fault
client_round-overflow_example = client_round-overflow net link keyboard (console [] (hi ++ hi)) (
  (omega arith, omega arith),
  ((omega arith, omega arith), ((omega arith, omega arith), ((omega arith, omega arith), tt))),
)
