-- ===== src/Client/Examples.antt =====
-- Runs of the functions of src/aux_rcli.c against a scripted server that sends a byte at a time.
use c2r.Common.{
  take_nil, drop_nil, ap, ◌∙◌, ℤ, suc, min, take, drop, ◌≡◌, inr, refl, ℕ, List, [], ◌∷◌, ◌++◌,
  none, some, true, false, pos, codes, arith, is_neg, is_nonpos, word_of,
}
use c2r.Os.Script.{Peer, peer, script, script_link}
use c2r.Os.Clean.{Clean}
use c2r.Os.Link.{Runs}
use c2r.Wire.{Phdr, phdr_bytes, valid}
use c2r.Wire.Constants.{cmd_eval, cmd_shutdown}
use c2r.Client.{
  exec_str, get_buf_from_sock, fill_buf, read_loop, read_some, received, rconnect, set_timeout,
  check_id, server_id,
}
use c2r.Client.Transfer.{filled, get_buf_from_sock-want}
use c2r.Client.Exec.{request, reply, exec_str-reply}
use c2r.Client.Errors.{exec_str-other_type}
use c2r.Client.Connect.{Greeted, rconnect-Greeted}
use c2r.Os.{got}
use c2r.Os.Actions.{ok, err, bad, at_eof, ◌>>=◌}
use c2r.Os.Fails.{Fails}
use c2r.Wire.Header.{IsPhdr, request_hdr}
use c2r.Client.Closing.{Closes, get_buf_from_sock-Closes}
use c2r.Client.Greeting.{Connects, rconnect-Connects}
use c2r.Client.Session.{Exchange, IsAnswered, replies, requests, exec_each, exec_each-replies}
use c2r.Client.Status.{exec_str-Clean}

abbrev ph : Phdr
ph = record { cmd = 0x10001; len = 12; msg_id = 0; res = 0 }

abbrev one_int : Peer
one_int = peer (reply ph 0x80a 0x420 (7 ∷ 0 ∷ 0 ∷ 0 ∷ []) (99 ∷ [])) 0

exec_str-reply_example :
    Runs
      (script_link (pos 3))
      (exec_str script (pos 3) (some (codes "x")) true (pos 32))
      one_int
      (some (7 ∷ 0 ∷ 0 ∷ 0 ∷ []))
      (99 ∷ [])
      ([] ++ request cmd_eval (codes "x"))
exec_str-reply_example =
    exec_str-reply (script_link (pos 3)) (codes "x") (pos 32) ph 0x80a 0x420 32 (7 ∷ 0 ∷ 0 ∷ 0 ∷ [])
      refl (omega arith)
      (record {
        header = record {
          cmd = omega arith;
          len = omega arith;
          msg_id = omega arith;
          res = omega arith;
        };
        len = refl;
        small = omega arith;
        is_sexp = refl;
        typed = refl;
      })
      (inr refl) (record { left_lem = refl; sent_lem = refl })

exec_str-Clean_example : Clean (exec_str script (pos 3) none true (pos 32))
exec_str-Clean_example = exec_str-Clean script (λ n s. refl) (pos 3) none true (pos 32)

get_buf_from_sock-want_example :
    Runs
      (script_link (pos 3))
      (get_buf_from_sock script (pos 3) valid (pos 3))
      (peer ((1 ∷ 2 ∷ 3 ∷ []) ++ 4 ∷ []) 1)
      (filled (1 ∷ 2 ∷ 3 ∷ []))
      (4 ∷ [])
      []
get_buf_from_sock-want_example =
    get_buf_from_sock-want (script_link (pos 3)) (1 ∷ 2 ∷ 3 ∷ []) 3 refl refl (omega arith)
      (omega arith) (record { left_lem = refl; sent_lem = refl })

ph_words : IsPhdr ph
ph_words = record { cmd = omega arith; len = omega arith; msg_id = omega arith; res = omega arith }

exec_str-other_type_example :
    Fails
      (script_link (pos 3))
      (exec_str script (pos 3) (some (codes "x")) true (pos 33))
      one_int
      bad
      ((7 ∷ 0 ∷ 0 ∷ 0 ∷ []) ++ 99 ∷ [])
      ([] ++ request cmd_eval (codes "x"))
exec_str-other_type_example =
    exec_str-other_type (script_link (pos 3)) (99 ∷ []) (codes "x") 33 ph 0x80a 0x420 32
      (7 ∷ 0 ∷ 0 ∷ 0 ∷ []) refl (omega arith)
      (record { header = ph_words; len = refl; small = omega arith; is_sexp = refl; typed = refl })
      (omega arith) (record { left_lem = refl; sent_lem = refl })

abbrev greeting : Peer
greeting = peer (server_id ++ (codes "--------------------" ++ 99 ∷ [])) 6

connects :
    rconnect script (some (codes "127.0.0.1")) (pos 6311) (pos 0) (pos 0) greeting
    ≡ (ok (pos 3), peer (99 ∷ []) 6)
unfolding rconnect set_timeout check_id get_buf_from_sock fill_buf read_loop read_some received
    ◌>>=◌
connects = refl

rconnect-Greeted_example :
    (host : List ℕ) × (t : Peer) × (some (codes "127.0.0.1") ≡ some host)
    × (is_neg (script.inet_pton host).0 ≡ false)
    × (is_nonpos (pos 6311) ≡ false)
    × (pos 3 ≡ (script.socket greeting).0)
    × (is_neg (pos 3) ≡ false)
    × (is_neg
          (script.connect
            (pos 3)
            (word_of 16 (pos 6311))
            (script.inet_pton host).1
            (script.socket greeting).1).0
        ≡ false)
    × Greeted script (pos 3) t (peer (99 ∷ []) 6)
rconnect-Greeted_example =
    rconnect-Greeted script (some (codes "127.0.0.1")) (pos 6311) (pos 0) (pos 0) (pos 3) greeting
      (peer (99 ∷ []) 6) connects

-- the state behind the request to shut down
abbrev asked : Peer
asked = record (peer [] 0) { outgoing = phdr_bytes (request_hdr cmd_shutdown 0) }

sends : script.send (pos 3) (phdr_bytes (request_hdr cmd_shutdown 0)) (peer [] 0) ≡ (pos 16, asked)
unfolding phdr_bytes
sends = refl

at_end : received (got []) ≡ err at_eof
unfolding received
at_end = refl

script-Closes : (sock : ℤ) → Closes (script_link sock)
script-Closes sock n p e =
    let k = min n (suc p.chunk) in
    (
      record p { incoming = drop k p.incoming },
      ap (λ bs. (got bs, record p { incoming = drop k p.incoming })) (ap (take k) e ∙ take_nil k),
      ap (drop k) e ∙ drop_nil k,
      refl,
    )

get_buf_from_sock-Closes_example :
    Fails
      (script_link (pos 3))
      (get_buf_from_sock script (pos 3) valid (pos 5))
      (peer (1 ∷ 2 ∷ 3 ∷ []) 1)
      at_eof
      []
      []
get_buf_from_sock-Closes_example =
    get_buf_from_sock-Closes (script_link (pos 3)) 5 (1 ∷ 2 ∷ 3 ∷ []) (script-Closes (pos 3)) refl
      (omega arith) (omega arith) (record { left_lem = refl; sent_lem = refl })

abbrev one_exchange : Exchange
one_exchange = record {
  str = codes "x";
  expected_xt = pos 32;
  ph = ph;
  dt = 0x80a;
  w = 0x420;
  xt = 32;
  out = 7 ∷ 0 ∷ 0 ∷ 0 ∷ [];
}

one_exchange-IsAnswered : IsAnswered one_exchange
one_exchange-IsAnswered = record {
  short = omega arith;
  is_reply = record {
    header = ph_words;
    len = refl;
    small = omega arith;
    is_sexp = refl;
    typed = refl;
  };
  accepted = inr refl;
}

exec_each-replies_example :
    Runs
      (script_link (pos 3))
      (exec_each script (pos 3) (one_exchange ∷ one_exchange ∷ []))
      (peer (replies (one_exchange ∷ one_exchange ∷ []) (99 ∷ [])) 4)
      (some (7 ∷ 0 ∷ 0 ∷ 0 ∷ []) ∷ some (7 ∷ 0 ∷ 0 ∷ 0 ∷ []) ∷ [])
      (99 ∷ [])
      ([] ++ requests (one_exchange ∷ one_exchange ∷ []))
exec_each-replies_example =
    exec_each-replies (script_link (pos 3)) (one_exchange ∷ one_exchange ∷ []) refl
      (one_exchange-IsAnswered, (one_exchange-IsAnswered, tt))
      (record { left_lem = refl; sent_lem = refl })

script-Connects : (port addr : ℕ) → Connects (script_link (pos 3)) port addr
script-Connects port addr = record {
  socket_lem = λ p. (p, refl, refl, refl);
  connect_lem = λ p. (p, refl, refl, refl);
  setsockopt_lem = λ opt p. (p, refl, refl, refl);
}

rconnect-Connects_example :
    Runs
      (script_link (pos 3))
      (rconnect script (some (codes "127.0.0.1")) (pos 6311) (pos 0) (pos 5))
      greeting
      (pos 3)
      (99 ∷ [])
      []
rconnect-Connects_example =
    rconnect-Connects (script_link (pos 3)) (codes "127.0.0.1") (pos 6311) (pos 0) (pos 5)
      (server_id ++ codes "--------------------") refl refl refl (script-Connects 6311 0x0100007f)
      refl refl (record { left_lem = refl; sent_lem = refl })
