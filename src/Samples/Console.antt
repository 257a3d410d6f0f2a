-- ===== src/Samples/Console.antt =====
-- A concrete system for tests: a connection that never cuts a message, ample memory, and a keyboard.
-- Its `atoi` gives the length of the text.
use c2r.Common.{
  ℕ, ◌^◌, refl, sym, ap, ◌∙◌, List, [], ◌∷◌, ◌++◌, ℤ, pos, negsuc, length, take, drop, replicate,
  ltb, lt→ltb, arith, length-take, take-append, drop-append, take-append-drop, take_nil, drop_nil,
}
use c2r.Os.{got}
use c2r.Os.Script.{take-ne-nil}
use c2r.Os.Link.{Link, Prompt}
use c2r.Client.Closing.{Closes}
use c2r.Samples.{Net}
use c2r.Samples.Transfer.{Writes}
use c2r.Samples.Chat.Lines.{Keyboard}

pub record Console : Type 0 where
  pub incoming : List ℕ
  pub outgoing : List ℕ
  pub typed : List ℕ

-- at the start of a program that gets these bytes, with these to be typed
abbrev pub console : List ℕ → List ℕ → Console
console bytes keys = record { incoming = bytes; outgoing = []; typed = keys }

abbrev pub key : List ℕ → ℤ
key [] = negsuc 0
key (b ∷ keys) = pos b

abbrev pub net : Net
net = record {
  os = record {
    State = Console;
    read = λ fd n c. (got (take n c.incoming), record c { incoming = drop n c.incoming });
    send = λ fd bs c. (pos (length bs), record c { outgoing = c.outgoing ++ bs });
    close = λ fd c. (pos 0, c);
    socket = λ c. (pos 3, c);
    connect = λ fd port addr c. (pos 0, c);
    setsockopt = λ fd opt c. (pos 0, c);
    inet_pton = λ text. (pos 1, 0x0100007f);
    malloc = λ n c. (ltb n (2 ^ 63), c);
    posix_memalign = λ n c. (pos 0, c);
    atoi = λ text. pos (length text);
  };
  write = λ fd bs c. (pos (length bs), record c { outgoing = c.outgoing ++ bs });
  bind = λ fd port c. (pos 0, c);
  listen = λ fd n c. (pos 0, c);
  accept = λ fd c. (pos 4, c);
  fresh = λ n. replicate n 0;
  getchar = λ c. (key c.typed, record c { typed = drop 1 c.typed });
}

abbrev pub link : Link net.os (pos 3)
link = record {
  incoming = λ c. c.incoming;
  outgoing = λ c. c.outgoing;
  read_lem = λ n c h ne. (
    take n c.incoming,
    record c { incoming = drop n c.incoming },
    refl,
    take-ne-nil n c.incoming h ne,
    omega (arith, length-take n c.incoming),
    sym (take-append-drop n c.incoming),
    refl,
  );
  send_lem = λ bs c. (record c { outgoing = c.outgoing ++ bs }, refl, refl, refl);
  malloc_lem = λ n c h. (c, ap (λ b. (b, c)) (lt→ltb n (2 ^ 63) h), refl, refl);
  memalign_lem = λ n c h. (c, refl, refl, refl);
}

pub net-Prompt : Prompt link
net-Prompt c bs left h e = (
  record c { incoming = drop (length bs) c.incoming },
  ap (λ b. (got b, record c { incoming = drop (length bs) c.incoming }))
      (ap (take (length bs)) e ∙ take-append bs left),
  ap (drop (length bs)) e ∙ drop-append bs left,
  refl,
)

pub net-Closes : Closes link
net-Closes n c e = (
  record c { incoming = drop n c.incoming },
  ap (λ b. (got b, record c { incoming = drop n c.incoming })) (ap (take n) e ∙ take_nil n),
  ap (drop n) e ∙ drop_nil n,
  refl,
)

pub net-Writes : Writes net link
net-Writes bs c = (record c { outgoing = c.outgoing ++ bs }, refl, refl, refl)

abbrev pub keyboard : Keyboard net link
keyboard = record {
  typed = λ c. c.typed;
  key_lem = λ b more c e. (
    record c { typed = drop 1 c.typed },
    ap (λ k. (k, record c { typed = drop 1 c.typed })) (ap key e),
    ap (drop 1) e,
    refl,
    refl,
  );
  end_lem = λ c e. (
    record c { typed = drop 1 c.typed },
    ap (λ k. (k, record c { typed = drop 1 c.typed })) (ap key e),
    ap (drop 1) e,
  );
  read_lem = λ n c. refl;
  write_lem = λ bs c. refl;
}
