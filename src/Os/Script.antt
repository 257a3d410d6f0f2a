-- ===== src/Os/Script.antt =====
-- A concrete system for tests: a server whose bytes arrive in chunks, and ample memory.
use c2r.Common.{
  ℕ, zero, suc, ◌<◌, ◌≤◌, ◌≢◌, ◌^◌, List, [], ◌∷◌, ◌++◌, length, take, drop, min, ◌≡◌, refl, sym,
  ap, ℤ, pos, ltb, lt→ltb, arith, length-take, take-append-drop, take-append, drop-append, ◌∙◌,
}
use c2r.Os.{Os, got}
use c2r.Os.Link.{Link, Prompt}

pub record Peer : Type 0 where
  pub incoming : List ℕ
  pub outgoing : List ℕ
  pub closed : List ℤ
  -- a read takes this many bytes and one at most
  pub chunk : ℕ

-- a connection with these bytes to come
abbrev pub peer : List ℕ → ℕ → Peer
peer bytes chunk = record { incoming = bytes; outgoing = []; closed = []; chunk = chunk }

abbrev pub script : Os
script = record {
  State = Peer;
  read = λ fd n p.
      let k = min n (suc p.chunk) in
      (got (take k p.incoming), record p { incoming = drop k p.incoming });
  send = λ fd bs p. (pos (length bs), record p { outgoing = p.outgoing ++ bs });
  close = λ fd p. (pos 0, record p { closed = fd ∷ p.closed });
  socket = λ p. (pos 3, p);
  connect = λ fd port addr p. (pos 0, p);
  setsockopt = λ fd opt p. (pos 0, p);
  inet_pton = λ text. (pos 1, 0x0100007f);
  malloc = λ n p. (ltb n (2 ^ 63), p);
  posix_memalign = λ n p. (pos 0, p);
  atoi = λ text. pos 6311;
}

pub take-ne-nil : (n : ℕ) (xs : List ℕ) → 0 < n → xs ≢ [] → take n xs ≢ []
take-ne-nil n [] h ne e = ne refl
take-ne-nil (suc n) (x ∷ xs) h ne e = cc
take-ne-nil zero (x ∷ xs) h ne e = absurd (omega arith)

pub script-read :
    (sock : ℤ) (n : ℕ) (p : Peer)
    → 0 < n
    → p.incoming ≢ []
    → (bs : List ℕ) × (p' : Peer) × (script.read sock n p ≡ (got bs, p'))
      × (bs ≢ [])
      × (length bs ≤ n)
      × (p.incoming ≡ bs ++ p'.incoming)
      × (p'.outgoing ≡ p.outgoing)
script-read sock n p h ne =
    let k = min n (suc p.chunk) in
    (
      take k p.incoming,
      record p { incoming = drop k p.incoming },
      refl,
      take-ne-nil k p.incoming (omega arith) ne,
      omega (arith, length-take k p.incoming),
      sym (take-append-drop k p.incoming),
      refl,
    )

abbrev pub script_link : (sock : ℤ) → Link script sock
script_link sock = record {
  incoming = λ p. p.incoming;
  outgoing = λ p. p.outgoing;
  read_lem = script-read sock;
  send_lem = λ bs p. (record p { outgoing = p.outgoing ++ bs }, refl, refl, refl);
  malloc_lem = λ n p h. (p, ap (λ b. (b, p)) (lt→ltb n (2 ^ 63) h), refl, refl);
  memalign_lem = λ n p h. (p, refl, refl, refl);
}

-- the same, with a network that never cuts a message
abbrev pub eager : Os
eager = record script {
  State = Peer;
  read = λ fd n p. (got (take n p.incoming), record p { incoming = drop n p.incoming });
}

pub eager-read :
    (sock : ℤ) (n : ℕ) (p : Peer)
    → 0 < n
    → p.incoming ≢ []
    → (bs : List ℕ) × (p' : Peer) × (eager.read sock n p ≡ (got bs, p'))
      × (bs ≢ [])
      × (length bs ≤ n)
      × (p.incoming ≡ bs ++ p'.incoming)
      × (p'.outgoing ≡ p.outgoing)
eager-read sock n p h ne = (
  take n p.incoming,
  record p { incoming = drop n p.incoming },
  refl,
  take-ne-nil n p.incoming h ne,
  omega (arith, length-take n p.incoming),
  sym (take-append-drop n p.incoming),
  refl,
)

abbrev pub eager_link : (sock : ℤ) → Link eager sock
eager_link sock = record {
  incoming = λ p. p.incoming;
  outgoing = λ p. p.outgoing;
  read_lem = eager-read sock;
  send_lem = λ bs p. (record p { outgoing = p.outgoing ++ bs }, refl, refl, refl);
  malloc_lem = λ n p h. (p, ap (λ b. (b, p)) (lt→ltb n (2 ^ 63) h), refl, refl);
  memalign_lem = λ n p h. (p, refl, refl, refl);
}

pub eager-Prompt : (sock : ℤ) → Prompt (eager_link sock)
eager-Prompt sock p bs left h e = (
  record p { incoming = drop (length bs) p.incoming },
  ap (λ b. (got b, record p { incoming = drop (length bs) p.incoming }))
      (ap (take (length bs)) e ∙ take-append bs left),
  ap (drop (length bs)) e ∙ drop-append bs left,
  refl,
)
