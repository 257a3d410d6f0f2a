-- ===== src/Client/Greeting.antt =====
-- `rconnect` of src/aux_rcli.c where the system and the server play their part.
use c2r.Common.{
  ℕ, ◌≡◌, refl, ◌∙◌, List, ◌++◌, some, false, ℤ, pos, is_neg, is_nonpos, word_of, length, take,
  Bool-cases, inl, inr, arith,
}
use c2r.Os.{Os, SockOpt, tcp_nodelay, rcv_timeout, snd_timeout}
use c2r.Os.Actions.{bad, call}
use c2r.Os.Link.{Link, At, Runs, Runs-bind, Runs-pure, Runs-pass, Runs-guard}
use c2r.Client.{server_id, set_timeout, check_id, rconnect}
use c2r.Client.Transfer.{get_buf_from_sock-want}

module _ {os : Os} {sock : ℤ} (link : Link os sock) where
  -- a call that succeeds and moves no bytes
  abbrev pub Quiet : {A : Type 0} → (os.State → A × os.State) → A → Type 0
  Quiet f a =
      (s : os.State)
      → (s' : os.State) × (f s ≡ (a, s'))
        × (link.incoming s' ≡ link.incoming s)
        × (link.outgoing s' ≡ link.outgoing s)

  -- The calls that make a connection succeed, for a port and an address.
  pub record Connects (port addr : ℕ) : Type 0 where
    pub socket_lem : Quiet os.socket sock
    pub connect_lem : Quiet (os.connect sock port addr) (pos 0)
    pub setsockopt_lem : (opt : SockOpt) → Quiet (os.setsockopt sock opt) (pos 0)

  pub Runs-Quiet :
      {A : Type 0} (f : os.State → A × os.State) (a : A) {s : os.State} {left sent : List ℕ}
      → Quiet f a
      → At link s left sent
      → Runs link (call f) s a left sent
  Runs-Quiet f a {s} quiet at =
      let (s', e, l, o) = quiet s in
      record {
        final = s';
        runs = rw e refl;
        at = record { left_lem = l ∙ at.left_lem; sent_lem = o ∙ at.sent_lem };
      }

  Runs-set_timeout :
      (opt : SockOpt) (sec : ℤ) {s : os.State} {left sent : List ℕ}
      → Quiet (os.setsockopt sock opt) (pos 0)
      → At link s left sent
      → Runs link (set_timeout os sock opt sec) s tt left sent
  unfolding set_timeout
  Runs-set_timeout opt sec quiet at = elim (Bool-cases (is_nonpos sec)) [
    | inl none ↦ rw none (Runs-pure link tt at)
    | inr set ↦ rw set (
        Runs-bind link _ (Runs-Quiet (os.setsockopt sock opt) (pos 0) quiet at)
          λ s1 at1. Runs-pure link tt at1)
  ]

  Runs-check_id :
      {s : os.State} {left sent : List ℕ} (id : List ℕ)
      → is_neg sock ≡ false
      → length id ≡ 32
      → take 12 id ≡ server_id
      → At link s (id ++ left) sent
      → Runs link (check_id os sock) s tt left sent
  unfolding check_id
  Runs-check_id id fd len same at =
      Runs-bind link _ (get_buf_from_sock-want link id 32 fd len (omega arith) (omega arith) at)
        λ s1 at1.
          Runs-pass link (length id) _
            (rw len (rw same (Runs-guard link bad _ refl (Runs-pure link tt at1))))

  -- `rconnect` to a server that is there returns the socket: where the port is above 0, `inet_pton`
  -- takes the address, the calls that make a connection succeed, with any timeouts, and the server
  -- sends 32 bytes that begin with the ID string, in whatever pieces, those bytes and no more are
  -- read, and nothing is sent. The socket is not negative.
  pub rconnect-Connects :
      {s : os.State} {left sent : List ℕ} (host : List ℕ)
      (portnum snd_timeout_sec rcv_timeout_sec : ℤ) (id : List ℕ)
      → is_neg sock ≡ false
      → is_nonpos portnum ≡ false
      → is_neg (os.inet_pton host).0 ≡ false
      → Connects (word_of 16 portnum) (os.inet_pton host).1
      → length id ≡ 32
      → take 12 id ≡ server_id
      → At link s (id ++ left) sent
      → Runs link (rconnect os (some host) portnum snd_timeout_sec rcv_timeout_sec) s sock left sent
  unfolding rconnect
  rconnect-Connects host portnum snd rcv id fd port addr connects len same at =
      Runs-pass link host _ (
        Runs-guard link bad _ port (
          Runs-bind link _ (Runs-Quiet os.socket sock connects.socket_lem at) λ s1 at1.
            Runs-guard link bad _ fd (
              Runs-guard link _ _ addr (
                Runs-bind link _
                  (Runs-Quiet (os.connect sock (word_of 16 portnum) (os.inet_pton host).1) (pos 0)
                    connects.connect_lem at1)
                  λ s2 at2. Runs-guard link (pos 0) _ refl (
                    Runs-bind link _
                      (Runs-Quiet (os.setsockopt sock (tcp_nodelay (pos 1))) (pos 0)
                        (connects.setsockopt_lem (tcp_nodelay (pos 1))) at2)
                      λ s3 at3. Runs-guard link bad _ refl (
                        Runs-bind link _
                          (Runs-set_timeout (rcv_timeout rcv) rcv
                            (connects.setsockopt_lem (rcv_timeout rcv)) at3)
                          λ s4 at4.
                            Runs-bind link _
                              (Runs-set_timeout (snd_timeout snd) snd
                                (connects.setsockopt_lem (snd_timeout snd)) at4)
                              λ s5 at5.
                                Runs-bind link _ (Runs-check_id id fd len same at5)
                                  λ s6 at6. Runs-pure link sock at6))))))
