-- ===== src/Client/Connect.antt =====
-- `rconnect` and `rshutdown` of src/aux_rcli.c: what a connection that was made has passed, and how
-- a server is left.
use c2r.Common.{
  ℕ, ◌≡◌, refl, ap, sym, subst, ◌∙◌, List, Option, some, Bool, true, false, not, ℤ, pos, is_neg,
  is_nonpos, word_of, take, codes, bytes_eq, eq_of_bytes_eq, ◌==◌, arith,
}
use c2r.Os.{Os, ReadResult, tcp_nodelay}
use c2r.Os.Actions.{ok, err, bad, ◌>>=◌}
use c2r.Os.Returns.{bind_ok, guard_ok, non_null_ok, call_ok, reject_ok, pure_ok}
use c2r.Wire.{phdr_bytes, valid, mk_hdr, command_code}
use c2r.Wire.Constants.{cmd_shutdown}
use c2r.Wire.Header.{request_hdr, mk_hdr-ok}
use c2r.Client.{
  Fill, server_id, get_buf_from_sock, check_id, rconnect, rshutdown, read_some, received, send_all,
}

pub record Greeted (os : Os) (sock : ℤ) (s s' : os.State) : Type 0 where
  pub hello : Fill
  pub read_lem : get_buf_from_sock os sock valid (pos 32) s ≡ (ok hello, s')
  pub whole : hello.num_read ≡ some 32
  pub id : take 12 hello.bytes ≡ server_id

equal_32 : (n : ℕ) → not (n == 32) ≡ false → n ≡ 32
equal_32 n h = ground arith

not-false : (b : Bool) → not b ≡ false → b ≡ true
not-false true h = refl
not-false false h = absurd (cc)

module _ (os : Os) where
  check_id_ok :
      (sock : ℤ) (s s' : os.State) → check_id os sock s ≡ (ok tt, s') → Greeted os sock s s'
  unfolding check_id
  check_id_ok sock s s' h =
      let b = bind_ok _ _ s tt s' h in
      let (n, num, rest) = non_null_ok b.value.num_read _ b.middle tt s' b.rest in
      let (is_32, rest') = guard_ok (not (n == 32)) bad _ b.middle tt s' rest in
      let (id, same) =
        reject_ok (not (bytes_eq (take 12 b.value.bytes) server_id)) bad b.middle s' rest' in
      record {
        hello = b.value;
        read_lem = b.first ∙ ap (λ t. (ok b.value, t)) same;
        whole = num ∙ ap some (equal_32 n is_32);
        id = eq_of_bytes_eq (take 12 b.value.bytes) server_id (not-false _ id);
      }

  -- Where `rconnect` returns 0, the server is not NULL, `inet_pton` of its text did not return a
  -- negative number (0, which a malformed text gives, passes), the port is above 0, the socket is the one that `socket` returned, `connect` to the
  -- low 16 bits of the port did not fail, and the last that happened on the socket is that 32 bytes
  -- were read, the first 12 of which are "Rsrv0103QAP1".
  pub rconnect-Greeted :
      (server : Option (List ℕ)) (portnum snd_timeout_sec rcv_timeout_sec sock : ℤ)
      (s s' : os.State)
      → rconnect os server portnum snd_timeout_sec rcv_timeout_sec s ≡ (ok sock, s')
      → (host : List ℕ) × (t : os.State) × (server ≡ some host)
        × (is_neg (os.inet_pton host).0 ≡ false)
        × (is_nonpos portnum ≡ false)
        × (sock ≡ (os.socket s).0)
        × (is_neg sock ≡ false)
        × (is_neg (os.connect sock (word_of 16 portnum) (os.inet_pton host).1 (os.socket s).1).0
            ≡ false)
        × Greeted os sock t s'
  unfolding rconnect
  rconnect-Greeted server portnum snd_timeout_sec rcv_timeout_sec sock s s' h =
      let (host, is_host, h1) = non_null_ok server _ s sock s' h in
      let (port, h2) = guard_ok _ _ _ s sock s' h1 in
      let h3 = call_ok os.socket _ s sock s' h2 in
      let fd = (os.socket s).0 in
      let s1 = (os.socket s).1 in
      let (fd_ok, h4) = guard_ok _ _ _ s1 sock s' h3 in
      let (addr_ok, h5) = guard_ok _ _ _ s1 sock s' h4 in
      let h6 = call_ok (os.connect fd (word_of 16 portnum) (os.inet_pton host).1) _ s1 sock s' h5 in
      let s2 = (os.connect fd (word_of 16 portnum) (os.inet_pton host).1 s1).1 in
      let (conn_ok, h7) = guard_ok _ _ _ s2 sock s' h6 in
      let h8 = call_ok (os.setsockopt fd (tcp_nodelay (pos 1))) _ s2 sock s' h7 in
      let s3 = (os.setsockopt fd (tcp_nodelay (pos 1)) s2).1 in
      let (nodelay, h9) = guard_ok _ _ _ s3 sock s' h8 in
      let r = bind_ok _ _ s3 sock s' h9 in
      let q = bind_ok _ _ r.middle sock s' r.rest in
      let c = bind_ok _ _ q.middle sock s' q.rest in
      let (same, final) = pure_ok fd sock c.middle s' c.rest in
      (
        host,
        q.middle,
        is_host,
        addr_ok,
        port,
        sym same,
        subst (λ x. is_neg x ≡ false) same fd_ok,
        subst (λ x. is_neg (os.connect x (word_of 16 portnum) (os.inet_pton host).1 s1).0 ≡ false)
            same conn_ok,
        subst (λ x. Greeted os x q.middle s') same
            (check_id_ok fd q.middle s' (c.first ∙ ap (λ x. (ok tt, x)) final)),
      )

  -- Where the request of `rshutdown` went out and the server closes the connection, or the read
  -- fails, `rshutdown` returns -2 or -3 right behind the read: the socket is not closed.
  rshutdown-received :
      (sock e : ℤ) (r : ReadResult) (s s1 s2 : os.State)
      → os.send sock (phdr_bytes (request_hdr cmd_shutdown 0)) s ≡ (pos 16, s1)
      → os.read sock 32 s1 ≡ (r, s2)
      → received r ≡ err e
      → rshutdown os sock s ≡ (err e, s2)
  unfolding rshutdown send_all read_some ◌>>=◌ command_code phdr_bytes
  rshutdown-received sock e r s s1 s2 sent took is_err =
      let m : mk_hdr (some (codes "CMD_shutdown")) (pos 0) valid s
          ≡ (ok (request_hdr cmd_shutdown 0), s) =
        mk_hdr-ok (codes "CMD_shutdown") 0 cmd_shutdown s refl (omega arith) in
      rw m (rw (sent, ◌>>=◌) (rw (took, ◌>>=◌) (rw is_err refl)))
