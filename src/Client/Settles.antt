-- ===== src/Client/Settles.antt =====
-- The functions of src/aux_rcli.c end, whatever the calls of the system return.
use c2r.Common.{ℕ, ◌==◌, List, Option, Bool, String, ℤ, length}
use c2r.Os.{Os, ReadResult, got, failed, SockOpt}
use c2r.Os.Settles.{
  Settles, IsSettled, IsSettled-if, Settles-Clean, Settles-lift, Settles-bind, Settles-non_null,
  settles_rules,
}
use c2r.Wire.{Pointer, memalign, mk_dt_string, mk_hdr}
use c2r.Wire.Padding.{padded-round_up}
use c2r.Client.{
  received, read_some, send_all, alloc, get_buf_from_sock, read_hdr, close_conn, read_output,
  send_request, exec_str, rshutdown, set_timeout, check_id, rconnect,
}
use c2r.Client.Status.{
  Clean-send_all, Clean-alloc, Clean-get_buf, Clean-read_hdr, Clean-send_request, Clean-read_output,
}

IsSettled-received : (r : ReadResult) → IsSettled (received r)
unfolding received
IsSettled-received failed = tt
IsSettled-received (got bs) = IsSettled-if (length bs == 0) _ _ tt tt

module _ (os : Os) where
  pub Settles-read_some : (sock : ℤ) (n : ℕ) → Settles (read_some os sock n)
  unfolding read_some
  Settles-read_some sock n = record {
    at = λ s. let (r, s') = os.read sock n s in IsSettled-received r;
  }

  pub Settles-send_all : (sock : ℤ) (bs : List ℕ) → Settles (send_all os sock bs)
  Settles-send_all sock bs = Settles-Clean _ (Clean-send_all os sock bs)

  pub Settles-alloc : (n : ℕ) → Settles (alloc os n)
  Settles-alloc n = Settles-Clean _ (Clean-alloc os n)

  pub Settles-get_buf :
      (sock : ℤ) (buf : Pointer) (n : ℤ) → Settles (get_buf_from_sock os sock buf n)
  Settles-get_buf sock buf n = Settles-Clean _ (Clean-get_buf os sock buf n)

  pub Settles-read_hdr : (sock : ℤ) → Settles (read_hdr os sock)
  Settles-read_hdr sock = Settles-Clean _ (Clean-read_hdr os sock)

  pub Settles-send_request :
      (sock : ℤ) (command : String) (param1 : List ℕ)
      → Settles (send_request os sock command param1)
  Settles-send_request sock command param1 =
      Settles-Clean _ (Clean-send_request os sock command param1)

  Settles-read_output : (sock expected_xt : ℤ) (n : ℕ) → Settles (read_output os sock expected_xt n)
  Settles-read_output sock expected_xt n = Settles-Clean _ (Clean-read_output os sock expected_xt n)

  pub Settles-memalign : (n : ℕ) → Settles (memalign os n)
  unfolding memalign
  Settles-memalign n = search settles_rules

  pub Settles-mk_dt_string : (name : Option (List ℕ)) → Settles (mk_dt_string os name)
  unfolding mk_dt_string
  Settles-mk_dt_string name = Settles-bind _ _ (Settles-non_null name) λ text.
      Settles-bind _ _ (Settles-lift _ (rw padded-round_up tt))
        λ len. search (settles_rules, Settles-memalign)

  pub Settles-exec_str :
      (sock : ℤ) (str : Option (List ℕ)) (want : Bool) (expected_xt : ℤ)
      → Settles (exec_str os sock str want expected_xt)
  unfolding exec_str
  Settles-exec_str sock str want expected_xt =
      search
        (
          settles_rules, Settles-mk_dt_string, Settles-send_request, Settles-read_hdr,
          Settles-read_output,
        )
        depth 20

  pub Settles-close_conn : (sock : ℤ) → Settles (close_conn os sock)
  unfolding close_conn
  Settles-close_conn sock = search settles_rules depth 12

  pub Settles-mk_hdr :
      {S : Type 0} (command : Option (List ℕ)) (len : ℤ) (ph : Pointer)
      → Settles {S = S} (mk_hdr command len ph)
  unfolding mk_hdr
  Settles-mk_hdr command len ph = search settles_rules depth 12

  pub Settles-rshutdown : (sock : ℤ) → Settles (rshutdown os sock)
  unfolding rshutdown
  Settles-rshutdown sock =
      search
        (settles_rules, Settles-mk_hdr, Settles-send_all, Settles-read_some, Settles-close_conn)
        depth 12

  Settles-set_timeout : (sock : ℤ) (opt : SockOpt) (sec : ℤ) → Settles (set_timeout os sock opt sec)
  unfolding set_timeout
  Settles-set_timeout sock opt sec = search settles_rules depth 12

  Settles-check_id : (sock : ℤ) → Settles (check_id os sock)
  unfolding check_id
  Settles-check_id sock = search (settles_rules, Settles-get_buf) depth 12

  pub Settles-rconnect :
      (server : Option (List ℕ)) (portnum snd_timeout_sec rcv_timeout_sec : ℤ)
      → Settles (rconnect os server portnum snd_timeout_sec rcv_timeout_sec)
  unfolding rconnect
  Settles-rconnect server portnum snd_timeout_sec rcv_timeout_sec =
      search (settles_rules, Settles-set_timeout, Settles-check_id) depth 24
