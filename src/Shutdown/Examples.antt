-- ===== src/Shutdown/Examples.antt =====
-- The program that shuts a server down, run without arguments against a scripted server.
use c2r.Common.{◌≡◌, refl, [], ◌∷◌, ◌++◌, pos, codes, replicate}
use c2r.Os.Actions.{ok, ◌>>=◌}
use c2r.Os.Script.{Peer, peer, script}
use c2r.Wire.{phdr_bytes, mk_hdr, command_code}
use c2r.Wire.Constants.{cmd_shutdown}
use c2r.Wire.Header.{request_hdr}
use c2r.Client.{
  server_id, rconnect, rshutdown, set_timeout, check_id, get_buf_from_sock, fill_buf, read_loop,
  read_some, received, send_all, close_conn,
}
use c2r.Shutdown.{target, main}

abbrev server : Peer
server = peer (server_id ++ (replicate 20 45 ++ replicate 16 0)) 31

abbrev down : Peer
down = record {
  incoming = [];
  outgoing = phdr_bytes (request_hdr cmd_shutdown 0);
  closed = pos 3 ∷ [];
  chunk = 31;
}

runs : main script (codes "rshutdown" ∷ []) server ≡ (ok (pos 0), down)
unfolding main target rconnect rshutdown set_timeout check_id get_buf_from_sock fill_buf read_loop
    read_some received send_all close_conn mk_hdr command_code phdr_bytes ◌>>=◌
runs = refl
