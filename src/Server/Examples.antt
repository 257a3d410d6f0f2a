-- ===== src/Server/Examples.antt =====
-- A server with a small R, at concrete values.
use c2r.Common.{◌≡◌, refl, [], ◌∷◌, ◌++◌, none, codes}
use c2r.Wire.{phdr_bytes, phdr_of, pack, dt_string_bytes}
use c2r.Wire.Constants.{cmd_shutdown}
use c2r.Client.Exec.{request}
use c2r.Server.Simple.{simple}
use c2r.Server.{params, react, replies, resp_err}

-- a command that the server does not take, and behind it a message that is cut
refused :
    replies simple 2 (λ name. none) (request cmd_shutdown (codes "x") ++ (1 ∷ 2 ∷ []))
    ≡ phdr_bytes resp_err
unfolding replies params react phdr_bytes phdr_of pack dt_string_bytes
refused = refl
