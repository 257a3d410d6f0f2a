-- ===== src/Shutdown.antt =====
-- src/rshutdown.c and src/get_time_usec.c: the program that shuts a server down, and the clock.
pub mod Examples
pub mod Run
use c2r.Common.{ℕ, ◌+◌, ◌*◌, ◌%◌, ◌^◌, List, [], ◌∷◌, some, ℤ, pos, codes}
use c2r.Os.{Os}
use c2r.Os.Actions.{M, ◌>>=◌}
use c2r.Client.{rconnect, rshutdown}

-- the server and the port
pub record Target : Type 0 where
  pub server : List ℕ
  pub portnum : ℤ

-- `gettimeofday` gives seconds and microseconds.
unfoldable pub time_usec : ℕ → ℕ → ℕ
time_usec sec usec = (usec + 1000000 * sec) % 2 ^ 64

module _ (os : Os) where
  open os use {State, atoi}

  -- two arguments behind the program's name, or the default
  pub target : List (List ℕ) → Target
  target (program ∷ server ∷ port ∷ []) = record { server = server; portnum = atoi port }
  target argv = record { server = codes "127.0.0.1"; portnum = pos 6311 }

  pub main : List (List ℕ) → M State ℤ
  main argv = do
    let t = target argv
    sock ← rconnect os (some t.server) t.portnum (pos 0) (pos 0)
    rshutdown os sock
