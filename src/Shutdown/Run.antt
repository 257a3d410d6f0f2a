-- ===== src/Shutdown/Run.antt =====
-- `main` of src/rshutdown.c where the server is there: whom it shuts down, and how it leaves.
use c2r.Common.{ℕ, ◌≡◌, ◌≢◌, List, [], ℤ, pos, ◌∷◌, length, codes}
use c2r.Os.{Os}
use c2r.Os.Actions.{M}
use c2r.Os.Link.{Link, Runs}
use c2r.Client.{read_some}

-- the server and the port of a command line, the program's name and its arguments
pub data IsTarget (os : Os) : List (List ℕ) → List ℕ → ℤ → Type 0 where
  given :
      (program server port : List ℕ)
      → IsTarget os (program ∷ server ∷ port ∷ []) server (os.atoi port)
  default :
      (argv : List (List ℕ)) → length argv ≢ 3 → IsTarget os argv (codes "127.0.0.1") (pos 6311)

module _ {os : Os} {sock : ℤ} (link : Link os sock) where
  -- one read of some of what is to come
  record Taken (n : ℕ) (s : os.State) (sent : List ℕ) : Type 0 where
    bs : List ℕ
    rest : List ℕ
    runs : Runs link (read_some os sock n) s bs rest sent

  -- a run that leaves something of what was to come, and ends with the socket's close
  abbrev pub Done : {A : Type 0} → M os.State A → os.State → A → List ℕ → Type 0
  Done m s a sent =
      (rest : List ℕ) × (r : Runs link m s a rest sent) × (t : os.State) × (os.close sock t
        ≡ (pos 0, r.final))
