-- ===== src/Api/Examples.antt =====
-- A client that reads a number and stores what it gets, against a scripted server.
use c2r.Common.{◌≢◌, [], ◌∷◌, some, pos, codes}
use c2r.Os.Actions.{◌>>=◌, stuck}
use c2r.Os.Script.{peer, script}
use c2r.Scalar.{get_f8}
use c2r.SetVec.{set_vec}
use c2r.Api.{goes_on, gets_f8, sets_vec}
use c2r.Api.Settles.{IsClient-ne-stuck}

IsClient-ne-stuck_example :
    ((get_f8 script (pos 3) (some (codes "x")) >>= λ bytes.
    set_vec script (pos 3) (some (codes "y")) (some (codes "F8")) (some bytes) 1 0)
      (peer (1 ∷ 0 ∷ 1 ∷ 0 ∷ []) 1)).0
    ≢ stuck
IsClient-ne-stuck_example =
    IsClient-ne-stuck script _ (peer (1 ∷ 0 ∷ 1 ∷ 0 ∷ []) 1)
      (goes_on _ _ (gets_f8 (pos 3) _) (λ bytes. sets_vec (pos 3) _ _ _ 1 0))
