-- ===== src/Samples/Echo/Reached.antt =====
-- The phase in which a run of the two programs is, and the steps that it has taken.
use c2r.Common.{ℕ, suc, ◌+◌, ◌*◌, ◌^◌, ◌≤◌, ◌<◌, ◌≡◌, ◌≢◌, ◌⊎◌, inl, inr, refl, List, length, arith}
use c2r.Samples.Echo.{World, c_ended, Step, IsWhole, Run, IsWholeRun, here, next, start}
use c2r.Samples.Echo.Phases.{
  Sized, Phase, Ended, Later, idle, sent, filling, answered, draining, left,
}
use c2r.Samples.Echo.Invariant.{Step-Later, Step-Ended}

-- what holds after a run of so many steps, while the client goes on
pub record Active (w : World) (n steps bound : ℕ) : Type 0 where
  pub sized : Sized w n
  pub phase : Phase w n
  pub count : steps + left phase ≤ bound

pub not_ended : {w : World} {n : ℕ} → Phase w n → w.client ≢ c_ended
not_ended (idle c s u d) x = cc
not_ended (sent r e c s u d) x = cc
not_ended (filling r k e c s h d) x = cc
not_ended (answered r e c s u d) x = cc
not_ended (draining r k e c s u h) x = cc

Later-Active :
    {w w' : World} {n steps bound : ℕ} (a : Active w n steps bound)
    → Ended w' ⊎ Later w' n (left a.phase)
    → Ended w' ⊎ Active w' n (suc steps) bound
Later-Active a (inl over) = inl over
Later-Active a (inr after) =
    let count = a.count in
    let less = after.less in
    inr (record { sized = after.sized; phase = after.phase; count = omega arith })

Step-Active :
    {w w' : World} {n steps bound : ℕ} (st : Step w w')
    → IsWhole st ⊎ (w.client ≡ c_ended)
    → Ended w ⊎ Active w n steps bound
    → Ended w' ⊎ Active w' n (suc steps) bound
Step-Active st wh (inl over) = inl (Step-Ended over st)
Step-Active st (inl wh) (inr a) = Later-Active a (Step-Later a.sized a.phase st wh)
Step-Active st (inr over) (inr a) = absurd (not_ended a.phase over)

pub Run-Reached :
    (rounds n : ℕ) (rcvbuf buf : List ℕ)
    → 4 ≤ n
    → n < 2 ^ 31
    → length rcvbuf ≡ n
    → n ≤ length buf
    → {steps : ℕ} {w : World} (run : Run (start rounds rcvbuf buf) steps w) → IsWholeRun run
    → Ended w ⊎ Active w n steps (rounds * (2 * n + 5))
Run-Reached rounds n rcvbuf buf low small len fits here wh =
    let first : Phase (start rounds rcvbuf buf) n = idle refl refl refl refl in
    inr (record {
      sized = record {
        low = low;
        small = small;
        size_lem = len;
        rcvbuf_lem = len;
        szbuf_lem = refl;
        fits = fits;
      };
      phase = first;
      count = omega arith;
    })
Run-Reached rounds n rcvbuf buf low small len fits (next run st) wh =
    Step-Active st wh.1 (Run-Reached rounds n rcvbuf buf low small len fits run wh.0)

-- as long as the client goes on
pub Run-Active :
    (rounds n : ℕ) (rcvbuf buf : List ℕ)
    → 4 ≤ n
    → n < 2 ^ 31
    → length rcvbuf ≡ n
    → n ≤ length buf
    → {steps : ℕ} {w : World} (run : Run (start rounds rcvbuf buf) steps w) → IsWholeRun run
    → w.client ≢ c_ended
    → Active w n steps (rounds * (2 * n + 5))
Run-Active rounds n rcvbuf buf low small len fits run wh on =
    active (Run-Reached rounds n rcvbuf buf low small len fits run wh) on
  where
    active :
        {w : World} {n steps bound : ℕ}
        → Ended w ⊎ Active w n steps bound
        → w.client ≢ c_ended
        → Active w n steps bound
    active (inl over) on = absurd (on over.0)
    active (inr a) on = a
