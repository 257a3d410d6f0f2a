-- ===== src/Wire/Padding.antt =====
-- The loop of `mk_dt_string` that extends `len_name`.
use c2r.Common.{ℕ, zero, suc, ◌+◌, ◌*◌, ◌/◌, ◌<◌, ◌≡◌, some, arith}
use c2r.Os.Actions.{ok}
use c2r.Wire.{pad_loop, pad_fuel, padded}

-- the least multiple of 8 from `n` on
abbrev pub round_up : ℕ → ℕ
round_up n = (n + 7) / 8 * 8

pad_loop-round_up : (fuel n : ℕ) → round_up n < n + fuel → pad_loop fuel n ≡ some (round_up n)
unfolding pad_loop
pad_loop-round_up zero n h = absurd (omega arith)
pad_loop-round_up (suc fuel) n h = ground (arith, pad_loop-round_up fuel (n + 1))

pub padded-round_up : (n : ℕ) → padded n ≡ ok (round_up n)
unfolding padded
padded-round_up n = rw (pad_loop-round_up pad_fuel n (omega arith), padded)
