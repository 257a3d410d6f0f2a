-- ===== src/Query.antt =====
-- What the functions built on `exec_str` share: text printed into a buffer, a call whose status is
-- not tested, and values read out of a reply.
pub mod Replies
pub mod Settles
use c2r.Common.{
  ℕ, zero, suc, List, [], ◌∷◌, Option, none, some, ℤ, int_of, word32, length, ltb, if◌then◌else◌,
}
use c2r.Os.Actions.{Outcome, ok, err, fault, stuck, M, pure, crash, try}

-- `sprintf` of a text into a buffer of `size` bytes, its NUL included
abbrev pub sprintf : {S : Type 0} → ℕ → List ℕ → M S (List ℕ)
sprintf size text = if ltb (length text) size then pure text else crash

-- A call that leaves NULL in its output where it fails, and whose status is dropped.
abbrev pub output_of : {A : Type 0} → Outcome (Option A) → Outcome (Option A)
output_of (ok a) = ok a
output_of (err e) = ok none
output_of fault = fault
output_of stuck = stuck

pub ignore_status : {S A : Type 0} → M S (Option A) → M S (Option A)
ignore_status m = try m (λ r s. (output_of r, s))

-- `((int *)buf)[0]`; `none` past the end of the buffer
unfoldable pub int_at : List ℕ → Option ℤ
int_at buf = if ltb (length buf) 4 then none else some (int_of (word32 buf 0))

-- `buf[i]`
unfoldable pub byte_at : List ℕ → ℕ → Option ℕ
byte_at [] i = none
byte_at (b ∷ bs) zero = some b
byte_at (b ∷ bs) (suc i) = byte_at bs i
