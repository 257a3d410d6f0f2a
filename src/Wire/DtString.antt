-- ===== src/Wire/DtString.antt =====
-- `mk_dt_string`: the parameter that carries a string.
use c2r.Common.{
  ℕ, ◌+◌, ◌-◌, ◌/◌, ◌%◌, ◌^◌, ◌<◌, ◌≡◌, ◌∙◌, List, some, ℤ, length, replicate, drop, suc, word32,
  c_string, c_string-append, All, IsNonzero, length-append, length-replicate, arith,
}
use c2r.Os.{Os}
use c2r.Os.Actions.{◌>>=◌}
use c2r.Os.Link.{Link, At, Runs, Runs-bind, Runs-pure, Runs-pass, Runs-guard}
use c2r.Wire.{pack, dt_string_bytes, memalign, mk_dt_string}
use c2r.Wire.Constants.{dt_string}
use c2r.Wire.Header.{word-le32}
use c2r.Wire.Padding.{round_up, padded-round_up}

-- `len_name` after the loop, and the bytes of the parameter
abbrev pub len_name : List ℕ → ℕ
len_name name = round_up (length name + 1)

abbrev pub param : List ℕ → List ℕ
param name = dt_string_bytes (len_name name) name

pub length-param : (name : List ℕ) → length (param name) ≡ 4 + len_name name
unfolding dt_string_bytes
length-param name = omega (
  arith,
  length-append name (replicate (len_name name - length name) 0),
  length-replicate {A = ℕ} (len_name name - length name) 0,
)

-- `pack` puts the type into the low byte and the length into the other three.
pub pack_fields :
    (len type : ℕ)
    → len < 2 ^ 24
    → type < 256
    → (pack len type % 256 ≡ type) × (pack len type / 256 ≡ len)
unfolding pack
pack_fields len type hl ht = omega arith

pub pack_bound : (len type : ℕ) → pack len type < 2 ^ 32
unfolding pack
pack_bound len type = omega arith

param_word :
    (name : List ℕ)
    → length name < 2 ^ 24 - 8
    → (word32 (param name) 0 % 256 ≡ dt_string) × (word32 (param name) 0 / 256 ≡ len_name name)
unfolding dt_string_bytes
param_word name h =
    let w = pack (len_name name) dt_string in
    let (type, len) = pack_fields (len_name name) dt_string (omega arith) (omega arith) in
    let all : word32 (param name) 0 ≡ w = word-le32 w (pack_bound (len_name name) dt_string) in
    (rw all type, rw all len)

pub c_string-param :
    (name : List ℕ) → All IsNonzero name → c_string (drop 4 (param name)) ≡ some name
unfolding dt_string_bytes
c_string-param name nonzero =
    let zeros = len_name name - length name in
    let one : zeros ≡ suc (zeros - 1) = omega arith in
    rw one (c_string-append name (replicate (zeros - 1) 0) nonzero)

module _ {os : Os} {sock : ℤ} (link : Link os sock) where
  pub Runs-memalign :
      {s : os.State} {left sent : List ℕ} (n : ℕ)
      → n < 2 ^ 63
      → At link s left sent
      → Runs link (memalign os n) s tt left sent
  unfolding memalign ◌>>=◌
  Runs-memalign {s} n h at =
      let (s', e, l, o) = link.memalign_lem n s h in
      record {
        final = s';
        runs = rw e;
        at = record { left_lem = l ∙ at.left_lem; sent_lem = o ∙ at.sent_lem };
      }

  pub Runs-mk_dt_string :
      {s : os.State} {left sent : List ℕ} (name : List ℕ)
      → length name < 2 ^ 62
      → At link s left sent
      → Runs link (mk_dt_string os (some name)) s (param name) left sent
  unfolding mk_dt_string
  Runs-mk_dt_string name h at = Runs-pass link name _ (
      rw (padded-round_up (length name + 1)) (
        Runs-pass link (len_name name) _ (
          Runs-bind link _ (Runs-memalign (4 + len_name name) (omega arith) at)
            λ s' at'. Runs-guard link _ _ (ground arith) (Runs-pure link (param name) at'))))

  -- Over a working connection `mk_dt_string` of a name of less than 2^24 - 8 bytes, none of them
  -- NUL, returns 0 and a parameter whose first word holds the type DT_STRING and the number of the
  -- bytes behind it, whose size is divisible by 4, and in which the C string behind that word is the
  -- name. Nothing is sent or read.
  pub mk_dt_string-c_string :
      {s : os.State} {left sent : List ℕ} (name : List ℕ)
      → All IsNonzero name
      → length name < 2 ^ 24 - 8
      → At link s left sent
      → (param1 : List ℕ) × Runs link (mk_dt_string os (some name)) s param1 left sent
        × (word32 param1 0 % 256 ≡ dt_string)
        × (4 + word32 param1 0 / 256 ≡ length param1)
        × (length param1 % 4 ≡ 0)
        × (c_string (drop 4 param1) ≡ some name)
  mk_dt_string-c_string name nonzero h at =
      let (type, len) = param_word name h in
      (
        param name,
        Runs-mk_dt_string name (omega arith) at,
        type,
        omega (arith, length-param name),
        omega (arith, length-param name),
        c_string-param name nonzero,
      )
