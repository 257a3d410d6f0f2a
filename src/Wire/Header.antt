-- ===== src/Wire/Header.antt =====
-- The header of a message: `mk_hdr`, and the bytes of a `struct phdr`.
use c2r.Common.{ℕ, ◌+◌, ◌*◌, ◌/◌, ◌%◌, ◌^◌, ◌<◌, ◌≡◌, refl, List, some, pos, length, arith}
use c2r.Os.Actions.{ok, ◌>>=◌}
use c2r.Wire.{Phdr, phdr_bytes, phdr_of, mk_hdr, command_code, valid, hdr_len}

-- the fields are 32-bit words
pub record IsPhdr (ph : Phdr) : Type 0 where
  pub cmd : ph.cmd < 2 ^ 32
  pub len : ph.len < 2 ^ 32
  pub msg_id : ph.msg_id < 2 ^ 32
  pub res : ph.res < 2 ^ 32

pub word-le32 :
    (w : ℕ)
    → w < 2 ^ 32
    → w % 256 + 256 * (w / 256 % 256) + 65536 * (w / 65536 % 256) + 16777216 * (w / 16777216 % 256)
      ≡ w
word-le32 w h = omega arith

-- A header of four 32-bit words, laid out as the 16 bytes that are sent and taken apart as
-- `read_hdr` does, is that header again.
pub phdr_of-phdr_bytes : (ph : Phdr) → IsPhdr ph → phdr_of (phdr_bytes ph) ≡ ph
unfolding phdr_of phdr_bytes
phdr_of-phdr_bytes ph h = λ i. record {
  cmd = word-le32 ph.cmd h.cmd i;
  len = word-le32 ph.len h.len i;
  msg_id = word-le32 ph.msg_id h.msg_id i;
  res = word-le32 ph.res h.res i;
}

pub length-phdr_bytes : (ph : Phdr) → length (phdr_bytes ph) ≡ hdr_len
unfolding phdr_bytes
length-phdr_bytes ph = refl

-- header of a request, for a command that the client knows
abbrev pub request_hdr : ℕ → ℕ → Phdr
request_hdr code len = record { cmd = code; len = len; msg_id = 0; res = 0 }

pub mk_hdr-ok :
    {S : Type 0} (command : List ℕ) (len code : ℕ) (s : S)
    → command_code command ≡ some code
    → len < 2 ^ 32
    → mk_hdr (some command) (pos len) valid s ≡ (ok (request_hdr code len), s)
unfolding mk_hdr ◌>>=◌
mk_hdr-ok command len code s known h = ground arith
