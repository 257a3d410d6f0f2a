-- ===== src/NamedVec/Reads.antt =====
-- `get_named_vec_F8` of src/get_named_vec.c over a working connection.
use c2r.Common.{
  ℕ, ◌+◌, ◌-◌, ◌*◌, ◌/◌, ◌%◌, ◌^◌, ◌≤◌, ◌<◌, ◌≡◌, refl, List, ◌++◌, some, true, false, ℤ, pos,
  is_neg, length, arith, le32, word32, int_of, word_of, eq_int, int_of-small, leb-false, le→leb,
}
use c2r.Os.{Os}
use c2r.Os.Actions.{M, bad, ◌>>=◌}
use c2r.Os.Link.{Link, At, Runs, Runs-bind, Runs-pure, Runs-guard}
use c2r.Os.Fails.{Fails, Fails-bind, Fails-reject}
use c2r.Wire.{Phdr, phdr_bytes, hdr_len, valid, command_code}
use c2r.Wire.Constants.{cmd_eval, dt_sexp, xt_list_tag, xt_array_str}
use c2r.Wire.Header.{IsPhdr, word-le32, phdr_of-phdr_bytes, length-phdr_bytes}
use c2r.Wire.DtString.{Runs-mk_dt_string}
use c2r.Client.{get_buf_from_sock}
use c2r.Client.Transfer.{get_buf_from_sock-want}
use c2r.Client.Exec.{request, Runs-send_request}
use c2r.NamedVec.{NamedOut, count_zeros, read_key_size, read_named, get_named_vec_f8}

-- the four words in front of the names: the type of the SEXP and its length, two that are not looked
-- at but for the types in the low bytes, and the size of the names
pub record IsKeyWords (len d x t k n_keys : ℕ) : Type 0 where
  pub sexp : (d % 256 ≡ dt_sexp) × (d < 2 ^ 32)
  pub long : d / 256 ≡ len - 4
  pub list_tag : (t % 256 ≡ xt_list_tag) × (t < 2 ^ 32)
  pub keys : (k % 256 ≡ xt_array_str) × (k < 2 ^ 32)
  pub size : k / 256 ≡ n_keys

abbrev pub words : ℕ → ℕ → ℕ → ℕ → List ℕ
words d x t k = le32 d ++ (le32 x ++ (le32 t ++ le32 k))

n2_lem :
    (len q : ℕ)
    → 16 ≤ len
    → len < 2 ^ 31
    → q ≡ len - 4
    → eq_int (int_of (word_of 64 (int_of len) + 2 ^ 64 - 16)) (int_of (q + 2 ^ 32 - 12)) ≡ true
n2_lem len q h h' e = ground arith

module _ {os : Os} {sock : ℤ} (link : Link os sock) where
  Runs-read_key_size :
      {s : os.State} {left sent : List ℕ} (sz_key_blob len d x t k n_keys : ℕ)
      → is_neg sock ≡ false
      → IsKeyWords len d x t k n_keys
      → 16 ≤ len
      → len < 2 ^ 31
      → n_keys < sz_key_blob
      → At link s (words d x t k ++ left) sent
      → Runs link (read_key_size os sock sz_key_blob (int_of len)) s n_keys left sent
  unfolding read_key_size
  Runs-read_key_size sz_key_blob len d x t k n_keys fd is h h' room at =
      let wd : word32 (words d x t k) 0 ≡ d = word-le32 d is.sexp.1 in
      let wt : word32 (words d x t k) 2 ≡ t = word-le32 t is.list_tag.1 in
      let wk : word32 (words d x t k) 3 ≡ k = word-le32 k is.keys.1 in
      Runs-guard link bad _ (rw (int_of-small len h') (ground arith)) (
        Runs-bind link _
          (get_buf_from_sock-want link (words d x t k) 16 fd refl (omega arith) (omega arith) at)
          λ s1 at1.
            rw (wd, wt, wk)
              (Runs-guard link bad _ (rw (is.sexp.0) refl) (
                Runs-guard link bad _ (rw (n2_lem len (d / 256) h h' is.long) refl) (
                  Runs-guard link bad _ (rw (is.list_tag.0) refl) (
                    Runs-guard link bad _ (rw (is.keys.0) refl) (
                      Runs-guard link bad _ (rw (is.size) (leb-false sz_key_blob n_keys room))
                        (rw (is.size) (Runs-pure link n_keys at1))))))))

  -- the names and the 12 bytes behind them; `vals` is what comes next
  Runs-keys :
      {s : os.State} {left sent : List ℕ} (keys skipped : List ℕ) {B : Type 0}
      (f : List ℕ → M os.State B) {b : B} {left' sent' : List ℕ}
      → is_neg sock ≡ false
      → 0 < length keys
      → length keys < 2 ^ 31
      → length skipped ≡ 12
      → ((t : os.State) → At link t left sent → Runs link (f keys) t b left' sent')
      → At link s (keys ++ (skipped ++ left)) sent
      → Runs link
          (get_buf_from_sock os sock valid (int_of (length keys)) >>= λ hdr.
            get_buf_from_sock os sock valid (pos 12) >>= λ unused. f hdr.bytes)
          s
          b
          left'
          sent'
  Runs-keys keys skipped f fd h0 h hs next at = rw (int_of-small (length keys) h) (
      Runs-bind link _ (get_buf_from_sock-want link keys (length keys) fd refl h0 h at) λ s1 at1.
        Runs-bind link _
          (get_buf_from_sock-want link skipped 12 fd hs (omega arith) (omega arith) at1)
          λ s2 at2. next s2 at2)

  Runs-read_named :
      {s : os.State} {left sent : List ℕ} (keys skipped vals : List ℕ) (sz_vals n : ℕ)
      → is_neg sock ≡ false
      → 0 < length keys
      → length keys < 2 ^ 31
      → length skipped ≡ 12
      → count_zeros keys ≡ n
      → length vals ≡ n * 8
      → 0 < n
      → n < sz_vals
      → n < 2 ^ 28
      → At link s (keys ++ (skipped ++ (vals ++ left))) sent
      → Runs link
          (read_named os sock (length keys) sz_vals)
          s
          (record { key_blob = keys; vals = vals; n_key_blob = length keys; n_vals = n })
          left
          sent
  unfolding read_named
  Runs-read_named keys skipped vals sz_vals n fd h0 h hs zeros e hn room small =
      Runs-keys keys skipped _ fd h0 h hs λ t at.
        let m : n * 8 % 2 ^ 32 ≡ n * 8 = omega arith in
        rw zeros (
          Runs-guard link bad _ (leb-false sz_vals n room) (
            rw m (
              rw (int_of-small (n * 8) (omega arith)) (
                Runs-bind link _
                  (get_buf_from_sock-want link vals (n * 8) fd e (omega arith) (omega arith) at)
                  λ s1 at1.
                    Runs-pure link
                      (record {
                        key_blob = keys;
                        vals = vals;
                        n_key_blob = length keys;
                        n_vals = n;
                      })
                      at1))))

  Runs-named_keys :
      {s : os.State} {left sent : List ℕ} (name : List ℕ) (ph : Phdr)
      (sz_key_blob sz_vals d x t k n_keys : ℕ) {out : NamedOut} {left' : List ℕ}
      → is_neg sock ≡ false
      → length name < 2 ^ 30
      → IsPhdr ph
      → IsKeyWords ph.len d x t k n_keys
      → 16 ≤ ph.len
      → ph.len < 2 ^ 31
      → n_keys < sz_key_blob
      → ((t' : os.State)
          → At link t' left (sent ++ request cmd_eval name)
          → Runs link
              (read_named os sock n_keys sz_vals)
              t'
              out
              left'
              (sent ++ request cmd_eval name))
      → At link s (phdr_bytes ph ++ (words d x t k ++ left)) sent
      → Runs link
          (get_named_vec_f8 os sock (some name) sz_key_blob sz_vals)
          s
          out
          left'
          (sent ++ request cmd_eval name)
  unfolding get_named_vec_f8 command_code
  Runs-named_keys name ph sz_key_blob sz_vals d x t k n_keys fd hn is key_words h h' room next at =
      Runs-bind link _ (Runs-mk_dt_string link name (omega arith) at) λ s1 at1.
        Runs-bind link _ (Runs-send_request link "CMD_eval" name cmd_eval refl hn at1) λ s2 at2.
          Runs-bind link _
            (get_buf_from_sock-want link (phdr_bytes ph) hdr_len fd (length-phdr_bytes ph)
              (omega arith) (omega arith) at2)
            λ s3 at3. rw (phdr_of-phdr_bytes ph is) (
              Runs-bind link _
                (Runs-read_key_size sz_key_blob ph.len d x t k n_keys fd key_words h h' room at3)
                next)

  -- Over a working connection `get_named_vec_F8` evaluates the name and returns 0, the names and
  -- the values as they came and their sizes, however the reply is cut, where the reply is a header,
  -- four words of the right types and lengths, the names with one NUL for each of the n > 0 values,
  -- 12 bytes that are skipped, and 8 n bytes of values; and where the caller's buffers hold more
  -- than that. The name has less than 2^30 bytes, n is less than 2^28, and the socket is not
  -- negative.
  pub get_named_vec_f8-reply :
      {s : os.State} {left sent : List ℕ} (name : List ℕ) (ph : Phdr)
      (sz_key_blob sz_vals d x t k n : ℕ) (keys skipped vals : List ℕ)
      → is_neg sock ≡ false
      → length name < 2 ^ 30
      → IsPhdr ph
      → IsKeyWords ph.len d x t k (length keys)
      → 16 ≤ ph.len
      → ph.len < 2 ^ 31
      → 0 < length keys
      → length keys < 2 ^ 31
      → length keys < sz_key_blob
      → length skipped ≡ 12
      → count_zeros keys ≡ n
      → length vals ≡ n * 8
      → 0 < n
      → n < sz_vals
      → n < 2 ^ 28
      → At link s (phdr_bytes ph ++ (words d x t k ++ (keys ++ (skipped ++ (vals ++ left))))) sent
      → Runs link
          (get_named_vec_f8 os sock (some name) sz_key_blob sz_vals)
          s
          (record { key_blob = keys; vals = vals; n_key_blob = length keys; n_vals = n })
          left
          (sent ++ request cmd_eval name)
  get_named_vec_f8-reply name ph sz_key_blob sz_vals d x t k n keys skipped vals fd hn is key_words
        h h' h0 hk room hs zeros e n0 room' small at =
      Runs-named_keys name ph sz_key_blob sz_vals d x t k (length keys) fd hn is key_words h h' room
        (λ t' at'.
          Runs-read_named keys skipped vals sz_vals n fd h0 hk hs zeros e n0 room' small at')
        at

  -- With as many names as the caller's buffer for values holds, or more, `get_named_vec_F8` gives
  -- up with -1 behind the 12 bytes: the values of an exact fit are left on the socket. There is one
  -- byte of names at least and less than 2^31, and the socket is not negative.
  read_named-full :
      {s : os.State} {left sent : List ℕ} (keys skipped : List ℕ) (sz_vals : ℕ)
      → is_neg sock ≡ false
      → 0 < length keys
      → length keys < 2 ^ 31
      → length skipped ≡ 12
      → sz_vals ≤ count_zeros keys
      → At link s (keys ++ (skipped ++ left)) sent
      → Fails link (read_named os sock (length keys) sz_vals) s bad left sent
  unfolding read_named
  read_named-full keys skipped sz_vals fd h0 h hs full at = rw (int_of-small (length keys) h) (
      Fails-bind link _ (get_buf_from_sock-want link keys (length keys) fd refl h0 h at) λ s1 at1.
        Fails-bind link _
          (get_buf_from_sock-want link skipped 12 fd hs (omega arith) (omega arith) at1)
          λ s2 at2. Fails-reject link bad _ (le→leb sz_vals (count_zeros keys) full) at2)
