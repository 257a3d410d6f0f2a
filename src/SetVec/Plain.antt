-- ===== src/SetVec/Plain.antt =====
-- `set_vec` of src/set_vec.c for numbers and booleans: the messages that it sends.
use c2r.Common.{
  ℕ, ◌+◌, ◌*◌, ◌%◌, ◌^◌, ◌≤◌, ◌<◌, ◌≡◌, refl, ap, ◌∙◌, List, ◌++◌, some, true, false, ℤ, is_neg,
  length, take, codes, bytes_eq, arith, ◌==◌, ltb, append_left, length-append, length-take,
  if◌then◌else◌,
}
use c2r.Os.{Os}
use c2r.Os.Actions.{ok, M, deref, ◌>>=◌}
use c2r.Os.Link.{Link, At, Runs, Runs-bind, Runs-pure, Runs-pass, Runs-guard}
use c2r.Wire.{Phdr, phdr_bytes, command_code}
use c2r.Wire.Constants.{cmd_set_sexp}
use c2r.Wire.Header.{IsPhdr, request_hdr, length-phdr_bytes}
use c2r.Wire.DtString.{param, length-param, Runs-memalign, Runs-mk_dt_string}
use c2r.Client.Transfer.{Runs-send_all, Runs-read_hdr}
use c2r.Client.Exec.{Runs-mk_hdr}
use c2r.SetVec.{
  Elem, elem_of, param2_hdr, len_hdr_param2, bytes_of, send_words, exchange, store_param2,
  set_plain, set_texts, set_vec, non_empty,
}

-- The request that stores the `data` bytes of `n` elements under a name: the header, the name, and
-- the SEXP, whose size in the header counts its own words.
abbrev pub payload : List ℕ → Elem → ℕ → List ℕ → List ℕ
payload name e n bytes =
    param name ++ (param2_hdr (len_hdr_param2 e + length bytes) e n (length bytes) ++ bytes)

abbrev pub set_request : List ℕ → Elem → ℕ → List ℕ → List ℕ
set_request name e n bytes =
    phdr_bytes (request_hdr cmd_set_sexp (length (param name) + (len_hdr_param2 e + length bytes)))
    ++ payload name e n bytes

pub length-param2_hdr :
    (len_param2 : ℕ) (e : Elem) (n cum_len : ℕ)
    → length (param2_hdr len_param2 e n cum_len) ≡ len_hdr_param2 e
unfolding param2_hdr
length-param2_hdr len_param2 e n cum_len = ground arith

len_hdr_bounds : (e : Elem) → (8 ≤ len_hdr_param2 e) × (len_hdr_param2 e ≤ 12)
len_hdr_bounds e = ground arith

bytes_of_lem : (n : ℕ) (buf : List ℕ) → n ≤ length buf → bytes_of n buf ≡ some (take n buf)
unfolding bytes_of
bytes_of_lem n buf h = ground arith

-- The length in the header of the request is that of all that follows it.
pub length-payload :
    (name : List ℕ) (e : Elem) (n : ℕ) (bytes : List ℕ)
    → length (payload name e n bytes) ≡ length (param name) + (len_hdr_param2 e + length bytes)
length-payload name e n bytes =
    let words = param2_hdr (len_hdr_param2 e + length bytes) e n (length bytes) in
    omega (
      arith,
      length-append (param name) (words ++ bytes),
      length-append words bytes,
      length-param2_hdr (len_hdr_param2 e + length bytes) e n (length bytes),
    )

module _ {os : Os} {sock : ℤ} (link : Link os sock) where
  Runs-send_words :
      {s : os.State} {left sent : List ℕ} (bs : List ℕ)
      → length bs < 2 ^ 31
      → At link s left sent
      → Runs link (send_words os sock bs) s tt left (sent ++ bs)
  unfolding send_words ◌>>=◌
  Runs-send_words {s} bs h at =
      let (s', e, l, o) = link.send_lem bs s in
      record {
        final = s';
        runs = rw e (ground arith);
        at = record { left_lem = l ∙ at.left_lem; sent_lem = o ∙ ap (λ x. x ++ bs) at.sent_lem };
      }

  pub Runs-exchange :
      {s : os.State} {left sent : List ℕ} (param1 words bytes : List ℕ) (len_param2 : ℕ)
      (body : M os.State (List ℕ)) (ph : Phdr)
      → is_neg sock ≡ false
      → length param1 + len_param2 < 2 ^ 31
      → length words ≤ 12
      → length bytes ≤ len_param2
      → ((t : os.State) (l o : List ℕ) → At link t l o → Runs link body t bytes l o)
      → IsPhdr ph
      → ph.len ≡ 0
      → At link s (phdr_bytes ph ++ left) sent
      → Runs link (exchange os sock param1 len_param2 words body) s tt left (
          sent
          ++ (phdr_bytes (request_hdr cmd_set_sexp (length param1 + len_param2))
              ++ (param1 ++ (words ++ bytes))))
  unfolding exchange command_code
  Runs-exchange {sent} param1 words bytes len_param2 body ph fd h hw hb run is e at =
      let hd = request_hdr cmd_set_sexp (length param1 + len_param2) in
      rw (append_left sent (phdr_bytes hd) param1 words bytes) (
        Runs-bind link _
          (Runs-mk_hdr link (codes "CMD_setSEXP") (length param1 + len_param2) cmd_set_sexp refl h
            at)
          λ s1 at1.
            Runs-bind link _
              (Runs-send_all link (phdr_bytes hd) (omega (arith, length-phdr_bytes hd)) at1)
              λ s2 at2. Runs-bind link _ (Runs-send_all link param1 (omega arith) at2) λ s3 at3.
                Runs-bind link _ (Runs-send_words words (omega arith) at3) λ s4 at4.
                  Runs-bind link _ (run s4 _ _ at4) λ s5 at5.
                    Runs-bind link _ (Runs-send_all link bytes (omega arith) at5) λ s6 at6.
                      Runs-bind link _ (Runs-read_hdr link ph fd is at6) λ s7 at7.
                        rw (let z : (ph.len == 0) ≡ true = ground arith in z)
                          (Runs-pure link tt at7))

  pub Runs-store_param2 :
      {s : os.State} {left sent : List ℕ} (len_param2 len_hdr : ℕ)
      → len_param2 < 2 ^ 31
      → len_hdr ≤ len_param2
      → At link s left sent
      → Runs link (store_param2 os len_param2 len_hdr) s tt left sent
  unfolding store_param2
  Runs-store_param2 len_param2 len_hdr h h' at =
      Runs-bind link _ (Runs-memalign link len_param2 (omega arith) at) λ s1 at1.
        rw (let z : ltb len_param2 len_hdr ≡ false = ground arith in z) (Runs-pure link tt at1)

  pub Runs-set_plain :
      {s : os.State} {left sent : List ℕ} (name : List ℕ) (e : Elem) (buf : List ℕ) (n : ℕ)
      (ph : Phdr)
      → is_neg sock ≡ false
      → length (param name) + n * e.width < 2 ^ 30
      → n * e.width ≤ length buf
      → IsPhdr ph
      → ph.len ≡ 0
      → At link s (phdr_bytes ph ++ left) sent
      → Runs link
          (set_plain os sock (param name) e buf n)
          s
          tt
          left
          (sent ++ set_request name e n (take (n * e.width) buf))
  unfolding set_plain
  Runs-set_plain name e buf n ph fd h hb is z at =
      let cum = n * e.width in
      let bytes = take cum buf in
      let small : cum % 2 ^ 32 ≡ cum = omega arith in
      let sum : (len_hdr_param2 e + cum) % 2 ^ 32 ≡ len_hdr_param2 e + cum =
        omega (arith, len_hdr_bounds e) in
      let all : length bytes ≡ cum = omega (arith, length-take cum buf) in
      rw small (
        rw sum (
          rw all (
            Runs-bind link _
              (Runs-store_param2 (len_hdr_param2 e + cum) (len_hdr_param2 e)
                (omega (arith, len_hdr_bounds e)) (omega arith) at)
              λ s1 at1.
                Runs-exchange (param name) (param2_hdr (len_hdr_param2 e + cum) e n cum) bytes
                  (len_hdr_param2 e + cum) (deref (bytes_of cum buf)) ph fd
                  (omega (arith, len_hdr_bounds e))
                  (omega
                    (arith, len_hdr_bounds e, length-param2_hdr (len_hdr_param2 e + cum) e n cum))
                  (omega arith) (λ t l o. rw (bytes_of_lem cum buf hb) (Runs-pure link bytes)) is z
                  at1)))

  Runs-non_empty :
      {s : os.State} {left sent : List ℕ} (text : List ℕ)
      → 0 < length text
      → At link s left sent
      → Runs link (non_empty os (some text)) s text left sent
  unfolding non_empty
  Runs-non_empty text h at =
      Runs-pass link text _ (Runs-guard link _ _ (ground arith) (Runs-pure link text at))

  -- the tests and the first parameter, up to the choice between texts and numbers
  pub Runs-front :
      {s : os.State} {left sent left' sent' : List ℕ} (name qtype buf : List ℕ) (e : Elem)
      (n in_width : ℕ)
      → is_neg sock ≡ false
      → elem_of qtype in_width ≡ ok e
      → 0 < length name
      → 0 < length qtype
      → 0 < n
      → length name < 2 ^ 30
      → ((t : os.State)
          → At link t left sent
          → Runs link
              (if bytes_eq qtype (codes "SC")
                then set_texts os sock (param name) e buf n
                else set_plain os sock (param name) e buf n)
              t
              tt
              left'
              sent')
      → At link s left sent
      → Runs link (set_vec os sock (some name) (some qtype) (some buf) n in_width) s tt left' sent'
  unfolding set_vec
  Runs-front name qtype buf e n in_width fd el hn hq h0 h next at = Runs-guard link _ _ fd (
      Runs-bind link _ (Runs-non_empty name hn at) λ s1 at1.
        Runs-bind link _ (Runs-non_empty qtype hq at1) λ s2 at2. Runs-pass link buf _ (
          Runs-guard link _ _ (ground arith) (
            rw el (
              Runs-pass link e _
                (Runs-bind link _ (Runs-mk_dt_string link name (omega arith) at2) next)))))

  -- Over a working connection `set_vec` of n numbers or booleans, which the caller's buffer holds,
  -- sends one request, whose words are those of `param2_hdr`, and returns 0, where the name, the type's name and n are not
  -- empty or 0, the whole has less than 2^30 bytes, and the reply is a header of length 0. It reads
  -- that header and nothing else. The socket is not negative.
  pub set_vec-set_request :
      {s : os.State} {left sent : List ℕ} (name qtype buf : List ℕ) (e : Elem) (n in_width : ℕ)
      (ph : Phdr)
      → is_neg sock ≡ false
      → elem_of qtype in_width ≡ ok e
      → bytes_eq qtype (codes "SC") ≡ false
      → 0 < length name
      → 0 < length qtype
      → 0 < n
      → length (param name) + n * e.width < 2 ^ 30
      → n * e.width ≤ length buf
      → IsPhdr ph
      → ph.len ≡ 0
      → At link s (phdr_bytes ph ++ left) sent
      → Runs link
          (set_vec os sock (some name) (some qtype) (some buf) n in_width)
          s
          tt
          left
          (sent ++ set_request name e n (take (n * e.width) buf))
  set_vec-set_request name qtype buf e n in_width ph fd el not_sc hn hq h0 h hb is z =
      Runs-front name qtype buf e n in_width fd el hn hq h0 (omega (arith, length-param name))
        λ t at. rw not_sc (Runs-set_plain name e buf n ph fd h hb is z at)
