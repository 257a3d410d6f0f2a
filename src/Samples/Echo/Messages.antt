-- ===== src/Samples/Echo/Messages.antt =====
-- What a message is in the buffers, at the start and at the end of a loop that reads it.
use c2r.Common.{
  ℕ, suc, ◌+◌, ◌-◌, ◌*◌, ◌^◌, ◌≤◌, ◌<◌, ◌≡◌, refl, sym, ap, ◌∙◌, List, [], ◌++◌, some, false, ◌||◌,
  ℤ, pos, is_nonpos, length, drop, replicate, le32, arith, ltb-false,
}
use c2r.Os.Actions.{Outcome, ok}
use c2r.Query.{int_at}
use c2r.Query.Replies.{int_at-le32}
use c2r.Samples.{lt_int}
use c2r.Samples.MyClient.{message, past_size}
use c2r.Samples.MyClient.Reply.{request}
use c2r.Samples.MyServer.{to_twos}
use c2r.Samples.MyServer.Serve.{to_twos-replicate}
use c2r.Samples.Echo.{World, c_read, s_read, checked}
use c2r.Samples.Echo.Phases.{Sized, Half}
use c2r.Samples.Echo.Steps.{some_injective}

pub message-request : (n : ℕ) → 4 ≤ n → message n ≡ some (request n)
unfolding message
message-request n h = rw (ltb-false n 4 h) refl

pub less_rounds : (r rounds p x : ℕ) → rounds ≡ suc r → x < p → r * p + x < rounds * p
less_rounds r rounds p x e h = omega (arith, mul)
  where
    mul : rounds * p ≡ r * p + p
    mul = ap (λ m. m * p) e ∙ (omega arith)

pub checked-valid :
    (szbuf n : ℕ) → 0 < n → n ≤ szbuf → checked szbuf (pos n) ≡ s_read (pos 4) (pos n)
checked-valid szbuf n h le =
    let in_range : (is_nonpos (pos n) || lt_int (pos szbuf) (pos n)) ≡ false = ground arith in
    rw in_range refl

pub kept :
    {w : World} {n : ℕ}
    → Sized w n
    → (v : World) → v.size ≡ w.size
    → v.szbuf ≡ w.szbuf
    → length v.rcvbuf ≡ length w.rcvbuf
    → length v.buf ≡ length w.buf
    → Sized v n
kept sz v size szbuf rcvbuf buf = record {
  low = sz.low;
  small = sz.small;
  size_lem = size ∙ sz.size_lem;
  rcvbuf_lem = rcvbuf ∙ sz.rcvbuf_lem;
  szbuf_lem = szbuf ∙ sz.szbuf_lem ∙ sym buf;
  fits = omega (arith, buf, sz.fits);
}

pub ok_injective : {A : Type 0} {x y : A} → ◌≡◌ {A = Outcome A} (ok x) (ok y) → x ≡ y
ok_injective e = cc

pub s_read_injective : {a b c d : ℤ} → s_read a b ≡ s_read c d → (a ≡ c) × (b ≡ d)
s_read_injective e = (cc, cc)

pub c_read_injective : {a b c d : ℤ} → c_read a b ≡ c_read c d → (a ≡ c) × (b ≡ d)
c_read_injective e = (cc, cc)

-- The loop has ended.
pub whole :
    {buf queue : List ℕ} {k b n : ℕ} → lt_int (pos k) (pos n) ≡ false → Half buf queue k b n → n ≡ k
whole {k} {n} lt h = let most = h.most in ground arith

-- the buffer and the queue at the end of the loop
pub full :
    {buf queue : List ℕ} {k b n : ℕ} (h : Half buf queue k b n)
    → n ≡ k
    → buf ≡ (le32 n ++ replicate (n - 4) b) ++ h.room
full {b} {n} h end =
    h.buf_lem
    ∙ ap (λ i. (le32 n ++ replicate i b) ++ h.room)
        (let e : h.j ≡ n - 4 = omega (arith, h.k_lem) in e)

pub empty : {buf queue : List ℕ} {k b n : ℕ} → Half buf queue k b n → n ≡ k → queue ≡ []
empty {k} {b} {n} h end =
    h.queue_lem ∙ ap (λ i. replicate i b) (let z : n - k ≡ 0 = omega arith in z)

pub converted :
    {buf queue : List ℕ} {k n : ℕ} (m : ℤ) (h : Half buf queue k 1 n)
    → n ≡ k
    → m ≡ pos n
    → to_twos (past_size m) (drop 4 buf) ≡ ok (replicate (n - 4) 2 ++ h.room)
converted {n} m h end m_is = rw (m_is, full h end) (to_twos-replicate (n - 4) h.room)

pub size-valid :
    {size n : ℕ} {sendbuf : List ℕ} {i : ℤ}
    → 4 ≤ n
    → n < 2 ^ 31
    → size ≡ n
    → message size ≡ some sendbuf
    → int_at sendbuf ≡ some i
    → (is_nonpos i || lt_int (pos size) i) ≡ false
size-valid {size} {n} {sendbuf} {i} low small is m int =
    let whole_buffer : request n ≡ sendbuf =
      some_injective (sym (message-request n low) ∙ ap message (sym is) ∙ m) in
    let i_is : i ≡ pos n =
      some_injective
        (sym int ∙ ap int_at (sym whole_buffer) ∙ int_at-le32 n (replicate (n - 4) 1) small) in
    let in_range : (is_nonpos (pos n) || lt_int (pos n) (pos n)) ≡ false = ground arith in
    rw (i_is, is) in_range
