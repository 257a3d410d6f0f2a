-- ===== src/Samples/Echo/Invariant.antt =====
-- Every step of the two programs leads from a phase to a later one.
use c2r.Common.{
  ℕ, suc, ◌+◌, ◌-◌, ◌*◌, ◌%◌, ◌^◌, ◌≡◌, refl, sym, ap, ◌∙◌, [], ◌∷◌, ◌++◌, List, ◌<◌, ◌⊎◌, inl, inr,
  append-nil, false, ◌||◌, pos, is_nonpos, length, take, replicate, length-append, arith,
  take-append, word_of,
}
use c2r.Samples.{lt_int, store_at}
use c2r.Samples.MyClient.{message}
use c2r.Samples.MyClient.Reply.{request, reply, length-reply}
use c2r.Samples.Echo.{
  World, c_write, c_size, c_read, s_size, s_read, checked, c_ended, IsWhole, IsWholeClient,
  IsWholeServer, ClientStep, ServerStep, Step, by_client, by_server,
}
use c2r.Samples.Echo.Phases.{
  Sized, Half, Phase, idle, sent, filling, answered, draining, left, Later, Ended,
}
use c2r.Samples.Echo.Steps.{some_injective, size-Started, Chunk-More}
use c2r.Samples.Echo.Messages.{
  message-request, less_rounds, checked-valid, kept, ok_injective, s_read_injective,
  c_read_injective, whole, full, empty, converted, size-valid,
}

append_nil_right : (xs ys : List ℕ) → xs ++ ys ≡ [] → ys ≡ []
append_nil_right [] ys e = e
append_nil_right (x ∷ xs) ys e = absurd cc

less_int : (n : ℕ) → n < 2 ^ 31 → n % 2 ^ 31 ≡ n
less_int n h = omega arith

module _ {w w' : World} {n : ℕ} (sz : Sized w n) where
  idle-client :
      w.client ≡ c_write
      → w.server ≡ s_size
      → w.up ≡ []
      → w.down ≡ []
      → (st : ClientStep w w') → IsWholeClient st
      → Ended w' ⊎ Later w' n (w.rounds * (2 * n + 5))
  idle-client c s u d (ClientStep.reads_none k2 m2 at lt gone to) wh = absurd cc
  idle-client c s u d (ClientStep.read_fails k2 m2 at lt to) wh = absurd cc
  idle-client c s u d (ClientStep.ends at e to) wh = inl (rw to (refl, u))
  idle-client c s u d (ClientStep.writes r sendbuf out lost i at e m int valid split to) wh =
      let whole_out : out ≡ sendbuf =
        sym (append-nil out) ∙ ap (λ l. out ++ l) (sym wh) ∙ sym split in
      let up : w.up ++ out ≡ request n =
        ap (λ l. l ++ out) u
        ∙ whole_out
        ∙ some_injective (sym m ∙ ap message sz.size_lem ∙ message-request n sz.low) in
      inr (
        rw to (record {
          sized = kept sz _ refl refl refl refl;
          phase = sent r e refl s up d;
          less = less_rounds r w.rounds (2 * n + 5) (2 * n + 4) e (omega arith);
        }))
  idle-client c s u d (ClientStep.skips r sendbuf i at e m int bad_size to) wh =
      let valid : (is_nonpos i || lt_int (pos w.size) i) ≡ false =
        size-valid sz.low sz.small sz.size_lem m int in
      absurd cc
  idle-client c s u d (ClientStep.reads_size size rest buf' m at q few st int to) wh = absurd cc
  idle-client c s u d (ClientStep.reads k m bs rest buf' at lt ch st to) wh = absurd cc
  idle-client c s u d (ClientStep.ends_round k m r at lt e to) wh = absurd cc

  client-waits :
      {A : Type 0} → w.client ≡ c_size → w.down ≡ [] → (st : ClientStep w w') → IsWholeClient st → A
  client-waits c d (ClientStep.reads_none k2 m2 at lt gone to) wh = absurd cc
  client-waits c d (ClientStep.read_fails k2 m2 at lt to) wh = absurd cc
  client-waits c d (ClientStep.ends at e to) wh = absurd cc
  client-waits c d (ClientStep.writes r sendbuf out lost i at e m int valid split to) wh = absurd cc
  client-waits c d (ClientStep.skips r sendbuf i at e m int bad_size to) wh = absurd cc
  client-waits c d (ClientStep.reads_size [] rest buf' m at q few st int to) wh =
      absurd (omega arith)
  client-waits c d (ClientStep.reads_size (x ∷ size) rest buf' m at q few st int to) wh = absurd cc
  client-waits c d (ClientStep.reads k m bs rest buf' at lt ch st to) wh = absurd cc
  client-waits c d (ClientStep.ends_round k m r at lt e to) wh = absurd cc

  server-waits :
      {A : Type 0} → w.server ≡ s_size → w.up ≡ [] → (st : ServerStep w w') → IsWholeServer st → A
  server-waits s u (ServerStep.sees_end k2 m2 at lt gone ended to) wh = absurd cc
  server-waits s u (ServerStep.read_fails k2 m2 at lt to) wh = absurd cc
  server-waits s u (ServerStep.write_fails k2 m2 twos at lt e to) wh = absurd cc
  server-waits s u (ServerStep.reads_size [] rest buf' m at q few st int to) wh =
      absurd (omega arith)
  server-waits s u (ServerStep.reads_size (x ∷ size) rest buf' m at q few st int to) wh = absurd cc
  server-waits s u (ServerStep.reads k m bs rest buf' at lt ch st to) wh = absurd cc
  server-waits s u (ServerStep.answers k m twos out lost at lt e split to) wh = absurd cc
  server-waits s u (ServerStep.refuses k m e at lt er to) wh = absurd cc

  module _ (r : ℕ) (rounds : w.rounds ≡ suc r) where
    sent-server :
        w.client ≡ c_size
        → w.server ≡ s_size
        → w.up ≡ request n
        → w.down ≡ []
        → (st : ServerStep w w') → IsWholeServer st
        → Later w' n (r * (2 * n + 5) + (2 * n + 4))
    sent-server c s u d (ServerStep.sees_end k2 m2 at lt gone ended to) wh = absurd cc
    sent-server c s u d (ServerStep.read_fails k2 m2 at lt to) wh = absurd cc
    sent-server c s u d (ServerStep.write_fails k2 m2 twos at lt e to) wh = absurd cc
    sent-server c s u d (ServerStep.reads_size size rest buf' m at q few st int to) wh =
        let got = size-Started w.buf size n 1 sz.low sz.small sz.fits u q wh st int in
        let valid : checked w.szbuf m ≡ s_read (pos 4) (pos n) =
          ap (checked w.szbuf) got.read_lem
          ∙ checked-valid w.szbuf n (omega (arith, sz.low))
              (omega (arith, sz.fits, sz.szbuf_lem)) in
        let low = sz.low in
        rw to (record {
          sized = kept sz _ refl refl refl got.length_lem;
          phase = filling r 4 rounds c valid got.half d;
          less = omega arith;
        })
    sent-server c s u d (ServerStep.reads k m bs rest buf' at lt ch st to) wh = absurd cc
    sent-server c s u d (ServerStep.answers k m twos out lost at lt e split to) wh = absurd cc
    sent-server c s u d (ServerStep.refuses k m e at lt er to) wh = absurd cc

    filling-server :
        (k : ℕ)
        → w.client ≡ c_size
        → w.server ≡ s_read (pos k) (pos n)
        → Half w.buf w.up k 1 n
        → w.down ≡ []
        → (st : ServerStep w w') → IsWholeServer st
        → Later w' n (r * (2 * n + 5) + (n + 2 + (n - k)))
    filling-server k c s h d (ServerStep.sees_end k2 m2 at lt gone ended to) wh = absurd cc
    filling-server k c s h d (ServerStep.read_fails k2 m2 at lt to) wh = absurd wh
    filling-server k c s h d (ServerStep.write_fails k2 m2 twos at lt e to) wh = absurd wh
    filling-server k c s h d (ServerStep.reads_size size rest buf' m at q few st int to) wh =
        absurd cc
    filling-server k c s h d (ServerStep.reads k' m bs rest buf' at lt ch st to) wh =
        let (k_is, m_is) = s_read_injective (sym at ∙ s) in
        let more =
          Chunk-More w.buf bs sz.fits h ch (ap (λ i. store_at w.buf i bs) (sym k_is) ∙ st) in
        let most = more.half.most in
        let some_bytes = ch.some_bytes in
        rw to (record {
          sized = kept sz _ refl refl refl more.length_lem;
          phase = filling r (k + length bs) rounds c (rw (k_is, m_is) refl) more.half d;
          less = omega arith;
        })
    filling-server k c s h d (ServerStep.answers k' m twos out lost at lt e split to) wh =
        let (k_is, m_is) = s_read_injective (sym at ∙ s) in
        let end : n ≡ k =
          whole (ap (λ i. lt_int i (pos n)) (sym k_is) ∙ ap (lt_int k') (sym m_is) ∙ lt) h in
        let twos_is : twos ≡ replicate (n - 4) 2 ++ h.room =
          ok_injective (sym e ∙ converted m h end m_is) in
        let answer : take 4 w.buf ++ twos ≡ reply n ++ h.room = rw (twos_is, full h end) refl in
        let low = sz.low in
        let same : length (take 4 w.buf ++ twos) ≡ length w.buf =
          ap length answer
          ∙ length-append (reply n) h.room
          ∙ (let e : length (reply n) + length h.room ≡ length (request n) + length h.room =
                omega (arith, length-reply n 1 low, length-reply n 2 low) in
              e)
          ∙ sym (length-append (request n) h.room)
          ∙ ap length (sym (full h end)) in
        let small = sz.small in
        let cut : word_of 31 m ≡ length (reply n) =
          ap (word_of 31) m_is
          ∙ (let e : n % 2 ^ 31 ≡ length (reply n) = omega (arith, length-reply n 2 low) in e) in
        let whole_out : out ≡ take (word_of 31 m) (take 4 w.buf ++ twos) =
          sym (append-nil out) ∙ ap (λ l. out ++ l) (sym wh) ∙ sym split in
        let down : w.down ++ out ≡ reply n =
          ap (λ l. l ++ out) d
          ∙ whole_out
          ∙ ap (λ l. take (word_of 31 m) l) answer
          ∙ ap (λ i. take i (reply n ++ h.room)) cut
          ∙ take-append (reply n) h.room in
        rw to (record {
          sized = kept sz _ refl refl refl same;
          phase = answered r rounds c refl (empty h end) down;
          less = omega arith;
        })
    filling-server k c s h d (ServerStep.refuses k' m e at lt er to) wh =
        let (k_is, m_is) = s_read_injective (sym at ∙ s) in
        let end : n ≡ k =
          whole (ap (λ i. lt_int i (pos n)) (sym k_is) ∙ ap (lt_int k') (sym m_is) ∙ lt) h in
        let passes = converted m h end m_is in absurd cc

    answered-client :
        w.client ≡ c_size
        → w.server ≡ s_size
        → w.up ≡ []
        → w.down ≡ reply n
        → (st : ClientStep w w') → IsWholeClient st
        → Later w' n (r * (2 * n + 5) + (n + 1))
    answered-client c s u d (ClientStep.reads_none k2 m2 at lt gone to) wh = absurd cc
    answered-client c s u d (ClientStep.read_fails k2 m2 at lt to) wh = absurd cc
    answered-client c s u d (ClientStep.ends at e to) wh = absurd cc
    answered-client c s u d (ClientStep.writes r' sendbuf out lost i at e m int valid split to) wh =
        absurd cc
    answered-client c s u d (ClientStep.skips r' sendbuf i at e m int bad_size to) wh = absurd cc
    answered-client c s u d (ClientStep.reads_size size rest buf' m at q few st int to) wh =
        let got =
          size-Started w.rcvbuf size n 2 sz.low sz.small (omega (arith, sz.rcvbuf_lem)) d q wh st
            int in
        let low = sz.low in
        rw to (record {
          sized = kept sz _ refl refl got.length_lem refl;
          phase = draining r 4 rounds (ap (c_read (pos 4)) got.read_lem) s u got.half;
          less = omega arith;
        })
    answered-client c s u d (ClientStep.reads k m bs rest buf' at lt ch st to) wh = absurd cc
    answered-client c s u d (ClientStep.ends_round k m r' at lt e to) wh = absurd cc

    draining-client :
        (k : ℕ)
        → w.client ≡ c_read (pos k) (pos n)
        → w.server ≡ s_size
        → w.up ≡ []
        → Half w.rcvbuf w.down k 2 n
        → (st : ClientStep w w') → IsWholeClient st
        → Later w' n (r * (2 * n + 5) + (1 + (n - k)))
    draining-client k c s u h (ClientStep.reads_none k2 m2 at lt gone to) wh = elim gone [
      | inl closed ↦ let (d, x) = closed in absurd cc
      | inr zero_asked ↦
          let (k_is, m_is) = c_read_injective (sym at ∙ c) in
          let none_of : 0 ≡ n = ap (word_of 31) (sym zero_asked ∙ m_is) ∙ less_int n sz.small in
          absurd (omega (arith, none_of, sz.low))
    ]
    draining-client k c s u h (ClientStep.read_fails k2 m2 at lt to) wh = absurd wh
    draining-client k c s u h (ClientStep.ends at e to) wh = absurd cc
    draining-client k c s u h (ClientStep.writes r' sendbuf out lost i at e m int valid split to)
          wh =
        absurd cc
    draining-client k c s u h (ClientStep.skips r' sendbuf i at e m int bad_size to) wh = absurd cc
    draining-client k c s u h (ClientStep.reads_size size rest buf' m at q few st int to) wh =
        absurd cc
    draining-client k c s u h (ClientStep.reads k' m bs rest buf' at lt ch st to) wh =
        let (k_is, m_is) = c_read_injective (sym at ∙ c) in
        let more =
          Chunk-More w.rcvbuf bs (omega (arith, sz.rcvbuf_lem)) h ch
            (ap (λ i. store_at w.rcvbuf i bs) (sym k_is) ∙ st) in
        let most = more.half.most in
        let some_bytes = ch.some_bytes in
        rw to (record {
          sized = kept sz _ refl refl more.length_lem refl;
          phase = draining r (k + length bs) rounds (rw (k_is, m_is) refl) s u more.half;
          less = omega arith;
        })
    draining-client k c s u h (ClientStep.ends_round k' m r' at lt e to) wh =
        let (k_is, m_is) = c_read_injective (sym at ∙ c) in
        let r_is : r' ≡ r = omega arith in
        let end : n ≡ k =
          whole (ap (λ i. lt_int i (pos n)) (sym k_is) ∙ ap (lt_int k') (sym m_is) ∙ lt) h in
        rw to (record {
          sized = kept sz _ refl refl refl refl;
          phase = idle refl s u (empty h end);
          less = rw r_is (omega arith);
        })

pub Step-Later :
    {w w' : World} {n : ℕ}
    → Sized w n
    → (p : Phase w n) (st : Step w w') → IsWhole st
    → Ended w' ⊎ Later w' n (left p)
Step-Later sz (idle c s u d) (by_client st) wh = idle-client sz c s u d st wh
Step-Later sz (idle c s u d) (by_server st) wh = server-waits sz s u st wh
Step-Later sz (sent r e c s u d) (by_client st) wh = client-waits sz c d st wh
Step-Later sz (sent r e c s u d) (by_server st) wh = inr (sent-server sz r e c s u d st wh)
Step-Later sz (filling r k e c s h d) (by_client st) wh = client-waits sz c d st wh
Step-Later sz (filling r k e c s h d) (by_server st) wh =
    inr (filling-server sz r e k c s h d st wh)
Step-Later sz (answered r e c s u d) (by_client st) wh = inr (answered-client sz r e c s u d st wh)
Step-Later sz (answered r e c s u d) (by_server st) wh = server-waits sz s u st wh
Step-Later sz (draining r k e c s u h) (by_client st) wh =
    inr (draining-client sz r e k c s u h st wh)
Step-Later sz (draining r k e c s u h) (by_server st) wh = server-waits sz s u st wh

-- The client's end is for good, and it leaves nothing on the way to the server.
pub Step-Ended : {w w' : World} → Ended w → Step w w' → Ended w'
Step-Ended (c, u) (by_client st) = client-Ended c st
  where
    client-Ended : {A : Type 0} {w w' : World} → w.client ≡ c_ended → ClientStep w w' → A
    client-Ended c (ClientStep.writes r sendbuf out lost i at e m int valid split to) = absurd cc
    client-Ended c (ClientStep.skips r sendbuf i at e m int bad_size to) = absurd cc
    client-Ended c (ClientStep.reads_size size rest buf' m at q few st int to) = absurd cc
    client-Ended c (ClientStep.reads k m bs rest buf' at lt ch st to) = absurd cc
    client-Ended c (ClientStep.reads_none k m at lt gone to) = absurd cc
    client-Ended c (ClientStep.read_fails k m at lt to) = absurd cc
    client-Ended c (ClientStep.ends_round k m r at lt e to) = absurd cc
    client-Ended c (ClientStep.ends at e to) = absurd cc
Step-Ended (c, u) (by_server (ServerStep.reads_size size rest buf' m at q few st int to)) =
    rw to (c, append_nil_right size rest (sym q ∙ u))
Step-Ended (c, u) (by_server (ServerStep.reads k m bs rest buf' at lt ch st to)) =
    rw to (c, append_nil_right bs rest (sym ch.split ∙ u))
Step-Ended (c, u) (by_server (ServerStep.sees_end k m at lt gone ended to)) = rw to (c, u)
Step-Ended (c, u) (by_server (ServerStep.read_fails k m at lt to)) = rw to (c, u)
Step-Ended (c, u) (by_server (ServerStep.answers k m twos out lost at lt e split to)) = rw to (c, u)
Step-Ended (c, u) (by_server (ServerStep.write_fails k m twos at lt e to)) = rw to (c, u)
Step-Ended (c, u) (by_server (ServerStep.refuses k m e at lt er to)) = rw to (c, u)
