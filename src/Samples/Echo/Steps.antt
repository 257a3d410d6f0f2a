-- ===== src/Samples/Echo/Steps.antt =====
-- What a read of part of a message does to a buffer and a queue.
use c2r.Common.{
  ℕ, zero, suc, ◌+◌, ◌-◌, ◌^◌, ◌≤◌, ◌<◌, ◌≡◌, refl, sym, ap, ◌∙◌, List, [], ◌∷◌, ◌++◌, Option, some,
  ℤ, pos, length, drop, replicate, le32, length-append, length-drop, length-replicate, append_assoc,
  arith,
}
use native.Mathlib.Numerals.{unary_clauses}
use c2r.Query.{int_at}
use c2r.Query.Replies.{int_at-le32}
use c2r.Samples.{store_at}
use c2r.Samples.Transfer.{store_at-append}
use c2r.Samples.Echo.{Chunk}
use c2r.Samples.Echo.Phases.{Half}

pub some_injective {ℓ} : {A : Type ℓ} {x y : A} → ◌≡◌ {A = Option A} (some x) (some y) → x ≡ y
some_injective e = cc

-- some of a queue of equal bytes
record Cut (m b : ℕ) (bs rest : List ℕ) : Type 0 where
  few : length bs ≤ m
  bs_lem : bs ≡ replicate (length bs) b
  rest_lem : rest ≡ replicate (m - length bs) b

head_lem : {x y : ℕ} {xs ys : List ℕ} → (x ∷ xs) ≡ (y ∷ ys) → x ≡ y
head_lem e = cc

tail_lem : {x y : ℕ} {xs ys : List ℕ} → (x ∷ xs) ≡ (y ∷ ys) → xs ≡ ys
tail_lem e = cc

cut : (m b : ℕ) (bs rest : List ℕ) → replicate m b ≡ bs ++ rest → Cut m b bs rest
cut m b [] rest e = record {
  few = omega arith;
  bs_lem = refl;
  rest_lem = simp unary_clauses (sym e);
}
cut zero b (x ∷ bs) rest e = absurd cc
cut (suc m) b (x ∷ bs) rest e =
    let c = cut m b bs rest (tail_lem e) in
    record {
      few = omega (arith, c.few);
      bs_lem = rw (← head_lem e) (ap (λ l. b ∷ l) c.bs_lem);
      rest_lem = simp unary_clauses c.rest_lem;
    }

replicate_add : (i j b : ℕ) → replicate i b ++ replicate j b ≡ replicate (i + j) b
replicate_add zero j b = ap (λ m. replicate m b) (let e : j ≡ 0 + j = omega arith in e)
replicate_add (suc i) j b =
    ap (λ l. b ∷ l) (replicate_add i j b)
    ∙ ap (λ m. replicate m b) (let e : suc (i + j) ≡ suc i + j = omega arith in e)

same_split :
    (xs ys ws zs : List ℕ) → xs ++ ys ≡ ws ++ zs → length xs ≡ length ws → (xs ≡ ws) × (ys ≡ zs)
same_split [] ys [] zs e h = (refl, e)
same_split [] ys (w ∷ ws) zs e h = absurd (omega arith)
same_split (x ∷ xs) ys [] zs e h = absurd (omega arith)
same_split (x ∷ xs) ys (w ∷ ws) zs e h =
    let (p, q) = same_split xs ys ws zs (tail_lem e) (omega arith) in
    (let x_is = head_lem e in cc, q)

-- The size, in front of the rest of a message.
pub record Started (buf' queue' : List ℕ) (read : ℤ) (b n : ℕ) (len : ℕ) : Type 0 where
  pub read_lem : read ≡ pos n
  pub half : Half buf' queue' 4 b n
  pub length_lem : length buf' ≡ len

pub size-Started :
    {queue rest buf' : List ℕ} {read : ℤ} (buf size : List ℕ) (n b : ℕ)
    → 4 ≤ n
    → n < 2 ^ 31
    → n ≤ length buf
    → queue ≡ le32 n ++ replicate (n - 4) b
    → queue ≡ size ++ rest
    → length size ≡ 4
    → store_at buf (pos 0) size ≡ some buf'
    → int_at buf' ≡ some read
    → Started buf' rest read b n (length buf)
size-Started {rest} {buf'} {read} buf size n b low small fits q split four stored int =
    let room : List ℕ = drop 4 buf in
    let (size_lem, rest_lem) =
      same_split (le32 n) (replicate (n - 4) b) size rest (sym q ∙ split) (sym four) in
    let stored' : store_at buf (pos 0) (le32 n) ≡ some (le32 n ++ room) =
      store_at-append [] buf (le32 n) (omega arith) in
    let same : le32 n ++ room ≡ buf' =
      some_injective (sym stored' ∙ ap (λ l. store_at buf (pos 0) l) size_lem ∙ stored) in
    record {
      read_lem = some_injective (sym int ∙ ap int_at (sym same) ∙ int_at-le32 n room small);
      half = record {
        j = 0;
        room = room;
        k_lem = refl;
        most = low;
        buf_lem = sym same;
        queue_lem = sym rest_lem;
      };
      length_lem =
          ap length (sym same)
          ∙ (let e : length (le32 n ++ room) ≡ length buf = omega (arith, length-drop 4 buf) in e);
    }

-- A piece of a message has its place in the buffer.
pub Chunk-stored :
    {queue rest : List ℕ} {k b n limit : ℕ} (buf bs : List ℕ)
    → n ≤ length buf
    → (h : Half buf queue k b n) → Chunk queue limit bs rest
    → store_at buf (pos k) bs
      ≡ some ((le32 n ++ replicate h.j b) ++ (bs ++ drop (length bs) h.room))
Chunk-stored {rest} {k} {b} {n} buf bs fits h c =
    let c' = cut (n - k) b bs rest (sym h.queue_lem ∙ c.split) in
    let done : List ℕ = le32 n ++ replicate h.j b in
    let k_is : length done ≡ k = omega (arith, h.k_lem, length-replicate {A = ℕ} h.j b) in
    let len : length buf ≡ length done + length h.room =
      ap length h.buf_lem ∙ length-append done h.room in
    ap (λ l. store_at l (pos k) bs) h.buf_lem
    ∙ ap (λ m. store_at (done ++ h.room) (pos m) bs) (sym k_is)
    ∙ store_at-append done h.room bs (omega (arith, c'.few, h.most, k_is, len))

-- One more piece.
pub record More (buf' queue' : List ℕ) (k i b n : ℕ) (len : ℕ) : Type 0 where
  pub half : Half buf' queue' (k + i) b n
  pub length_lem : length buf' ≡ len

pub Chunk-More :
    {queue rest buf' : List ℕ} {k b n limit : ℕ} (buf bs : List ℕ)
    → n ≤ length buf
    → Half buf queue k b n
    → Chunk queue limit bs rest
    → store_at buf (pos k) bs ≡ some buf'
    → More buf' rest k (length bs) b n (length buf)
Chunk-More {queue} {rest} {buf'} {k} {b} {n} buf bs fits h c stored =
    let c' = cut (n - k) b bs rest (sym h.queue_lem ∙ c.split) in
    let done : List ℕ = le32 n ++ replicate h.j b in
    let i = length bs in
    let k_is : length done ≡ k = omega (arith, h.k_lem, length-replicate {A = ℕ} h.j b) in
    let len : length buf ≡ length done + length h.room =
      ap length h.buf_lem ∙ length-append done h.room in
    let same : done ++ (bs ++ drop i h.room) ≡ buf' =
      some_injective (sym (Chunk-stored buf bs fits h c) ∙ stored) in
    let grown : done ++ bs ≡ le32 n ++ replicate (h.j + i) b =
      ap (λ l. done ++ l) c'.bs_lem ∙ ap (λ l. le32 n ++ l) (replicate_add h.j i b) in
    record {
      half = record {
        j = h.j + i;
        room = drop i h.room;
        k_lem = omega (arith, h.k_lem);
        most = omega (arith, c'.few, h.most);
        buf_lem =
            sym same
            ∙ sym (append_assoc done bs (drop i h.room))
            ∙ ap (λ l. l ++ drop i h.room) grown;
        queue_lem =
            c'.rest_lem
            ∙ ap (λ m. replicate m b) (let e : n - k - i ≡ n - (k + i) = omega arith in e);
      };
      length_lem =
          ap length (sym same)
          ∙ (let e : length (done ++ (bs ++ drop i h.room)) ≡ length buf = omega (
            arith,
            len,
            length-append done (bs ++ drop i h.room),
            length-append bs (drop i h.room),
            length-drop i h.room,
            c'.few,
            h.most,
            k_is,
          ) in
              e);
    }
