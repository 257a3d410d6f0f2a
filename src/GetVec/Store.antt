-- ===== src/GetVec/Store.antt =====
-- `set_vec` and `get_vec` as the operations of a store: a session of both over one connection, and the
-- table of named vectors that it promises.
use c2r.Common.{
  ℕ, ◌*◌, ◌^◌, ◌<◌, ◌≡◌, refl, sym, subst, ap, ◌∙◌, List, [], ◌∷◌, ◌++◌, Option, some, none, true,
  false, ℤ, pos, is_neg, length, take, bytes_eq, arith, append_assoc, append-nil, take-append,
  length-append, Bool-cases, inl, inr,
}
use c2r.Os.{Os}
use c2r.Os.Actions.{M, pure, ◌>>=◌}
use c2r.Os.Link.{Link, At, Prompt, Runs, Runs-bind, Runs-pure}
use c2r.Wire.{phdr_bytes}
use c2r.Wire.Constants.{cmd_eval}
use c2r.Wire.DtString.{length-param}
use c2r.Server.{ack, sexp_hdr, sexp_reply}
use c2r.Server.Reads.{sexp_reply-append}
use c2r.Client.Exec.{request}
use c2r.SetVec.{set_vec}
use c2r.SetVec.Plain.{set_request, set_vec-set_request}
use c2r.GetVec.{VecOut, get_vec}
use c2r.GetVec.Stored.{
  Number, Held, IsHeld, elem_number, name_number, number_facts, sexp_of, stored_elem,
  Runs-get_stored,
}

-- a table of named vectors: what is stored under a name, and the table with one more stored
abbrev pub Table : Type 0
Table = List ℕ → Option Held

abbrev pub empty : Table
empty name = none

abbrev pub keep : Table → Held → Table
keep table h name = elim (bytes_eq h.name name) [ true ↦ some h | false ↦ table name ]

pub data Op : Type 0 where
  -- the vector, and whatever is in the buffer behind it
  put : Held → List ℕ → Op
  get : List ℕ → Number → Op

-- the calls of a client, up to the first that fails, and what those of `get_vec` return
pub perform : (os : Os) → ℤ → List Op → M os.State (List VecOut)
perform os sock [] = pure []
perform os sock (put h rest ∷ ops) = do
  done ← set_vec os sock (some h.name) (some (name_number h.type)) (some (h.bytes ++ rest)) h.n 0
  perform os sock ops
perform os sock (get name t ∷ ops) = do
  out ← get_vec os sock (some name) (some (name_number t))
  outs ← perform os sock ops
  pure (out ∷ outs)

abbrev pub out_of : Held → VecOut
out_of h = record { status = pos 0; bytes = some h.bytes; n = pos h.n }

-- What the table promises, what a server sends that keeps one, and what it is sent.
abbrev pub answers : Table → List Op → List VecOut
answers table [] = []
answers table (put h rest ∷ ops) = answers (keep table h) ops
answers table (get name t ∷ ops) = elim (table name) [
  | none ↦ answers table ops
  | some h ↦ out_of h ∷ answers table ops
]

abbrev pub serve : Table → List Op → List ℕ → List ℕ
serve table [] left = left
serve table (put h rest ∷ ops) left = phdr_bytes ack ++ serve (keep table h) ops left
serve table (get name t ∷ ops) left = elim (table name) [
  | none ↦ serve table ops left
  | some h ↦ sexp_reply (sexp_of h.type h.bytes) ++ serve table ops left
]

abbrev pub requests : List Op → List ℕ
requests [] = []
requests (put h rest ∷ ops) = set_request h.name (elem_number h.type) h.n h.bytes ++ requests ops
requests (get name t ∷ ops) = request cmd_eval name ++ requests ops

-- Each name that is asked for is in the table, with the type that is asked for.
abbrev pub IsReady : Table → List Op → Type 0
IsReady table [] = Unit
IsReady table (put h rest ∷ ops) =
    IsHeld h × (0 < length h.name) × (length h.name < 2 ^ 28) × IsReady (keep table h) ops
IsReady table (get name t ∷ ops) =
    (length name < 2 ^ 30) × ((h : Held) × (table name ≡ some h) × (h.type ≡ t)) × IsReady table ops

some_injective : {a b : Held} → ◌≡◌ {A = Option Held} (some a) (some b) → a ≡ b
some_injective e = cc

keep-IsHeld :
    (table : Table) (h : Held)
    → IsHeld h
    → ((name : List ℕ) (g : Held) → table name ≡ some g → IsHeld g)
    → (name : List ℕ) (g : Held) → keep table h name ≡ some g
    → IsHeld g
keep-IsHeld table h held all name g e = elim (Bool-cases (bytes_eq h.name name)) [
  | inl found ↦
      let q : some h ≡ some g = rw (found, keep) at e in subst IsHeld (some_injective q) held
  | inr other ↦ all name g (rw (other, keep) at e)
]

module _ {os : Os} {sock : ℤ} (link : Link os sock) where
  pub Runs-put :
      {s : os.State} {left sent : List ℕ} (h : Held) (rest : List ℕ)
      → is_neg sock ≡ false
      → IsHeld h
      → 0 < length h.name
      → length h.name < 2 ^ 28
      → At link s (phdr_bytes ack ++ left) sent
      → Runs link
          (set_vec os sock (some h.name) (some (name_number h.type)) (some (h.bytes ++ rest)) h.n 0)
          s
          tt
          left
          (sent ++ set_request h.name (elem_number h.type) h.n h.bytes)
  Runs-put {s} {left} {sent} h rest fd held hn hl at =
      let facts = number_facts h.type in
      let k = h.n * (elem_number h.type).width in
      let front : take k (h.bytes ++ rest) ≡ h.bytes =
        ap (λ i. take i (h.bytes ++ rest)) (sym held.size) ∙ take-append h.bytes rest in
      subst
        (λ b.
          Runs link
            (set_vec os sock (some h.name) (some (name_number h.type)) (some (h.bytes ++ rest)) h.n
              0)
            s tt left (sent ++ set_request h.name (elem_number h.type) h.n b))
        front
        (set_vec-set_request link h.name (name_number h.type) (h.bytes ++ rest) (elem_number h.type)
          h.n 0 ack fd (stored_elem h.type 0) facts.0 hn facts.1 held.some_elements
          (omega (arith, length-param h.name, held.size, held.small))
          (omega (arith, length-append h.bytes rest, held.size))
          (record { cmd = omega arith; len = omega arith; msg_id = omega arith; res = omega arith })
          refl at)

  pub Runs-get :
      {s : os.State} {left sent : List ℕ} (h : Held) (name : List ℕ)
      → Prompt link
      → is_neg sock ≡ false
      → length name < 2 ^ 30
      → IsHeld h
      → At link s (sexp_reply (sexp_of h.type h.bytes) ++ left) sent
      → Runs link
          (get_vec os sock (some name) (some (name_number h.type)))
          s
          (out_of h)
          left
          (sent ++ request cmd_eval name)
  Runs-get {left} h name prompt fd hn is at =
      let sexp = sexp_of h.type h.bytes in
      Runs-get_stored link h.type name h.bytes h.n (length sexp) (sexp_hdr sexp) prompt fd hn
        is.some_elements is.size is.small
        (record {
          cmd = omega arith;
          len = omega (arith, is.small);
          msg_id = omega arith;
          res = omega arith;
        })
        (omega arith) (omega (arith, is.small))
        (record { left_lem = at.left_lem ∙ sexp_reply-append sexp left; sent_lem = at.sent_lem })

  Runs-perform :
      {s : os.State} {left sent : List ℕ} (table : Table) (ops : List Op)
      → Prompt link
      → is_neg sock ≡ false
      → ((name : List ℕ) (g : Held) → table name ≡ some g → IsHeld g)
      → IsReady table ops
      → At link s (serve table ops left) sent
      → Runs link (perform os sock ops) s (answers table ops) left (sent ++ requests ops)
  unfolding perform
  Runs-perform {sent} table [] prompt fd held ready at = rw append-nil (Runs-pure link [] at)
  Runs-perform {s} {left} {sent} table (put h rest ∷ ops) prompt fd held ready at =
      rw (← append_assoc sent (set_request h.name (elem_number h.type) h.n h.bytes) (requests ops))
        (Runs-bind link _ (Runs-put h rest fd ready.0 ready.1 ready.2 at) λ s1 at1.
          Runs-perform {s = s1} (keep table h) ops prompt fd (keep-IsHeld table h ready.0 held)
            ready.3 at1)
  Runs-perform {s} {left} {sent} table (get name t ∷ ops) prompt fd held ready at =
      let (h, e, t_is) = ready.1 in
      let answer : answers table (get name t ∷ ops) ≡ out_of h ∷ answers table ops =
        rw (e, answers) refl in
      let reads =
        Runs-get h name prompt fd ready.0 (held name h e)
          (record { left_lem = at.left_lem ∙ (rw (e, serve) refl); sent_lem = at.sent_lem }) in
      rw (← append_assoc sent (request cmd_eval name) (requests ops), answer, ← t_is)
        (Runs-bind link _ reads λ s1 at1.
          Runs-bind link _ (Runs-perform {s = s1} table ops prompt fd held ready.2 at1)
            λ s2 at2. Runs-pure link (out_of h ∷ answers table ops) at2)

  -- A session of `set_vec` and `get_vec` of numbers, of any length, over a connection that cuts no
  -- message: where the server acknowledges each vector, and answers for each name with the SEXP of the
  -- last request that stored one under it, the calls of `get_vec` return what a table of named vectors
  -- holds that is empty at first, in order, the requests go out in order, and nothing more is read.
  -- Each vector has one element or more and less than 2^24 - 8 bytes, each name that is asked for is
  -- in the table, with its type, and has less than 2^30 bytes, those stored are not empty and have
  -- less than 2^28 bytes, and the socket is not negative.
  pub perform-answers :
      {s : os.State} {left sent : List ℕ} (ops : List Op)
      → Prompt link
      → is_neg sock ≡ false
      → IsReady empty ops
      → At link s (serve empty ops left) sent
      → Runs link (perform os sock ops) s (answers empty ops) left (sent ++ requests ops)
  perform-answers ops prompt fd = Runs-perform empty ops prompt fd (λ name g e. absurd (cc))
