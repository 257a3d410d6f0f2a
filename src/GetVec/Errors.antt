-- ===== src/GetVec/Errors.antt =====
-- The errors of `get_vec` before `data` is declared.
use c2r.Common.{
  ℕ, ◌≡◌, ◌≢◌, inl, inr, false, codes, bytes_eq, eq_of_bytes_eq, Bool-cases, refl, List, Option,
  some, ℤ,
}
use c2r.Os.{Os}
use c2r.Os.Clean.{IsClean}
use c2r.Client.Status.{AlignDocumented, Clean-mk_dt_string}
use c2r.Os.Actions.{M, stuck, continue, Outcome, ok, err, fault, bad, ◌>>=◌, try}
use c2r.GetVec.{readable_of, early, request_vec, get_vec}

early_cases :
    {S A : Type 0} (r : Outcome (List ℕ)) (f : List ℕ → M S A) (s : S)
    → IsClean r
    → ((p : List ℕ) (t : S) → early (f p t).0 ≡ fault)
    → early (continue r f s).0 ≡ fault
early_cases (ok p) f s c h = h p s
early_cases (err e) f s c h = refl
early_cases fault f s c h = refl
early_cases stuck f s c h = absurd c

other_text : (s t : List ℕ) → s ≢ t → bytes_eq s t ≡ false
other_text s t ne = elim (Bool-cases (bytes_eq s t)) [
  | inl same ↦ absurd (ne (eq_of_bytes_eq s t same))
  | inr other ↦ other
]

unreadable :
    (qtype : List ℕ)
    → qtype ≢ codes "F8"
    → qtype ≢ codes "I4"
    → qtype ≢ codes "I1"
    → readable_of qtype ≡ err bad
unfolding readable_of
unreadable qtype not_f8 not_i4 not_i1 =
    rw
      (
        other_text qtype (codes "F8") not_f8,
        other_text qtype (codes "I4") not_i4,
        other_text qtype (codes "I1") not_i1,
      )
      refl

request_vec-unreadable :
    (os : Os) (sock : ℤ) (name : Option (List ℕ)) (qtype : List ℕ) (s : os.State)
    → AlignDocumented os
    → readable_of qtype ≡ err bad
    → early (request_vec os sock name (some qtype) s).0 ≡ fault
unfolding request_vec ◌>>=◌
request_vec-unreadable os sock name qtype s documented h =
    early_cases _ _ _ ((Clean-mk_dt_string os documented name).at s) (λ p t. rw h)

-- A type name other than "F8", "I4" and "I1", "SC" say, makes `get_vec` end in undefined behaviour,
-- whatever the socket, the name and the server: it goes to BYE, where `data` is freed before it has
-- been set. `posix_memalign` returns no negative number, as documented.
pub get_vec-unreadable :
    (os : Os) (sock : ℤ) (name : Option (List ℕ)) (qtype : List ℕ) (s : os.State)
    → AlignDocumented os
    → qtype ≢ codes "F8"
    → qtype ≢ codes "I4"
    → qtype ≢ codes "I1"
    → (get_vec os sock name (some qtype) s).0 ≡ fault
unfolding get_vec try ◌>>=◌
get_vec-unreadable os sock name qtype s documented not_f8 not_i4 not_i1 =
    let h = unreadable qtype not_f8 not_i4 not_i1 in
    rw (request_vec-unreadable os sock name qtype s documented h)
