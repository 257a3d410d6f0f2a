-- ===== src/GetVec/Settles.antt =====
-- `get_vec` ends, whatever the calls of the system return.
use c2r.Common.{ℕ, List, Option, ℤ}
use c2r.Os.{Os}
use c2r.Os.Actions.{Outcome, lift, ok, err, fault, stuck}
use c2r.Os.Settles.{
  Settles, IsSettled, IsSettled-if, Settles-lift, Settles-bind, Settles-try, settles_rules,
}
use c2r.Client.Settles.{
  Settles-alloc, Settles-get_buf, Settles-mk_dt_string, Settles-send_request, Settles-read_hdr,
}
use c2r.Scalar.Settles.{Settles-read_types}
use c2r.SetVec.{Elem}
use c2r.GetVec.{readable_of, vec_out, early, skip_count, request_vec, read_vec, get_vec}

IsSettled-readable_of : (qtype : List ℕ) → IsSettled (readable_of qtype)
unfolding readable_of
IsSettled-readable_of qtype = search IsSettled-if

IsSettled-early : {A : Type 0} (r : Outcome A) → IsSettled r → IsSettled (early r)
IsSettled-early (ok a) h = tt
IsSettled-early (err e) h = tt
IsSettled-early fault h = tt
IsSettled-early stuck h = h

IsSettled-vec_out : (n : ℤ) (r : Outcome (List ℕ)) → IsSettled r → IsSettled (vec_out n r)
IsSettled-vec_out n (ok a) h = tt
IsSettled-vec_out n (err e) h = tt
IsSettled-vec_out n fault h = tt
IsSettled-vec_out n stuck h = h

module _ (os : Os) where
  Settles-skip_count : (sock : ℤ) (e : Elem) (n : ℤ) → Settles (skip_count os sock e n)
  unfolding skip_count
  Settles-skip_count sock e n = search (settles_rules, Settles-get_buf) depth 12

  Settles-readable_of : (qtype : List ℕ) → Settles {S = os.State} (lift (readable_of qtype))
  Settles-readable_of qtype = Settles-lift _ (IsSettled-readable_of qtype)

  Settles-request_vec :
      (sock : ℤ) (name qtype : Option (List ℕ)) → Settles (request_vec os sock name qtype)
  unfolding request_vec
  Settles-request_vec sock name qtype =
      search
        (
          settles_rules, Settles-readable_of, Settles-mk_dt_string, Settles-send_request,
          Settles-read_hdr, Settles-read_types, Settles-skip_count,
        )
        depth 24

  Settles-read_vec : (sock sz : ℤ) → Settles (read_vec os sock sz)
  unfolding read_vec
  Settles-read_vec sock sz = search (settles_rules, Settles-alloc, Settles-get_buf) depth 12

  pub Settles-get_vec :
      (sock : ℤ) (name qtype : Option (List ℕ)) → Settles (get_vec os sock name qtype)
  unfolding get_vec
  Settles-get_vec sock name qtype =
      Settles-bind _ _ (Settles-try _ early (Settles-request_vec sock name qtype) IsSettled-early)
        λ p. Settles-try _ (vec_out _) (Settles-read_vec sock _) (IsSettled-vec_out _)
