-- ===== src/SetVec/Settles.antt =====
-- `set_vec` ends, whatever the calls of the system return.
use c2r.Common.{ℕ, zero, suc, ◌+◌, List, Option, none, some, ℤ, length, leb, ltb}
use c2r.Os.{Os}
use c2r.Os.Actions.{Outcome, M, err, bad, fault, lift}
use c2r.Os.Settles.{Settles, IsSettled, IsSettled-if, Settles-lift, settles_rules}
use c2r.Client.Settles.{
  Settles-send_all, Settles-read_hdr, Settles-memalign, Settles-mk_dt_string, Settles-mk_hdr,
}
use c2r.SetVec.{
  Elem, elem_of, text_at, sc_len, sc_pack, pack_texts, send_words, exchange, store_param2,
  set_plain, set_texts, non_empty, set_vec,
}

IsSettled-elem_of : (qtype : List ℕ) (in_width : ℕ) → IsSettled (elem_of qtype in_width)
unfolding elem_of
IsSettled-elem_of qtype in_width = search IsSettled-if depth 12

IsSettled-option :
    {A B : Type 0} (p : Option A) (f : A → Outcome B)
    → ((a : A) → IsSettled (f a))
    → IsSettled (elim p [ none ↦ fault | some a ↦ f a ])
IsSettled-option none f h = tt
IsSettled-option (some a) f h = h a

IsSettled-sc_len :
    (n : ℕ) (buf : List ℕ) (width i cum_len : ℕ) → IsSettled (sc_len n buf width i cum_len)
unfolding sc_len
IsSettled-sc_len zero buf width i cum_len = tt
IsSettled-sc_len (suc k) buf width i cum_len =
    IsSettled-option (text_at buf width i) _ λ s.
      IsSettled-if (leb width (length s)) (err bad) _ tt (IsSettled-sc_len k buf width (i + 1) _)

IsSettled-sc_pack :
    (n : ℕ) (buf : List ℕ) (width cap i : ℕ) (alt_data : List ℕ)
    → IsSettled (sc_pack n buf width cap i alt_data)
unfolding sc_pack
IsSettled-sc_pack zero buf width cap i alt_data = tt
IsSettled-sc_pack (suc k) buf width cap i alt_data = IsSettled-option (text_at buf width i) _ λ s.
    IsSettled-if (ltb cap (length alt_data + length s)) fault _ tt
      (IsSettled-sc_pack k buf width cap (i + 1) _)

module _ (os : Os) where
  Settles-elem_of :
      (qtype : List ℕ) (in_width : ℕ) → Settles {S = os.State} (lift (elem_of qtype in_width))
  Settles-elem_of qtype in_width = Settles-lift _ (IsSettled-elem_of qtype in_width)

  Settles-sc_len :
      (n : ℕ) (buf : List ℕ) (width i c : ℕ)
      → Settles {S = os.State} (lift (sc_len n buf width i c))
  Settles-sc_len n buf width i c = Settles-lift _ (IsSettled-sc_len n buf width i c)

  Settles-sc_pack :
      (n : ℕ) (buf : List ℕ) (width cap i : ℕ) (alt_data : List ℕ)
      → Settles {S = os.State} (lift (sc_pack n buf width cap i alt_data))
  Settles-sc_pack n buf width cap i alt_data =
      Settles-lift _ (IsSettled-sc_pack n buf width cap i alt_data)

  Settles-pack_texts : (buf : List ℕ) (width n : ℕ) → Settles (pack_texts os buf width n)
  unfolding pack_texts
  Settles-pack_texts buf width n = search (settles_rules, Settles-sc_len, Settles-sc_pack) depth 12

  Settles-send_words : (sock : ℤ) (bs : List ℕ) → Settles (send_words os sock bs)
  unfolding send_words
  Settles-send_words sock bs = search settles_rules depth 12

  Settles-exchange :
      (sock : ℤ) (param1 : List ℕ) (len_param2 : ℕ) (words : List ℕ) (body : M os.State (List ℕ))
      → Settles body
      → Settles (exchange os sock param1 len_param2 words body)
  unfolding exchange
  Settles-exchange sock param1 len_param2 words body h =
      search (settles_rules, Settles-mk_hdr, Settles-send_all, Settles-send_words, Settles-read_hdr)
        depth 24

  Settles-store_param2 : (len_param2 len_hdr : ℕ) → Settles (store_param2 os len_param2 len_hdr)
  unfolding store_param2
  Settles-store_param2 len_param2 len_hdr = search (settles_rules, Settles-memalign) depth 12

  Settles-set_plain :
      (sock : ℤ) (param1 : List ℕ) (e : Elem) (buf : List ℕ) (n : ℕ)
      → Settles (set_plain os sock param1 e buf n)
  unfolding set_plain
  Settles-set_plain sock param1 e buf n =
      search (settles_rules, Settles-store_param2, Settles-exchange) depth 12

  Settles-set_texts :
      (sock : ℤ) (param1 : List ℕ) (e : Elem) (buf : List ℕ) (n : ℕ)
      → Settles (set_texts os sock param1 e buf n)
  unfolding set_texts
  Settles-set_texts sock param1 e buf n =
      search (settles_rules, Settles-pack_texts, Settles-store_param2, Settles-exchange) depth 12

  Settles-non_empty : (p : Option (List ℕ)) → Settles (non_empty os p)
  unfolding non_empty
  Settles-non_empty p = search settles_rules depth 12

  pub Settles-set_vec :
      (sock : ℤ) (name qtype buf : Option (List ℕ)) (n in_width : ℕ)
      → Settles (set_vec os sock name qtype buf n in_width)
  unfolding set_vec
  Settles-set_vec sock name qtype buf n in_width =
      search
        (
          settles_rules, Settles-non_empty, Settles-elem_of, Settles-mk_dt_string,
          Settles-set_texts, Settles-set_plain,
        )
        depth 24
