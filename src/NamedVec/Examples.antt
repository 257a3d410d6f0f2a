-- ===== src/NamedVec/Examples.antt =====
-- A named vector of two values, and a buffer that it fills, at concrete values.
use c2r.Common.{ℕ, ◌≡◌, refl, List, [], ◌∷◌, ◌++◌, some, pos, codes, replicate, arith}
use c2r.Os.Script.{peer, script, script_link}
use c2r.Os.Link.{Runs}
use c2r.Wire.{Phdr, phdr_bytes}
use c2r.Wire.Constants.{cmd_eval}
use c2r.Client.Exec.{request}
use c2r.NamedVec.{count_zeros, get_named_vec_f8}
use c2r.NamedVec.Reads.{words, get_named_vec_f8-reply}

abbrev ph : Phdr
ph = record { cmd = 0x10001; len = 60; msg_id = 0; res = 0 }

abbrev keys : List ℕ
keys = codes "a" ++ 0 ∷ codes "b" ++ 0 ∷ []

abbrev skipped : List ℕ
skipped = replicate 12 1

abbrev vals : List ℕ
vals = replicate 16 64

two_keys : count_zeros keys ≡ 2
unfolding count_zeros
two_keys = refl

get_named_vec_f8-reply_example :
    Runs
      (script_link (pos 3))
      (get_named_vec_f8 script (pos 3) (some (codes "x")) 64 8)
      (peer
        (phdr_bytes ph ++ (words 0x380a 5 0x2815 0x422 ++ (keys ++ (skipped ++ (vals ++ 99 ∷ [])))))
        3)
      (record { key_blob = keys; vals = vals; n_key_blob = 4; n_vals = 2 })
      (99 ∷ [])
      ([] ++ request cmd_eval (codes "x"))
get_named_vec_f8-reply_example =
    get_named_vec_f8-reply (script_link (pos 3)) (codes "x") ph 64 8 0x380a 5 0x2815 0x422 2 keys
      skipped vals refl (omega arith)
      (record { cmd = omega arith; len = omega arith; msg_id = omega arith; res = omega arith })
      (record {
        sexp = (refl, omega arith);
        long = refl;
        list_tag = (refl, omega arith);
        keys = (refl, omega arith);
        size = refl;
      })
      (omega arith) (omega arith) (omega arith) (omega arith) (omega arith) refl two_keys refl
      (omega arith) (omega arith) (omega arith) (record { left_lem = refl; sent_lem = refl })
