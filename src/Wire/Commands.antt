-- ===== src/Wire/Commands.antt =====
-- The commands that `mk_hdr` knows: when it makes a header, and that no two commands share a number.
use c2r.Common.{
  ℕ, ◌%◌, ◌^◌, ◌≡◌, ◌↔◌, refl, sym, ap, ◌∙◌, List, Option, some, Bool, true, false, ℤ, pos, negsuc,
  codes, bytes_eq, eq_of_bytes_eq, if◌then◌else◌, ◌==◌,
}
use c2r.Os.Actions.{ok, bad, ◌>>=◌}
use c2r.Os.Returns.{guard_ok, non_null_ok, pure_ok}
use c2r.Wire.{Phdr, Pointer, null, valid, command_code, mk_hdr}
use c2r.Wire.Constants.{cmd_shutdown, cmd_set_sexp, cmd_eval, cmd_void_eval}
use c2r.Wire.Header.{request_hdr}

-- the text of a command, by its number
abbrev text_of : ℕ → List ℕ
text_of n =
    if n == cmd_shutdown
    then codes "CMD_shutdown"
    else if n == cmd_set_sexp
    then codes "CMD_setSEXP"
    else if n == cmd_eval
    then codes "CMD_eval"
    else codes "CMD_voidEval"

module _ (command text : List ℕ) (code known : ℕ) where
  choose :
      (b : Bool) (rest : Option ℕ)
      → bytes_eq command text ≡ b
      → text_of known ≡ text
      → (rest ≡ some code → command ≡ text_of code)
      → (if b then some known else rest) ≡ some code
      → command ≡ text_of code
  choose true rest e t k h =
      let same : known ≡ code = cc in eq_of_bytes_eq command text e ∙ sym t ∙ ap text_of same
  choose false rest e t k h = k h

command_code-text :
    (command : List ℕ) (code : ℕ) → command_code command ≡ some code → command ≡ text_of code
unfolding command_code
command_code-text command code =
    choose command (codes "CMD_shutdown") code cmd_shutdown _ _ refl refl (
      choose command (codes "CMD_setSEXP") code cmd_set_sexp _ _ refl refl (
        choose command (codes "CMD_eval") code cmd_eval _ _ refl refl (
          choose command (codes "CMD_voidEval") code cmd_void_eval _ _ refl refl
            (λ h. absurd (cc)))))

-- Two commands for which `mk_hdr` stores the same number are the same text.
command_code-injective :
    (a b : List ℕ) (code : ℕ) → command_code a ≡ some code → command_code b ≡ some code → a ≡ b
command_code-injective a b code ha hb =
    command_code-text a code ha ∙ sym (command_code-text b code hb)

abbrev pub IsMade : Option (List ℕ) → ℤ → Pointer → Phdr → Type 0
IsMade command payload_len ph hdr =
    (text : List ℕ) × (code : ℕ) × (n : ℕ) × (command ≡ some text)
    × (command_code text ≡ some code)
    × (payload_len ≡ pos n)
    × (ph ≡ valid)
    × (hdr ≡ request_hdr code (n % 2 ^ 32))

module _ {S : Type 0} where
  mk_hdr-IsMade :
      (command : Option (List ℕ)) (payload_len : ℤ) (ph : Pointer) (hdr : Phdr) (s s' : S)
      → mk_hdr command payload_len ph s ≡ (ok hdr, s')
      → IsMade command payload_len ph hdr
  unfolding mk_hdr
  mk_hdr-IsMade command (negsuc n) ph hdr s s' h =
      let (text, is_text, h1) = non_null_ok command _ s hdr s' h in
      let (not_null, h2) = guard_ok _ _ _ s hdr s' h1 in
      let (negative, h3) = guard_ok true bad _ s hdr s' h2 in absurd (cc)
  mk_hdr-IsMade command (pos n) null hdr s s' h =
      let (text, is_text, h1) = non_null_ok command _ s hdr s' h in
      let (not_null, h2) = guard_ok true bad _ s hdr s' h1 in absurd (cc)
  mk_hdr-IsMade command (pos n) valid hdr s s' h =
      let (text, is_text, h1) = non_null_ok command _ s hdr s' h in
      let (not_null, h2) = guard_ok false bad _ s hdr s' h1 in
      let (negative, h3) = guard_ok false bad _ s hdr s' h2 in
      let (code, known, h4) = non_null_ok (command_code text) _ s hdr s' h3 in
      let (made, same) = pure_ok _ hdr s s' h4 in
      (text, code, n, is_text, known, refl, refl, sym made)

  IsMade-mk_hdr :
      (command : Option (List ℕ)) (payload_len : ℤ) (ph : Pointer) (hdr : Phdr) (s : S)
      → IsMade command payload_len ph hdr
      → mk_hdr command payload_len ph s ≡ (ok hdr, s)
  unfolding mk_hdr ◌>>=◌
  IsMade-mk_hdr command payload_len ph hdr s
        (text, code, n, is_text, known, len, is_valid, is_hdr) =
      rw (is_text, len, is_valid) (rw known (ap (λ h. (ok h, s)) (sym is_hdr)))

  -- `mk_hdr` makes a header if and only if the command is one of the four that it knows, the address
  -- is not NULL and the length is not negative; the header then holds the number of the command, the
  -- length and zeros, and nothing else is changed.
  mk_hdr_iff :
      (command : Option (List ℕ)) (payload_len : ℤ) (ph : Pointer) (hdr : Phdr) (s : S)
      → (mk_hdr command payload_len ph s ≡ (ok hdr, s)) ↔ IsMade command payload_len ph hdr
  mk_hdr_iff command payload_len ph hdr s =
      (mk_hdr-IsMade command payload_len ph hdr s s, IsMade-mk_hdr command payload_len ph hdr s)
