-- ===== src/Client/Session.antt =====
-- A session: commands that are sent one after another with `exec_str`, and a server that answers.
use c2r.Common.{
  ℕ, ◌^◌, ◌<◌, ◌≡◌, ◌⊎◌, List, [], ◌∷◌, ◌++◌, Option, some, true, false, ℤ, pos, is_neg, length,
  All, append_assoc, append-nil,
}
use c2r.Os.{Os}
use c2r.Os.Actions.{M, pure, ◌>>=◌}
use c2r.Os.Link.{Link, At, Runs, Runs-bind, Runs-pure}
use c2r.Wire.{Phdr}
use c2r.Wire.Constants.{cmd_eval}
use c2r.Client.{exec_str}
use c2r.Client.Exec.{request, reply, IsReply, exec_str-reply}

-- a command with the type that is expected, and the parts of the reply
pub record Exchange : Type 0 where
  pub str : List ℕ
  pub expected_xt : ℤ
  pub ph : Phdr
  pub dt : ℕ
  pub w : ℕ
  pub xt : ℕ
  pub out : List ℕ

pub record IsAnswered (e : Exchange) : Type 0 where
  pub short : length e.str < 2 ^ 30
  pub is_reply : IsReply e.ph e.dt e.w e.xt e.out
  pub accepted : (is_neg e.expected_xt ≡ true) ⊎ (e.expected_xt ≡ pos e.xt)

-- what the server sends, what it is sent, and the data
abbrev pub replies : List Exchange → List ℕ → List ℕ
replies [] left = left
replies (e ∷ es) left = reply e.ph e.dt e.w e.out (replies es left)

abbrev pub requests : List Exchange → List ℕ
requests [] = []
requests (e ∷ es) = request cmd_eval e.str ++ requests es

abbrev pub outputs : List Exchange → List (Option (List ℕ))
outputs [] = []
outputs (e ∷ es) = some e.out ∷ outputs es

-- The client of a session: the calls in order, up to the first that fails.
pub exec_each : (os : Os) → ℤ → List Exchange → M os.State (List (Option (List ℕ)))
exec_each os sock [] = pure []
exec_each os sock (e ∷ es) = do
  out ← exec_str os sock (some e.str) true e.expected_xt
  outs ← exec_each os sock es
  pure (out ∷ outs)

module _ {os : Os} {sock : ℤ} (link : Link os sock) where
  -- A session of any length stays in step: where the stream holds one reply of the accepted type
  -- for each command, in order, every call of `exec_str` gets the data of its own reply, the
  -- requests go out in order, and what follows the last reply is left, in whatever pieces the
  -- stream comes. Each command and each reply's data have less than 2^30 bytes, and the socket is
  -- not negative.
  pub exec_each-replies :
      {s : os.State} {left sent : List ℕ} (es : List Exchange)
      → is_neg sock ≡ false
      → All IsAnswered es
      → At link s (replies es left) sent
      → Runs link (exec_each os sock es) s (outputs es) left (sent ++ requests es)
  unfolding exec_each
  exec_each-replies {sent} [] fd h at = rw append-nil (Runs-pure link [] at)
  exec_each-replies {s = s} {left = left} {sent = sent} (e ∷ es) fd h at =
      rw (← append_assoc sent (request cmd_eval e.str) (requests es)) (
        Runs-bind link _
          (exec_str-reply link e.str e.expected_xt e.ph e.dt e.w e.xt e.out fd h.0.short
            h.0.is_reply h.0.accepted at)
          λ s1 at1.
            Runs-bind link _ (exec_each-replies {s = s1} es fd h.1 at1)
              λ s2 at2. Runs-pure link (some e.out ∷ outputs es) at2)
