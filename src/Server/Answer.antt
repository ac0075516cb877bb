-- ===== src/Server/Answer.antt =====
-- What a client gets on a connection on which nothing fails.
use crinit.Base.{ℕ, ◌≡◌, refl, ap, ap₂, ◌∙◌, Bool, true, false, ◌&&◌, some, arith, All}
use crinit.Base.Str.{Str}
use crinit.World.{World, ret, return, branch, on_option}
use crinit.World.Laws.{bind-ret}
use crinit.Rtim.{op_str, r_getver}
use crinit.Rtim.Fields.{field, more, nonempty}
use crinit.Rtim.Cmd.{RtimCmd, parsed, parse_rtim_cmd, rtim_cmd_to_msg_str}
use crinit.Rtim.Cmd.Parse.{given, parse_rtim_cmd-given}
use crinit.Rtim.Cmd.Message.{IsArg, given-ok, parse_rtim_cmd-to_msg_str}
use crinit.Command.Exec.{Handlers, exec_rtim_cmd}
use crinit.Server.{
  Ucred, Rights, check_perm, next_op, op_with_code, Connection, dropped, left_open, reply_with,
  deny, on_parsed, serve_cmd, serve,
}
use crinit.Server.Laws.{serve_cmd-deny, serve_cmd-served, after_receipt}

-- A connection on which nothing fails
pub record IsSound (c : Connection) : Type 0 where
  pub accepted : c.accepted ≡ true
  pub pass_cred : c.pass_cred ≡ true
  pub rtr_sent : c.rtr_sent ≡ true
  pub parse_array : c.parse_alloc 0 ≡ true
  pub parse_args : c.parse_alloc 1 ≡ true
  pub deny_array : c.deny_alloc 0 ≡ true
  pub deny_args : c.deny_alloc 1 ≡ true
  pub message : c.msg_alloc ≡ true
  pub sent : c.sent ≡ true

good : (x y z : Bool) → x ≡ true → y ≡ true → z ≡ true → (x && y && z) ≡ true
good x y z e f g = ground (arith, e, f, g)

serve-serve_cmd :
    (r : Rights) (h : Handlers) (c : Connection) (msg : Str) (creds : Ucred) (cmd : RtimCmd)
    (w : World)
    → IsSound c
    → c.received ≡ some (msg, creds)
    → parse_rtim_cmd c.parse_alloc msg ≡ parsed cmd
    → serve r h c w ≡ serve_cmd r h c creds cmd w
unfolding serve
serve-serve_cmd r h c msg creds cmd w s got e =
    ap
      (λ b.
        branch b (on_option c.received (return dropped) (after_receipt r h c)) (return dropped) w)
      (good c.accepted c.pass_cred c.rtr_sent s.accepted s.pass_cred s.rtr_sent)
    ∙ ap (λ o. on_option o (return dropped) (after_receipt r h c) w) got
    ∙ ap (λ p. on_parsed p (serve_cmd r h c creds) w) e

reply_with-sent :
    (c : Connection) (res : RtimCmd) (m : Str) (n : ℕ) (w : World)
    → IsSound c
    → rtim_cmd_to_msg_str true res ≡ some (m, n)
    → reply_with c res w ≡ ret (record { reply = some m; open_sock = false; available = true }) w
unfolding reply_with
reply_with-sent c res m n w s e = rw (s.message, e, s.sent) refl

-- A client with the permission, on a connection on which nothing fails, sends a printed command and
-- gets the handler's response: what the command does to the state is what the handler does to it, the
-- answer is read back as the response, and the worker is available again. The arguments of the command
-- and of the response are not empty and have no delimiter, and the handler makes a response.
pub serve-to_msg_str :
    (r : Rights) (h : Handlers) (c : Connection) (alloc : ℕ → Bool) (creds : Ucred)
    (cmd res : RtimCmd) (w v : World)
    → IsSound c
    → alloc 0 ≡ true
    → alloc 1 ≡ true
    → All IsArg cmd.args
    → All IsArg res.args
    → check_perm r cmd.op creds ≡ true
    → exec_rtim_cmd h cmd w ≡ ret (some res) v
    → (msg : Str) → (n : ℕ) → rtim_cmd_to_msg_str true cmd ≡ some (msg, n)
    → c.received ≡ some (msg, creds)
    → (m : Str) × (serve r h c w
        ≡ ret (record { reply = some m; open_sock = false; available = true }) v)
      × (parse_rtim_cmd alloc m ≡ parsed res)
serve-to_msg_str r h c alloc creds cmd res w v s a b ca ra perm ex msg n printed got =
    let sent : (m : Str) × (k : ℕ) × (rtim_cmd_to_msg_str true cmd ≡ some (m, k))
        × (parse_rtim_cmd c.parse_alloc m ≡ parsed cmd) =
      parse_rtim_cmd-to_msg_str c.parse_alloc cmd s.parse_array s.parse_args ca in
    let back : (m : Str) × (k : ℕ) × (rtim_cmd_to_msg_str true res ≡ some (m, k))
        × (parse_rtim_cmd alloc m ≡ parsed res) =
      parse_rtim_cmd-to_msg_str alloc res a b ra in
    (
      back.0,
      serve-serve_cmd r h c msg creds cmd w s got
            (ap (parse_rtim_cmd c.parse_alloc) (ground (arith, printed, sent.2)) ∙ sent.3)
          ∙ serve_cmd-served r h c creds cmd w perm
          ∙ bind-ret (exec_rtim_cmd h cmd) _ w v (some res) ex
          ∙ reply_with-sent c res back.0 back.1 v s back.2,
      back.3,
    )

-- The last opcode has none after it.
deny-left_open : (c : Connection) (w : World) → IsSound c → deny c r_getver w ≡ ret left_open w
unfolding deny next_op op_with_code
deny-left_open c w s = rw (s.deny_array, s.deny_args) refl

-- The message that names the response of GETVER, from any user, on a connection on which nothing fails,
-- is answered with nothing, the connection stays open, and the worker does not become available again.
pub serve-left_open :
    (r : Rights) (h : Handlers) (c : Connection) (msg : Str) (creds : Ucred) (w : World)
    → IsSound c
    → c.received ≡ some (msg, creds)
    → field msg ≡ op_str r_getver
    → serve r h c w ≡ ret left_open w
unfolding check_perm
serve-left_open r h c msg creds w s got e =
    serve-serve_cmd r h c msg creds (record { op = r_getver; args = nonempty (more msg) }) w s got
      ((parse_rtim_cmd-given c.parse_alloc msg).0 r_getver e
        ∙ ap₂ (λ x y. given x y r_getver (nonempty (more msg))) s.parse_array s.parse_args
        ∙ given-ok r_getver (nonempty (more msg)))
    ∙ serve_cmd-deny r h c creds (record { op = r_getver; args = nonempty (more msg) }) w refl
    ∙ deny-left_open c w s
