-- ===== src/Server.antt =====
-- src/notiserv.c: who may give which command, and the serving of one connection.
pub mod Laws
pub mod Answer
pub mod Workers
mod Tests
use crinit.Base.{
  ℕ, zero, suc, ◌+◌, ◌≡◌, Bool, true, false, not, ◌&&◌, List, [], ◌∷◌, Option, none, some, ◌==◌,
  if◌then◌else◌, Status, ok, err,
}
use crinit.Base.Str.{Str, codes}
use crinit.Base.Int.{ℤ}
use crinit.World.{World, Outcome, ret, fault, M, ◌>>=◌, return, branch, on_option}
use crinit.Rtim.{
  RtimOp, op_code, rtim_ops, c_addtask, c_addseries, c_enable, c_disable, c_stop, c_kill, c_restart,
  c_notify, c_status, c_tasklist, c_shutdown, c_getver,
}
use crinit.Rtim.Cmd.{
  RtimCmd, Parsed, refused, uninitialised, parsed, parse_rtim_cmd, rtim_cmd_to_msg_str,
}
use crinit.Command.{res_err, build_cmd}
use crinit.Command.Exec.{Handlers, exec_rtim_cmd}

-- `struct ucred`
pub record Ucred : Type 0 where
  pub pid : ℤ
  pub uid : ℕ
  pub gid : ℕ

-- `geteuid`, and whether the process has CAP_SYS_BOOT in effect, `none` if `capget` fails
pub record Rights : Type 0 where
  pub euid : ℕ
  pub cap_sys_boot : ℤ → Option Bool

abbrev pub has_cap : Option Bool → Bool
has_cap none = false
has_cap (some b) = b

-- `crinitCheckPerm`
unfoldable pub check_perm : Rights → RtimOp → Ucred → Bool
check_perm r op creds = elim op [
  | c_addtask ↦ creds.uid == r.euid
  | c_addseries ↦ creds.uid == r.euid
  | c_enable ↦ creds.uid == r.euid
  | c_disable ↦ creds.uid == r.euid
  | c_stop ↦ creds.uid == r.euid
  | c_kill ↦ creds.uid == r.euid
  | c_restart ↦ creds.uid == r.euid
  | c_notify ↦ creds.uid == r.euid
  | c_status ↦ true
  | c_tasklist ↦ true
  | c_getver ↦ true
  | c_shutdown ↦ has_cap (r.cap_sys_boot creds.pid)
  | _ ↦ false
]

-- The operation with a code, if there is one
unfoldable pub op_with_code : List (RtimOp × Str) → ℕ → Option RtimOp
op_with_code [] n = none
op_with_code (e ∷ ops) n = if op_code e.0 == n then some e.0 else op_with_code ops n

-- `cmd.op + 1`
unfoldable pub next_op : RtimOp → Option RtimOp
unfolding op_with_code
next_op op = op_with_code rtim_ops (op_code op + 1)

-- What the calls on the socket and the allocations of one round do: `accept`, `setsockopt`, the
-- sending of "RTR", the message that is received with its credentials, the allocations of the
-- reading, of a denial and of the response's message, and the sending of the response
pub record Connection : Type 0 where
  pub accepted : Bool
  pub pass_cred : Bool
  pub rtr_sent : Bool
  pub received : Option (Str × Ucred)
  pub parse_alloc : ℕ → Bool
  pub deny_alloc : ℕ → Bool
  pub msg_alloc : Bool
  pub sent : Bool

-- What one round leaves: the response that was sent, whether the connection's socket is still open,
-- and whether `crinitThreadPoolThreadAvailCallback` was called
pub record Round : Type 0 where
  pub reply : Option Str
  pub open_sock : Bool
  pub available : Bool

-- `continue` with and without the socket closed
abbrev pub dropped : Round
dropped = record { reply = none; open_sock = false; available = false }

abbrev pub left_open : Round
left_open = record { reply = none; open_sock = true; available = false }

-- The end of the loop's body, from the response on
unfoldable pub reply_with : Connection → RtimCmd → M Round
reply_with c res = on_option (rtim_cmd_to_msg_str c.msg_alloc res) (return left_open) λ msg.
    branch c.sent (return (record { reply = some msg.0; open_sock = false; available = true }))
      (return dropped)

-- A response whose opcode is one past a command's. Past the last one it has no name.
unfoldable pub deny : Connection → RtimOp → M Round
unfolding reply_with next_op
deny c op =
    branch (c.deny_alloc 0 && c.deny_alloc 1)
      (on_option (next_op op) (return left_open)
        λ op'. reply_with c (record { op = op'; args = res_err ∷ codes "Permission denied." ∷ [] }))
      (return dropped)

-- From the parsed command on
unfoldable pub serve_cmd : Rights → Handlers → Connection → Ucred → RtimCmd → M Round
unfolding deny reply_with
serve_cmd r h c creds cmd =
    branch (check_perm r cmd.op creds)
      (do res ← exec_rtim_cmd h cmd; on_option res (return dropped) (λ x. reply_with c x))
      (deny c cmd.op)

abbrev pub on_parsed : Parsed → (RtimCmd → M Round) → M Round
on_parsed refused f w = ret dropped w
on_parsed uninitialised f w = fault
on_parsed (parsed cmd) f w = f cmd w

-- The body of the loop of `crinitConnThread`
unfoldable pub serve : Rights → Handlers → Connection → M Round
unfolding serve_cmd
serve r h c =
    branch (c.accepted && c.pass_cred && c.rtr_sent)
      (on_option c.received (return dropped)
        λ p. on_parsed (parse_rtim_cmd c.parse_alloc p.0) (serve_cmd r h c p.1))
      (return dropped)
