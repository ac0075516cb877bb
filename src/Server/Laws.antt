-- ===== src/Server/Laws.antt =====
-- Commands without permission change nothing.
use crinit.Base.{
  ◌≡◌, ◌≢◌, refl, sym, ap, subst, ◌∙◌, Bool, true, false, ◌&&◌, List, [], ◌∷◌, Option, none, some,
  arith, ◌⊎◌, inl, inr,
}
use crinit.Base.Str.{Str}
use crinit.World.{World, Outcome, ret, M, ◌>>=◌, return, branch, on_option}
use crinit.Rtim.{
  RtimOp, op_str, c_addtask, c_addseries, c_enable, c_disable, c_stop, c_kill, c_restart, c_notify,
}
use crinit.Rtim.Fields.{field, more, nonempty}
use crinit.Rtim.Cmd.{RtimCmd, refused, parsed, parse_rtim_cmd, rtim_cmd_to_msg_str}
use crinit.Rtim.Cmd.Parse.{given, parse_rtim_cmd-given}
use crinit.Command.Exec.{Handlers, exec_rtim_cmd}
use crinit.Server.{
  Ucred, Rights, check_perm, next_op, Connection, Round, dropped, left_open, reply_with, deny,
  on_parsed, serve_cmd, serve,
}

-- The operations that change tasks or processes
unfoldable pub is_control : RtimOp → Bool
is_control op = elim op [
  | c_addtask ↦ true
  | c_addseries ↦ true
  | c_enable ↦ true
  | c_disable ↦ true
  | c_stop ↦ true
  | c_kill ↦ true
  | c_restart ↦ true
  | c_notify ↦ true
  | _ ↦ false
]

check_perm-is_control :
    (r : Rights) (op : RtimOp) (creds : Ucred)
    → is_control op ≡ true
    → creds.uid ≢ r.euid
    → check_perm r op creds ≡ false
unfolding check_perm is_control
check_perm-is_control r _ creds h n = ground (arith, h, n)

-- The round is at an end and the state is the same.
Quietly : World → Outcome Round → Type 0
Quietly w o = (x : Round) × (o ≡ ret x w)

Quietly-branch :
    (b : Bool) (m k : M Round) (w : World)
    → Quietly w (m w)
    → Quietly w (k w)
    → Quietly w (branch b m k w)
Quietly-branch true m k w x y = x
Quietly-branch false m k w x y = y

Quietly-on_option :
    {A : Type 0} (o : Option A) (m : M Round) (f : A → M Round) (w : World)
    → Quietly w (m w)
    → ((a : A) → Quietly w (f a w))
    → Quietly w (on_option o m f w)
Quietly-on_option none m f w x y = x
Quietly-on_option (some a) m f w x y = y a

reply_with-Quietly : (c : Connection) (res : RtimCmd) (w : World) → Quietly w (reply_with c res w)
unfolding reply_with Quietly
reply_with-Quietly c res w =
    Quietly-on_option (rtim_cmd_to_msg_str c.msg_alloc res) _ _ w (left_open, refl)
      (λ msg. Quietly-branch c.sent _ _ w (_, refl) (dropped, refl))

deny-Quietly : (c : Connection) (op : RtimOp) (w : World) → Quietly w (deny c op w)
unfolding deny Quietly
deny-Quietly c op w =
    Quietly-branch (c.deny_alloc 0 && c.deny_alloc 1) _ _ w
      (Quietly-on_option (next_op op) _ _ w (left_open, refl) (λ op'. reply_with-Quietly c _ w))
      (dropped, refl)

-- With permission
abbrev pub served : Handlers → Connection → RtimCmd → M Round
served h c cmd = do res ← exec_rtim_cmd h cmd; on_option res (return dropped) (λ x. reply_with c x)

pub serve_cmd-deny :
    (r : Rights) (h : Handlers) (c : Connection) (creds : Ucred) (cmd : RtimCmd) (w : World)
    → check_perm r cmd.op creds ≡ false
    → serve_cmd r h c creds cmd w ≡ deny c cmd.op w
unfolding serve_cmd
serve_cmd-deny r h c creds cmd w e = ap (λ b. branch b (served h c cmd) (deny c cmd.op) w) e

pub serve_cmd-served :
    (r : Rights) (h : Handlers) (c : Connection) (creds : Ucred) (cmd : RtimCmd) (w : World)
    → check_perm r cmd.op creds ≡ true
    → serve_cmd r h c creds cmd w ≡ served h c cmd w
unfolding serve_cmd
serve_cmd-served r h c creds cmd w e = ap (λ b. branch b (served h c cmd) (deny c cmd.op) w) e

-- What a message with the name of an operation is read as
given-cases :
    (a b : Bool) (op : RtimOp) (l : List Str)
    → (given a b op l ≡ refused)
      ⊎ ((args : List Str) × (given a b op l ≡ parsed (record { op = op; args = args })))
unfolding given
given-cases false b op l = inl refl
given-cases true b op [] = inr ([], refl)
given-cases true false op (x ∷ l) = inl refl
given-cases true true op (x ∷ l) = inr (x ∷ l, refl)

serve-denied :
    (r : Rights) (h : Handlers) (c : Connection) (msg : Str) (creds : Ucred) (op : RtimOp)
    (w : World)
    → field msg ≡ op_str op
    → check_perm r op creds ≡ false
    → Quietly w (on_parsed (parse_rtim_cmd c.parse_alloc msg) (serve_cmd r h c creds) w)
unfolding Quietly
serve-denied r h c msg creds op w e p =
    elim (given-cases (c.parse_alloc 0) (c.parse_alloc 1) op (nonempty (more msg))) [
      | inl g ↦ (
        dropped,
        ap (λ p. on_parsed p (serve_cmd r h c creds) w)
            ((parse_rtim_cmd-given c.parse_alloc msg).0 op e ∙ g),
      )
      | inr (args, g) ↦
          let d : Quietly w (deny c op w) = deny-Quietly c op w in
          (
            d.0,
            ap (λ p. on_parsed p (serve_cmd r h c creds) w)
                  ((parse_rtim_cmd-given c.parse_alloc msg).0 op e ∙ g)
                ∙ serve_cmd-deny r h c creds (record { op = op; args = args }) w p
                ∙ d.1,
          )
    ]

-- Once a message is received
abbrev pub after_receipt : Rights → Handlers → Connection → Str × Ucred → M Round
after_receipt r h c p = on_parsed (parse_rtim_cmd c.parse_alloc p.0) (serve_cmd r h c p.1)

-- A message that names a command which controls tasks, from a user other than the daemon's, changes
-- nothing at all, whatever the socket calls and the allocations do, and the round of the worker ends.
pub serve-is_control :
    (r : Rights) (h : Handlers) (c : Connection) (msg : Str) (creds : Ucred) (op : RtimOp)
    (w : World)
    → c.received ≡ some (msg, creds)
    → field msg ≡ op_str op
    → is_control op ≡ true
    → creds.uid ≢ r.euid
    → (x : Round) × (serve r h c w ≡ ret x w)
unfolding serve Quietly
serve-is_control r h c msg creds op w got e i n =
    Quietly-branch (c.accepted && c.pass_cred && c.rtr_sent) _ _ w
      (subst (λ o. Quietly w (on_option o (return dropped) (after_receipt r h c) w)) (sym got)
        (serve-denied r h c msg creds op w e (check_perm-is_control r op creds i n)))
      (dropped, refl)
