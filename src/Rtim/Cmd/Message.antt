-- ===== src/Rtim/Cmd/Message.antt =====
-- The printing of a command: it fits the memory it asks for, and is read back.
use crinit.Base.{
  ℕ, ◌+◌, ◌≡◌, refl, ap, ap₂, ◌∙◌, Bool, true, false, not, ◌&&◌, ◌==◌, Option, none, some, List, [],
  ◌∷◌, ◌++◌, length, arith, All, length-append,
}
use crinit.Base.Str.{Str}
use crinit.Rtim.{
  RtimOp, c_addtask, r_addtask, c_addseries, r_addseries, c_enable, r_enable, c_disable, r_disable,
  c_stop, r_stop, c_kill, r_kill, c_restart, r_restart, c_notify, r_notify, c_status, r_status,
  c_tasklist, r_tasklist, c_shutdown, r_shutdown, c_getver, r_getver, delimiter, op_str,
}
use crinit.Rtim.Names.{op_str_get_by_rtim_op-op_str}
use crinit.Rtim.Fields.{field, more, nonempty}
use crinit.Rtim.Cmd.{RtimCmd, parsed, parse_rtim_cmd, args_len, put_args, rtim_cmd_to_msg_str}
use crinit.Rtim.Cmd.Parse.{given, parse_rtim_cmd-given}

-- No byte is a delimiter.
abbrev pub IsFree : Str → Type 0
IsFree s = All (λ x. (x == delimiter) ≡ false) s

-- An argument that a message can carry
abbrev pub IsArg : Str → Type 0
IsArg [] = ⊥
IsArg (x ∷ s) = IsFree (x ∷ s)

IsArg-IsFree : (a : Str) → IsArg a → IsFree a
IsArg-IsFree [] h = tt
IsArg-IsFree (x ∷ a) h = h

length-put_args : (args : List Str) → length (put_args args) ≡ args_len args
unfolding put_args args_len
length-put_args [] = refl
length-put_args (a ∷ args) = omega (arith, length-append a (put_args args), length-put_args args)

field-put_args : (a : Str) (args : List Str) → IsFree a → field (a ++ put_args args) ≡ a
unfolding put_args
field-put_args [] [] h = refl
field-put_args [] (b ∷ args) h = refl
field-put_args (x ∷ a) args h = ground (arith, h.0, field-put_args a args h.1)

more-put_args :
    (a : Str) (args : List Str) → IsFree a → All IsArg args → more (a ++ put_args args) ≡ args
unfolding put_args
more-put_args [] [] h k = refl
more-put_args [] (b ∷ args) h k =
    ap₂ (λ x l. x ∷ l) (field-put_args b args (IsArg-IsFree b k.0))
      (more-put_args b args (IsArg-IsFree b k.0) k.1)
more-put_args (x ∷ a) args h k = ground (arith, h.0, more-put_args a args h.1 k)

nonempty-IsArg : (args : List Str) → All IsArg args → nonempty args ≡ args
nonempty-IsArg [] h = refl
nonempty-IsArg ([] ∷ args) h = absurd h.0
nonempty-IsArg ((x ∷ a) ∷ args) h = ap (λ l. (x ∷ a) ∷ l) (nonempty-IsArg args h.1)

pub given-ok :
    (op : RtimOp) (args : List Str)
    → given true true op args ≡ parsed (record { op = op; args = args })
unfolding given
given-ok op [] = refl
given-ok op (a ∷ args) = refl

-- The names have no delimiter.
is_free : Str → Bool
is_free [] = true
is_free (x ∷ s) = not (x == delimiter) && is_free s

is_free-IsFree : (s : Str) → is_free s ≡ true → IsFree s
unfolding is_free
is_free-IsFree [] h = tt
is_free-IsFree (x ∷ s) h = (ground (arith, h), is_free-IsFree s (ground (arith, h)))

op_str-is_free : (op : RtimOp) → is_free (op_str op) ≡ true
unfolding is_free
op_str-is_free c_addtask = refl
op_str-is_free r_addtask = refl
op_str-is_free c_addseries = refl
op_str-is_free r_addseries = refl
op_str-is_free c_enable = refl
op_str-is_free r_enable = refl
op_str-is_free c_disable = refl
op_str-is_free r_disable = refl
op_str-is_free c_stop = refl
op_str-is_free r_stop = refl
op_str-is_free c_kill = refl
op_str-is_free r_kill = refl
op_str-is_free c_restart = refl
op_str-is_free r_restart = refl
op_str-is_free c_notify = refl
op_str-is_free r_notify = refl
op_str-is_free c_status = refl
op_str-is_free r_status = refl
op_str-is_free c_tasklist = refl
op_str-is_free r_tasklist = refl
op_str-is_free c_shutdown = refl
op_str-is_free r_shutdown = refl
op_str-is_free c_getver = refl
op_str-is_free r_getver = refl

op_str-IsFree : (op : RtimOp) → IsFree (op_str op)
op_str-IsFree op = is_free-IsFree (op_str op) (op_str-is_free op)

rtim_cmd_to_msg_str-put_args :
    (cmd : RtimCmd)
    → rtim_cmd_to_msg_str true cmd
      ≡ some (op_str cmd.op ++ put_args cmd.args, length (op_str cmd.op) + 1 + args_len cmd.args)
unfolding rtim_cmd_to_msg_str
rtim_cmd_to_msg_str-put_args cmd =
    ap
      (λ o. elim o as (λ _. Option (Str × ℕ)) [
        | none ↦ none
        | some name ↦ some (name ++ put_args cmd.args, length name + 1 + args_len cmd.args)
      ])
      (op_str_get_by_rtim_op-op_str cmd.op)

-- Every command can be printed, and the memory that is asked for is that of the message with its
-- final zero, no less and no more.
pub rtim_cmd_to_msg_str-length :
    (cmd : RtimCmd)
    → (m : Str) × (n : ℕ) × (rtim_cmd_to_msg_str true cmd ≡ some (m, n)) × (n ≡ length m + 1)
rtim_cmd_to_msg_str-length cmd = (
  op_str cmd.op ++ put_args cmd.args,
  length (op_str cmd.op) + 1 + args_len cmd.args,
  rtim_cmd_to_msg_str-put_args cmd,
  omega (arith, length-append (op_str cmd.op) (put_args cmd.args), length-put_args cmd.args),
)

-- A command whose arguments are not empty and have no delimiter is printed, and reading the message
-- back gives the command, when the two allocations of the reading succeed.
pub parse_rtim_cmd-to_msg_str :
    (alloc : ℕ → Bool) (cmd : RtimCmd)
    → alloc 0 ≡ true
    → alloc 1 ≡ true
    → All IsArg cmd.args
    → (m : Str) × (n : ℕ) × (rtim_cmd_to_msg_str true cmd ≡ some (m, n))
      × (parse_rtim_cmd alloc m ≡ parsed cmd)
parse_rtim_cmd-to_msg_str alloc cmd a b h =
    let free : IsFree (op_str cmd.op) = op_str-IsFree cmd.op in
    (
      op_str cmd.op ++ put_args cmd.args,
      length (op_str cmd.op) + 1 + args_len cmd.args,
      rtim_cmd_to_msg_str-put_args cmd,
      (parse_rtim_cmd-given alloc (op_str cmd.op ++ put_args cmd.args)).0 cmd.op
            (field-put_args (op_str cmd.op) cmd.args free)
          ∙ ap₂ (λ x y. given x y cmd.op (nonempty (more (op_str cmd.op ++ put_args cmd.args)))) a b
          ∙ ap (λ l. given true true cmd.op (nonempty l))
              (more-put_args (op_str cmd.op) cmd.args free h)
          ∙ ap (given true true cmd.op) (nonempty-IsArg cmd.args h)
          ∙ given-ok cmd.op cmd.args,
    )
