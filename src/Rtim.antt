-- ===== src/Rtim.antt =====
-- src/rtimopmap.c, inc/rtimopmap.h: the opcodes of the runtime commands and their names.
pub mod Fields
pub mod Cmd
pub mod Names
mod Tests
use crinit.Base.{
  ℕ, zero, suc, ◌+◌, ◌≡◌, Bool, true, false, not, ◌&&◌, ◌==◌, if◌then◌else◌, Option, none, some,
  List, [], ◌∷◌, length,
}
use crinit.Base.Str.{Str, codes}

-- `crinitRtimOp_t`: `c_` is a command, `r_` its response.
pub data RtimOp : Type 0 where
  c_addtask r_addtask c_addseries r_addseries : RtimOp
  c_enable r_enable c_disable r_disable : RtimOp
  c_stop r_stop c_kill r_kill : RtimOp
  c_restart r_restart c_notify r_notify : RtimOp
  c_status r_status c_tasklist r_tasklist : RtimOp
  c_shutdown r_shutdown c_getver r_getver : RtimOp

-- The value of the enumeration
abbrev pub op_code : RtimOp → ℕ
op_code c_addtask = 0
op_code r_addtask = 1
op_code c_addseries = 2
op_code r_addseries = 3
op_code c_enable = 4
op_code r_enable = 5
op_code c_disable = 6
op_code r_disable = 7
op_code c_stop = 8
op_code r_stop = 9
op_code c_kill = 10
op_code r_kill = 11
op_code c_restart = 12
op_code r_restart = 13
op_code c_notify = 14
op_code r_notify = 15
op_code c_status = 16
op_code r_status = 17
op_code c_tasklist = 18
op_code r_tasklist = 19
op_code c_shutdown = 20
op_code r_shutdown = 21
op_code c_getver = 22
op_code r_getver = 23

-- `crinitRtimOps`
abbrev pub rtim_ops : List (RtimOp × Str)
rtim_ops =
    (c_addtask, codes "C_ADDTASK")
    ∷ (r_addtask, codes "R_ADDTASK")
    ∷ (c_addseries, codes "C_ADDSERIES")
    ∷ (r_addseries, codes "R_ADDSERIES")
    ∷ (c_enable, codes "C_ENABLE")
    ∷ (r_enable, codes "R_ENABLE")
    ∷ (c_disable, codes "C_DISABLE")
    ∷ (r_disable, codes "R_DISABLE")
    ∷ (c_stop, codes "C_STOP")
    ∷ (r_stop, codes "R_STOP")
    ∷ (c_kill, codes "C_KILL")
    ∷ (r_kill, codes "R_KILL")
    ∷ (c_restart, codes "C_RESTART")
    ∷ (r_restart, codes "R_RESTART")
    ∷ (c_notify, codes "C_NOTIFY")
    ∷ (r_notify, codes "R_NOTIFY")
    ∷ (c_status, codes "C_STATUS")
    ∷ (r_status, codes "R_STATUS")
    ∷ (c_tasklist, codes "C_TASKLIST")
    ∷ (r_tasklist, codes "R_TASKLIST")
    ∷ (c_shutdown, codes "C_SHUTDOWN")
    ∷ (r_shutdown, codes "R_SHUTDOWN")
    ∷ (c_getver, codes "C_GETVER")
    ∷ (r_getver, codes "R_GETVER")
    ∷ []

-- `CRINIT_RTIMCMD_ARGDELIM`
abbrev pub delimiter : ℕ
delimiter = 10

-- `crinitDelimitedStrlen`
unfoldable pub delimited_strlen : Str → ℕ
delimited_strlen [] = 0
delimited_strlen (x ∷ s) = if x == delimiter then 0 else suc (delimited_strlen s)

-- `strncmp(a, b, n) == 0`
unfoldable pub strncmp_eq : ℕ → Str → Str → Bool
strncmp_eq zero a b = true
strncmp_eq (suc n) [] [] = true
strncmp_eq (suc n) [] (y ∷ b) = false
strncmp_eq (suc n) (x ∷ a) [] = false
strncmp_eq (suc n) (x ∷ a) (y ∷ b) = x == y && strncmp_eq n a b

-- The loop of `crinitRtimOpGetByOpStr` over the map
unfoldable pub find_op_str : List (RtimOp × Str) → ℕ → Str → Option RtimOp
unfolding strncmp_eq
find_op_str [] n s = none
find_op_str ((op, name) ∷ ops) n s =
    if n == length name && strncmp_eq n name s then some op else find_op_str ops n s

-- `crinitRtimOpGetByOpStr`
unfoldable pub rtim_op_get_by_op_str : Str → Option RtimOp
unfolding delimited_strlen find_op_str
rtim_op_get_by_op_str s = find_op_str rtim_ops (delimited_strlen s) s

unfoldable pub find_op : List (RtimOp × Str) → RtimOp → Option Str
find_op [] code = none
find_op ((op, name) ∷ ops) code = if op_code op == op_code code then some name else find_op ops code

-- `crinitOpStrGetByRtimOp`
unfoldable pub op_str_get_by_rtim_op : RtimOp → Option Str
unfolding find_op
op_str_get_by_rtim_op op = find_op rtim_ops op

-- The name of an operation
abbrev pub op_str : RtimOp → Str
op_str c_addtask = codes "C_ADDTASK"
op_str r_addtask = codes "R_ADDTASK"
op_str c_addseries = codes "C_ADDSERIES"
op_str r_addseries = codes "R_ADDSERIES"
op_str c_enable = codes "C_ENABLE"
op_str r_enable = codes "R_ENABLE"
op_str c_disable = codes "C_DISABLE"
op_str r_disable = codes "R_DISABLE"
op_str c_stop = codes "C_STOP"
op_str r_stop = codes "R_STOP"
op_str c_kill = codes "C_KILL"
op_str r_kill = codes "R_KILL"
op_str c_restart = codes "C_RESTART"
op_str r_restart = codes "R_RESTART"
op_str c_notify = codes "C_NOTIFY"
op_str r_notify = codes "R_NOTIFY"
op_str c_status = codes "C_STATUS"
op_str r_status = codes "R_STATUS"
op_str c_tasklist = codes "C_TASKLIST"
op_str r_tasklist = codes "R_TASKLIST"
op_str c_shutdown = codes "C_SHUTDOWN"
op_str r_shutdown = codes "R_SHUTDOWN"
op_str c_getver = codes "C_GETVER"
op_str r_getver = codes "R_GETVER"
