-- ===== src/Server/Tests.antt =====
-- The serving of concrete connections.
use crinit.Base.{◌≡◌, refl, true, false, [], ◌∷◌, ◌++◌, Option, none, some, arith}
use crinit.Base.Str.{Str, codes}
use crinit.Base.Int.{pos}
use crinit.World.{ret, return}
use crinit.Rtim.{c_stop, c_getver, r_getver, op_str_get_by_rtim_op}
use crinit.Rtim.Cmd.{RtimCmd, parsed, parse_rtim_cmd, rtim_cmd_to_msg_str}
use crinit.Command.{res_ok}
use crinit.Command.Report.{Version, exec_get_ver}
use crinit.Command.Exec.{Handlers, exec_rtim_cmd}
use crinit.Server.{Ucred, Rights, check_perm, Connection, Round, serve}
use crinit.Server.Answer.{IsSound, serve-to_msg_str}
use crinit.Server.Laws.{is_control, serve-is_control}
use crinit.Examples.{two_tasks}

abbrev root_only : Rights
root_only = record { euid = 0; cap_sys_boot = λ pid. none }

abbrev version : Version
version = record { major = codes "0"; minor = codes "16"; micro = codes "2"; git = codes "a1" }

abbrev handlers : Handlers
handlers = record {
  mem = record { temporary = true; array = true; response = λ i. true };
  strtol = λ s. pos 0;
  version = version;
  add_task = λ cmd. return {A = Option RtimCmd} none;
  add_series = λ cmd. return {A = Option RtimCmd} none;
}

abbrev user : Ucred
user = record { pid = pos 99; uid = 1000; gid = 1000 }

abbrev connection : Str → Connection
connection msg = record {
  accepted = true;
  pass_cred = true;
  rtr_sent = true;
  received = some (msg, user);
  parse_alloc = λ i. true;
  deny_alloc = λ i. true;
  msg_alloc = true;
  sent = true;
}

connection-IsSound : (msg : Str) → IsSound (connection msg)
connection-IsSound msg = record {
  accepted = refl;
  pass_cred = refl;
  rtr_sent = refl;
  parse_array = refl;
  parse_args = refl;
  deny_array = refl;
  deny_args = refl;
  message = refl;
  sent = refl;
}

abbrev stop_first : Str
stop_first = codes "C_STOP" ++ 10 ∷ codes "first"

serve-is_control_example :
    (x : Round) × (serve root_only handlers (connection stop_first) two_tasks ≡ ret x two_tasks)
unfolding is_control
serve-is_control_example =
    serve-is_control root_only handlers (connection stop_first) stop_first user c_stop two_tasks
      refl refl refl (omega arith)

abbrev get_ver : RtimCmd
get_ver = record { op = c_getver; args = [] }

abbrev version_response : RtimCmd
version_response = record {
  op = r_getver;
  args = res_ok ∷ codes "0" ∷ codes "16" ∷ codes "2" ∷ codes "a1" ∷ [];
}

serve-to_msg_str_example :
    (m : Str) × (serve root_only handlers (connection (codes "C_GETVER")) two_tasks
      ≡ ret (record { reply = some m; open_sock = false; available = true }) two_tasks)
    × (parse_rtim_cmd (λ i. true) m ≡ parsed version_response)
unfolding check_perm exec_rtim_cmd exec_get_ver rtim_cmd_to_msg_str op_str_get_by_rtim_op
serve-to_msg_str_example =
    serve-to_msg_str root_only handlers (connection (codes "C_GETVER")) (λ i. true) user get_ver
      version_response two_tasks two_tasks (connection-IsSound (codes "C_GETVER")) refl refl tt
      (
        (refl, (refl, (refl, (refl, (refl, (refl, tt)))))),
        ((refl, tt), ((refl, (refl, tt)), ((refl, tt), ((refl, (refl, tt)), tt)))),
      )
      refl refl (codes "C_GETVER") 9 refl refl
