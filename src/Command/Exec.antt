-- ===== src/Command/Exec.antt =====
-- `crinitExecRtimCmd` of src/rtimcmd.c.
use crinit.Base.{Option, none}
use crinit.Base.Str.{Str}
use crinit.Base.Int.{ℤ}
use crinit.World.{M, return}
use crinit.Rtim.{
  c_addtask, c_addseries, c_enable, c_disable, c_stop, c_kill, c_restart, c_notify, c_status,
  c_tasklist, c_shutdown, c_getver,
}
use crinit.Rtim.Cmd.{RtimCmd}
use crinit.Command.{Memory}
use crinit.Command.Control.{exec_enable, exec_disable, exec_restart}
use crinit.Command.Process.{exec_stop, exec_kill}
use crinit.Command.Notify.{exec_notify}
use crinit.Command.ShowTask.{exec_status}
use crinit.Command.Report.{Version, exec_task_list, exec_get_ver, exec_shutdown}

-- What the handlers use, with the two that read configuration files
pub record Handlers : Type 0 where
  pub mem : Memory
  pub strtol : Str → ℤ
  pub version : Version
  pub add_task : RtimCmd → M (Option RtimCmd)
  pub add_series : RtimCmd → M (Option RtimCmd)

-- `crinitExecRtimCmd`
unfoldable pub exec_rtim_cmd : Handlers → RtimCmd → M (Option RtimCmd)
exec_rtim_cmd h cmd = elim cmd.op [
  | c_addtask ↦ h.add_task cmd
  | c_addseries ↦ h.add_series cmd
  | c_enable ↦ exec_enable h.mem cmd
  | c_disable ↦ exec_disable h.mem cmd
  | c_stop ↦ exec_stop h.mem cmd
  | c_kill ↦ exec_kill h.mem cmd
  | c_restart ↦ exec_restart h.mem cmd
  | c_notify ↦ exec_notify h.mem h.strtol cmd
  | c_status ↦ exec_status h.mem cmd
  | c_tasklist ↦ exec_task_list h.mem cmd
  | c_shutdown ↦ exec_shutdown h.mem h.strtol cmd
  | c_getver ↦ exec_get_ver h.mem h.version cmd
  | _ ↦ return {A = Option RtimCmd} none
]
