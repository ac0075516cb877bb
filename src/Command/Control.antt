-- ===== src/Command/Control.antt =====
-- `ENABLE`, `DISABLE` and `RESTART` of src/rtimcmd.c.
pub mod Laws
pub mod Restart
use crinit.Base.{
  ℕ, zero, suc, ◌+◌, ◌-◌, ◌*◌, ◌/◌, ◌%◌, ◌^◌, ◌≡◌, Bool, true, false, ◌&&◌, ◌||◌, List, [], ◌∷◌,
  Option, none, some, ◌==◌, if◌then◌else◌, Status, ok, err,
}
use crinit.Base.Str.{Str, codes}
use crinit.Task.{Dep, has_bit}
use crinit.Task.State
use crinit.World.{World, Outcome, ret, M, ◌>>=◌, ◌>>◌, return, branch, on_status}
use crinit.TaskDb.Deps.{remove_dep_from_task, add_dep_to_task}
use crinit.TaskDb.Records.{get_task_state, set_task_state, set_task_respawn_inhibit}
use crinit.Rtim.{r_enable, r_disable, r_restart}
use crinit.Rtim.Cmd.{RtimCmd}
use crinit.Command.{Memory, refuse, succeed, with_argument, wrong_number, no_memory}

-- `"@ctl\0enable"`
abbrev pub enable_dep : Dep
enable_dep = record { name = codes "@ctl"; event = codes "enable" }

-- `crinitExecRtimCmdEnable`
unfoldable pub exec_enable : Memory → RtimCmd → M (Option RtimCmd)
exec_enable mem cmd = with_argument cmd (refuse mem r_enable wrong_number) λ name.
    branch mem.temporary
      (do
        removed ← remove_dep_from_task enable_dep name
        on_status removed (succeed mem r_enable)
            (refuse mem r_enable (codes "Could not remove 'enable' dependency from task.")))
      (refuse mem r_enable no_memory)

-- `crinitExecRtimCmdDisable`
unfoldable pub exec_disable : Memory → RtimCmd → M (Option RtimCmd)
exec_disable mem cmd = with_argument cmd (refuse mem r_disable wrong_number) λ name.
    branch mem.temporary
      (do
        added ← add_dep_to_task enable_dep name
        on_status added (succeed mem r_disable)
            (refuse mem r_disable (codes "Could not add dependency to task.")))
      (refuse mem r_disable no_memory)

-- `s & (CRINIT_TASK_STATE_DONE | CRINIT_TASK_STATE_FAILED)`
abbrev pub has_ended : ℕ → Bool
has_ended s = has_bit s 2 || has_bit s 3

-- `crinitExecRtimCmdRestart`
unfoldable pub exec_restart : Memory → RtimCmd → M (Option RtimCmd)
exec_restart mem cmd = with_argument cmd (refuse mem r_restart wrong_number) λ name. do
  got ← get_task_state name
  on_status got.0
      (branch (has_ended got.1)
        (do
          allowed ← set_task_respawn_inhibit false name
          on_status allowed
              (do
                reset ← set_task_state State.loaded name
                on_status reset (succeed mem r_restart)
                    (refuse mem r_restart (codes "Could not reset task state.")))
              (refuse mem r_restart (codes "Failed to reset the task respawn inhibit flag.")))
        (refuse mem r_restart (codes "Task is not either DONE or FAILED.")))
      (refuse mem r_restart (codes "Could not get task state from TaskDB."))
