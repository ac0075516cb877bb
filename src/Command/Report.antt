-- ===== src/Command/Report.antt =====
-- `TASKLIST`, `GETVER` and `SHUTDOWN` of src/rtimcmd.c.
use crinit.Base.{true, false, [], ◌∷◌, Option, none, some, if◌then◌else◌, Status, ok, err}
use crinit.Base.Str.{Str, codes}
use crinit.Base.Int.{ℤ, pos, eqb_ℤ}
use crinit.World.{Shutdown, power_off, autoboot, ret, M, ◌>>=◌, branch, on_status, on_option}
use crinit.TaskDb.Query.{export_task_names}
use crinit.Rtim.{r_tasklist, r_status, r_getver, r_shutdown}
use crinit.Rtim.Cmd.{RtimCmd}
use crinit.Command.{
  Memory, respond, refuse, succeed, res_ok, with_argument, wrong_number, no_memory,
}

abbrev pub without_arguments :
    RtimCmd → M (Option RtimCmd) → M (Option RtimCmd) → M (Option RtimCmd)
without_arguments cmd m k = elim cmd.args [ [] ↦ k | a ∷ args ↦ m ]

-- `crinitExecRtimCmdTaskList`. Two of its responses have the opcode of STATUS.
unfoldable pub exec_task_list : Memory → RtimCmd → M (Option RtimCmd)
exec_task_list mem cmd = without_arguments cmd (refuse mem r_tasklist wrong_number) do
  got ← export_task_names
  on_status got.0
      (branch mem.array (respond mem r_tasklist (res_ok ∷ got.1)) (refuse mem r_status no_memory))
      (refuse mem r_status no_memory)

-- `crinitVersion` as it is printed; the build makes it.
pub record Version : Type 0 where
  pub major : Str
  pub minor : Str
  pub micro : Str
  pub git : Str

-- `crinitExecRtimCmdGetVer`
unfoldable pub exec_get_ver : Memory → Version → RtimCmd → M (Option RtimCmd)
exec_get_ver mem v cmd =
    without_arguments cmd (refuse mem r_getver wrong_number)
      (respond mem r_getver (res_ok ∷ v.major ∷ v.minor ∷ v.micro ∷ v.git ∷ []))

-- The `switch` of `crinitExecRtimCmdShutdown`: `CRINIT_SHD_POWEROFF` is 1, `CRINIT_SHD_REBOOT` is 2.
abbrev pub shutdown_of : ℤ → Option Shutdown
shutdown_of n =
    if eqb_ℤ n (pos 1) then some power_off else if eqb_ℤ n (pos 2) then some autoboot else none

-- `pthread_create` for the shutdown thread
abbrev pub start_shutdown : Shutdown → M Status
start_shutdown s w = elim w.os.shutdown_thread [
  | true ↦ ret ok (record w { procs = record (w.procs) { shutdowns = s ∷ w.procs.shutdowns } })
  | false ↦ ret err w
]

-- `crinitExecRtimCmdShutdown`
unfoldable pub exec_shutdown : Memory → (Str → ℤ) → RtimCmd → M (Option RtimCmd)
exec_shutdown mem strtol cmd =
    branch mem.temporary
      (with_argument cmd (refuse mem r_shutdown wrong_number) λ arg.
        on_option (shutdown_of (strtol arg)) (refuse mem r_shutdown (codes "Invalid argument."))
          (λ s. do
            started ← start_shutdown s
            on_status started (succeed mem r_shutdown)
                (refuse mem r_shutdown (codes "Could not start shutdown thread."))))
      (refuse mem r_shutdown no_memory)
