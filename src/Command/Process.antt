-- ===== src/Command/Process.antt =====
-- `STOP` and `KILL` of src/rtimcmd.c, with `crinitSetInhibitWait` and `crinitBlockOnWaitInhibit` of
-- src/procdip.c.
pub mod Inhibit
pub mod Laws
use crinit.Base.{
  ℕ, zero, suc, ◌≡◌, Bool, true, false, not, ◌&&◌, ◌||◌, List, [], ◌∷◌, Option, none, some,
  if◌then◌else◌, Status, ok, err,
}
use crinit.Base.Str.{Str, codes}
use crinit.Base.Int.{ℤ, pos, leb_ℤ}
use crinit.Task.{Task, TaskCmd, Mode}
use crinit.World.{
  World, Outcome, ret, blocked, fault, M, ◌>>=◌, ◌>>◌, return, branch, on_status, on_option, here,
  lock_db, unlock_db,
}
use crinit.TaskDb.Query.{get_task_by_name}
use crinit.TaskDb.Ready.{spawn_func}
use crinit.TaskDb.Records.{get_task_pid, set_task_respawn_inhibit}
use crinit.Rtim.{r_stop, r_kill}
use crinit.Rtim.Cmd.{RtimCmd}
use crinit.Command.{Memory, refuse, succeed, with_argument, wrong_number}

abbrev pub lock_wait : M Status
lock_wait w = elim w.os.wait_lock_error [
  | true ↦ ret err w
  | false ↦ elim w.procs.wait_locked [
    | true ↦ blocked
    | false ↦ ret ok (record w { procs = record (w.procs) { wait_locked = true } })
  ]
]

-- `pthread_mutex_unlock(&crinitWaitInhibitLock)`
abbrev pub unlock_wait : M Status
unlock_wait w = elim w.os.wait_unlock_error [
  | true ↦ ret err w
  | false ↦ ret ok (record w { procs = record (w.procs) { wait_locked = false } })
]

-- `crinitSetInhibitWait`
unfoldable pub set_inhibit_wait : Bool → M Status
set_inhibit_wait inh = do
  locked ← lock_wait
  on_status locked
      (do
        w ← here
        (λ v. ret tt (record v { procs = record (v.procs) { wait_inhibit = inh } }))
        unlocked ← unlock_wait
        on_status unlocked
            (return {A = Status} (if not inh && w.os.wait_broadcast_error then err else ok))
            (return err))
      (return err)

-- `crinitBlockOnWaitInhibit`, when no other thread changes the flag: the loop then waits forever.
unfoldable pub block_on_wait_inhibit : M Status
block_on_wait_inhibit = do
  locked ← lock_wait
  on_status locked (do w ← here; branch w.procs.wait_inhibit (λ v. blocked) unlock_wait)
      (return err)

abbrev pub sigterm : ℕ
sigterm = 15

abbrev pub sigkill : ℕ
sigkill = 9

-- `kill`
abbrev pub send_signal : ℤ → ℕ → M Status
send_signal pid sig w = elim (w.os.kill pid) [
  | true ↦ ret ok (record w { procs = record (w.procs) { signals = (pid, sig) ∷ w.procs.signals } })
  | false ↦ ret err w
]

-- The last call of both handlers
unfoldable pub reactivate : Memory → Str → M (Option RtimCmd) → M (Option RtimCmd)
reactivate mem why m = do
  allowed ← set_inhibit_wait false
  on_status allowed m (refuse mem r_stop why)

-- A pid that belongs to a process
abbrev pub is_pid : ℤ → Bool
is_pid pid = not (leb_ℤ pid (pos 0))

-- `crinitExecRtimCmdKill`. Three of its responses have the opcode of STOP.
unfoldable pub exec_kill : Memory → RtimCmd → M (Option RtimCmd)
unfolding reactivate
exec_kill mem cmd = with_argument cmd (refuse mem r_kill wrong_number) λ name. do
  inhibited ← set_inhibit_wait true
  on_status inhibited
      (do
        got ← get_task_pid name
        on_status got.0
            (branch (is_pid got.1)
              (do
                sent ← send_signal got.1 sigkill
                on_status sent
                    (reactivate mem (codes "Could not reactivate waiting for processes.")
                      (succeed mem r_kill))
                    (refuse mem r_kill (codes "Could not send SIGKILL to Process.")))
              (refuse mem r_kill (codes "No PID registered for task.")))
            (refuse mem r_kill (codes "Could not access task.")))
      (refuse mem r_stop (codes "Could not inhibit waiting for processes."))

abbrev pub has_cmds : List TaskCmd → Bool
has_cmds [] = false
has_cmds (c ∷ cmds) = true

-- The stop commands of the task, by a thread, or the signal. A null spawn function is called.
stop_task : Memory → Task → M (Option RtimCmd)
unfolding reactivate
stop_task mem t =
    branch (has_cmds t.stop_cmds)
      (do
        locked ← lock_db
        on_status locked
            (do
              w ← here
              branch w.db.spawn_func
                  (do
                    spawned ← spawn_func t Mode.stop
                    on_status spawned
                        (unlock_db
                          >> reactivate mem (codes "Could not reactivate waiting for processes.")
                              (succeed mem r_stop))
                        (unlock_db >> refuse mem r_stop (codes "Could not spawn STOP_COMMAND(s).")))
                  (λ v. fault))
            (refuse mem r_stop (codes "Could not prepare to spawn STOP_COMMAND(s).")))
      (branch (is_pid t.pid)
        (do
          sent ← send_signal t.pid sigterm
          on_status sent
              (reactivate mem (codes "Could not reactivate waiting for processes.")
                (succeed mem r_stop))
              (refuse mem r_stop (codes "Could not send SIGTERM to process.")))
        (refuse mem r_stop (codes "No PID registered for task.")))

-- `crinitExecRtimCmdStop`. The copy of the task is not freed.
unfoldable pub exec_stop : Memory → RtimCmd → M (Option RtimCmd)
unfolding stop_task
exec_stop mem cmd = with_argument cmd (refuse mem r_stop wrong_number) λ name. do
  inhibited ← set_inhibit_wait true
  on_status inhibited
      (do
        marked ← set_task_respawn_inhibit true name
        on_status marked
            (do
              got ← get_task_by_name name
              on_status got.0 (on_option got.1 (λ v. fault) (λ t. stop_task mem t))
                  (refuse mem r_stop (codes "Could not access task.")))
            (refuse mem r_stop (codes "Could not access task to set respawnInhibit.")))
      (refuse mem r_stop (codes "Could not inhibit waiting for processes."))
