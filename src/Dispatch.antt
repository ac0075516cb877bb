-- ===== src/Dispatch.antt =====
-- src/procdip.c: the dispatcher thread of a task. It is taken alone: no other thread acts while it
-- waits for a process.
pub mod Hearing
pub mod Exit
pub mod End
pub mod Inhibited
mod Tests
use crinit.Base.{
  ℕ, zero, suc, ◌+◌, ◌≡◌, Bool, true, false, not, ◌&&◌, List, [], ◌∷◌, Option, none, some, ◌==◌,
  if◌then◌else◌, Status, ok, err,
}
use crinit.Base.Str.{Str, str_eq, codes}
use crinit.Base.Int.{ℤ, pos, negsuc}
use crinit.EnvSet.{put, Outcome, done, undefined}
use crinit.Task.{
  Task, TaskCmd, Dep, Mode, timer_dep_name, event_running, event_done, event_failed, rearms,
}
use crinit.Task.State
use crinit.World.{
  World, M, ret, fault, ◌>>=◌, ◌>>◌, return, branch, on_status, on_option, here, lock_db, unlock_db,
}
use crinit.TimerDb.{remove_timer}
use crinit.TaskDb.Deps.{fulfill_dep}
use crinit.TaskDb.Provide.{provide_feature}
use crinit.TaskDb.Query.{Duplicate, duplicate, no_duplicate, freed_twice, dup_task}
use crinit.TaskDb.Records.{set_task_state, set_task_pid, rearm_trigger}
use crinit.Command.Process.{block_on_wait_inhibit, is_pid}

-- What the system does with the processes of the thread: whether the launcher's name can be read and
-- the cgroup configured, and of the command with a number whether it can be prepared (file actions,
-- redirections, launcher parameters), the process that is made for it, and whether that process
-- exits with 0; and whether a process can be reaped
pub record Children : Type 0 where
  pub launcher_option : Bool
  pub cgroup : Bool
  pub prepared : ℕ → Bool
  pub spawn : ℕ → Option ℤ
  pub exited : ℕ → Bool
  pub reaped : Bool

abbrev pub no_pid : ℤ
no_pid = negsuc 0

-- `crinitReapPid`
unfoldable pub reap_pid : Children → M Status
reap_pid os = do
  waited ← block_on_wait_inhibit
  on_status waited (return {A = Status} (if os.reaped then ok else err)) (return err)

-- What the first command's process brings with it: RUNNING, and its dependency and features. An error
-- of the features is only reported.
unfoldable pub first_spawned : Task → M Status
first_spawned t = do
  set ← set_task_state State.running t.name
  on_status set
      (do
        fulfilled ← fulfill_dep (record { name = t.name; event = event_running })
        on_status fulfilled (provide_feature t State.running >> return ok) (return err))
      (return err)

-- The loop of `crinitHandleCommands`, from the command with the number on. The second result is the
-- thread's `pid`.
unfoldable pub handle_from : Children → Task → ℕ → ℤ → List TaskCmd → M (Status × ℤ)
unfolding first_spawned reap_pid
handle_from os t i pid [] = return {A = Status × ℤ} (ok, pid)
handle_from os t i pid (c ∷ cmds) =
    branch (os.prepared i)
      (on_option (os.spawn i) (return {A = Status × ℤ} (err, pid)) λ p. do
        set ← set_task_pid p t.name
        on_status set
            (do
              started ← branch (i == 0) (first_spawned t) (return {A = Status} ok)
              on_status started
                  (branch (os.exited i)
                    (set_task_pid no_pid t.name >> reap_pid os >> handle_from os t (suc i) p cmds)
                    (return {A = Status × ℤ} (err, p)))
                  (return {A = Status × ℤ} (err, p)))
            (return {A = Status × ℤ} (err, p)))
      (return {A = Status × ℤ} (err, pid))

-- `crinitHandleCommands`
unfoldable pub handle_commands : Children → Task → List TaskCmd → M (Status × ℤ)
unfolding handle_from
handle_commands os t cmds =
    branch (os.launcher_option && os.cgroup) (handle_from os t 0 no_pid cmds)
      (return {A = Status × ℤ} (err, no_pid))

-- `crinitDispatchThreadFunc` after all commands are done
unfoldable pub exit_done : Task → M (Unit {0})
exit_done t = do
  set_task_state State.done t.name
  fulfill_dep (record { name = t.name; event = event_done })
  provide_feature t State.done
  return tt

-- ... and at its label `threadExitFail`
unfoldable pub exit_fail : Children → Task → ℤ → M (Unit {0})
unfolding reap_pid
exit_fail os t pid = do
  set_task_state State.failed t.name
  set_task_pid no_pid t.name
  branch (is_pid pid) (reap_pid os) (return ok)
  fulfill_dep (record { name = t.name; event = event_failed })
  provide_feature t State.failed
  return tt

-- The timers among the triggers give their references back.
unfoldable pub remove_timers : List Dep → M (Unit {0})
remove_timers [] = return tt
remove_timers (d ∷ trig) =
    branch (str_eq d.name timer_dep_name) (remove_timer d.event) (return tt) >> remove_timers trig

-- ... and at its label `threadExit`
unfoldable pub thread_exit : Task → M (Unit {0})
unfolding remove_timers
thread_exit t = branch (rearms t) (rearm_trigger t.name >> return tt) (remove_timers t.trig)

-- The end of a thread whose command failed: from `threadExitFail` to the return
unfoldable pub fail_thread : Children → Task → ℤ → M (Unit {0})
unfolding exit_fail thread_exit
fail_thread os t pid = exit_fail os t pid >> thread_exit t

abbrev pub cmds_of : Mode → Task → List TaskCmd
cmds_of Mode.start t = t.cmds
cmds_of Mode.stop t = t.stop_cmds

-- The commands, and the end they come to
unfoldable pub run_commands : Children → Mode → Task → M (Unit {0})
unfolding handle_commands exit_done exit_fail
run_commands os mode t = do
  result ← handle_commands os t (cmds_of mode t)
  on_status result.0 (exit_done t) (exit_fail os t result.1)

-- The variable CRINIT_TASK_NAME is set in the copy, and the thread does its work and ends.
with_env : Children → Mode → Task → Outcome → M (Unit {0})
unfolding run_commands fail_thread thread_exit
with_env os mode t undefined = λ w. fault
with_env os mode t (done err es) = fail_thread os (record t { task_env = es }) no_pid
with_env os mode t (done ok es) =
    run_commands os mode (record t { task_env = es }) >> thread_exit (record t { task_env = es })

with_copy : Children → Mode → (ℕ → Bool) → Duplicate → M (Unit {0})
unfolding with_env
with_copy os mode alloc no_duplicate = λ w. fault
with_copy os mode alloc freed_twice = λ w. fault
with_copy os mode alloc (duplicate t) =
    unlock_db >> with_env os mode t (put alloc t.task_env (codes "CRINIT_TASK_NAME") t.name)

-- `crinitDispatchThreadFunc`. If the mutex or the copy cannot be had, the name is read of no task.
unfoldable pub dispatch_thread : Children → Mode → (ℕ → Bool) → Task → M (Unit {0})
unfolding with_copy
dispatch_thread os mode alloc t = do
  locked ← lock_db
  on_status locked (do w ← here; with_copy os mode alloc (dup_task w.os.alloc t)) (λ w. fault)
