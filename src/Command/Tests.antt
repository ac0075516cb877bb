-- ===== src/Command/Tests.antt =====
-- The handlers on concrete states.
use crinit.Base.{◌≡◌, refl, true, false, [], ◌∷◌, some}
use crinit.Base.Str.{str_eq, codes}
use crinit.Base.Int.{pos}
use crinit.Task.{Task}
use crinit.Task.State
use crinit.World.{World, live}
use crinit.World.Laws.{Ends}
use crinit.TaskDb.Find.Laws.{task_of}
use crinit.TaskDb.Deps.{has_dep}
use crinit.TaskDb.Deps.Fulfil.{IsQuiet}
use crinit.TaskDb.Ready.{task_is_ready}
use crinit.TaskDb.Records.Laws.{Sets}
use crinit.Rtim.{c_enable, c_disable, c_restart, c_kill, c_status, r_enable, r_disable, r_status}
use crinit.Command.{Memory, build_cmd, res_ok}
use crinit.Command.Control.{exec_enable, exec_disable, exec_restart}
use crinit.Command.Control.Laws.{reenabled, exec_enable-exec_disable}
use crinit.Command.Control.Restart.{Restarts, exec_restart-Restarts}
use crinit.Command.Process.{exec_kill}
use crinit.Command.Process.Inhibit.{IsCalm}
use crinit.Command.Process.Laws.{Kills, exec_kill-Kills}
use crinit.Command.ShowTask.{status_fields, show_time, signed, decimal, digits, exec_status}
use crinit.Command.ShowTask.Laws.{exec_status-status_fields}
use crinit.Examples.{first, two_tasks, two_tasks-IsOpen, two_tasks-IsQuiet}

abbrev enough : Memory
enough = record { temporary = true; array = true; response = λ i. true }

exec_enable-exec_disable_example :
    Ends
      (λ out v.
        (out ≡ build_cmd (λ i. true) r_disable (res_ok ∷ []))
        × ((t' : Task) × (task_of (codes "first") v.db.task_set ≡ some t')
            × (task_is_ready t' ≡ false))
        × Ends
            (λ out' v'.
              (out' ≡ build_cmd (λ i. true) r_enable (res_ok ∷ []))
              × Sets (codes "first") (reenabled first) two_tasks v')
            (exec_enable enough (record { op = c_enable; args = codes "first" ∷ [] }) v))
      (exec_disable enough (record { op = c_disable; args = codes "first" ∷ [] }) two_tasks)
unfolding str_eq task_of has_dep
exec_enable-exec_disable_example =
    exec_enable-exec_disable enough c_disable c_enable (codes "first") first two_tasks
      two_tasks-IsQuiet refl (λ i. refl) refl refl

-- The first task has failed, and its process is still known.
abbrev failed_first : Task
failed_first = record first { state = State.failed; pid = pos 7 }

abbrev one_failed : World
one_failed = record two_tasks { db = record (two_tasks.db) { task_set = live failed_first ∷ [] } }

one_failed-IsQuiet : IsQuiet one_failed
one_failed-IsQuiet = record {
  lockable = refl;
  free = refl;
  open_pool = record { lockable = two_tasks-IsOpen.lockable; pool = two_tasks-IsOpen.pool };
  live_tasks = (tt, tt);
}

one_failed-IsCalm : IsCalm one_failed.os one_failed.procs
one_failed-IsCalm = record { lockable = refl; unlockable = refl; heard = refl; free = refl }

exec_restart-Restarts_example :
    Ends
      (Restarts enough (codes "first") failed_first one_failed)
      (exec_restart enough (record { op = c_restart; args = codes "first" ∷ [] }) one_failed)
unfolding str_eq task_of
exec_restart-Restarts_example =
    exec_restart-Restarts enough c_restart (codes "first") failed_first one_failed
      one_failed-IsQuiet refl

exec_kill-Kills_example :
    Ends
      (Kills enough (codes "first") one_failed)
      (exec_kill enough (record { op = c_kill; args = codes "first" ∷ [] }) one_failed)
exec_kill-Kills_example =
    exec_kill-Kills enough c_kill (codes "first") one_failed one_failed-IsQuiet one_failed-IsCalm

exec_status-status_fields_example :
    Ends
      (λ out v.
        (out ≡ build_cmd (λ i. true) r_status (res_ok ∷ status_fields failed_first))
        × (v ≡ one_failed))
      (exec_status enough (record { op = c_status; args = codes "first" ∷ [] }) one_failed)
unfolding str_eq task_of
exec_status-status_fields_example =
    exec_status-status_fields enough c_status (codes "first") failed_first one_failed
      one_failed-IsQuiet refl refl refl (refl, (refl, (refl, (refl, tt))))
      (refl, (refl, (refl, (refl, tt))))

-- The process has the pid 7, and it was started at the time 0.
failed_first-status_fields :
    status_fields failed_first
    ≡ codes "8"
      ∷ codes "7"
      ∷ codes "0.000000000"
      ∷ codes "0.000000000"
      ∷ codes "0.000000000"
      ∷ codes "0"
      ∷ codes "0"
      ∷ codes "root"
      ∷ codes "root"
      ∷ []
unfolding status_fields show_time signed decimal digits
failed_first-status_fields = refl
