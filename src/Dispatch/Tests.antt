-- ===== src/Dispatch/Tests.antt =====
-- The end of a dispatcher thread on concrete states.
use crinit.Base.{◌≡◌, refl, sym, true, false, ◌&&◌, [], ◌∷◌, some}
use crinit.Base.Str.{str_eq, codes}
use crinit.Base.Int.{pos}
use crinit.Task.{Task}
use crinit.Task.State
use crinit.World.{blocked}
use crinit.World.Laws.{Ends}
use crinit.TaskDb.Find.Laws.{task_of}
use crinit.TaskDb.Records.RoundTrip.{some_ne_none}
use crinit.Rtim.{c_kill}
use crinit.Command.{Memory}
use crinit.Command.Process.{exec_kill, is_pid}
use crinit.Command.Process.Inhibit.{IsCalm}
use crinit.Dispatch.{Children, exit_fail}
use crinit.Dispatch.Inhibited.{exit_fail-exec_kill}
use crinit.Examples.{first, two_tasks, two_tasks-IsQuiet}

abbrev memory : Memory
memory = record { temporary = true; array = true; response = λ i. true }

-- Every command gets the process 7, which fails.
abbrev failing : Children
failing = record {
  launcher_option = true;
  cgroup = true;
  prepared = λ i. true;
  spawn = λ i. some (pos 7);
  exited = λ i. false;
  reaped = true;
}

two_tasks-IsCalm : IsCalm two_tasks.os two_tasks.procs
two_tasks-IsCalm = record { lockable = refl; unlockable = refl; heard = refl; free = refl }

-- The thread's copy of the first task, with TRIGGER_REARM
abbrev rearming : Task
rearming = record first { opts = 2 }

no_third :
    (x : Task)
    → task_of (codes "third") two_tasks.db.task_set ≡ some x
    → (is_pid x.pid && two_tasks.os.kill x.pid) ≡ false
unfolding str_eq task_of
no_third x e = absurd (some_ne_none (sym e))

exit_fail-exec_kill_example :
    Ends
      (λ out v. exit_fail failing first (pos 7) v ≡ blocked)
      (exec_kill memory (record { op = c_kill; args = codes "third" ∷ [] }) two_tasks)
unfolding str_eq task_of
exit_fail-exec_kill_example =
    exit_fail-exec_kill memory c_kill (codes "third") failing first first (pos 7) two_tasks
      two_tasks-IsQuiet two_tasks-IsCalm no_third refl refl
