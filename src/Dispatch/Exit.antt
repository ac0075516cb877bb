-- ===== src/Dispatch/Exit.antt =====
-- The end of a dispatcher thread: what becomes of its task and of the tasks that wait for it.
use mathlib.Core.Path.{subst₂}
use crinit.Base.{◌+◌, ◌≡◌, refl, sym, ap, subst, ◌∙◌, Bool, false, some, Status, ok}
use crinit.Base.Str.{Str}
use crinit.Base.Int.{ℤ}
use crinit.Task.{Task, Timespec, event_failed, event_done}
use crinit.Task.State
use crinit.World.{World, Os, Procs, M, ◌>>◌, return, branch}
use crinit.World.Laws.{Ends, Ends-bind, Ends-weaken, Ends-branch, bind-ret}
use crinit.TaskDb.Find.Laws.{task_of}
use crinit.TaskDb.Deps.Removal.{IsDistinct}
use crinit.TaskDb.Deps.Fulfil.{IsQuiet}
use crinit.TaskDb.Records.{enter_state, stamp, set_task_state, set_task_pid}
use crinit.TaskDb.Records.Laws.{Sets, set_task_state-Modifies, set_task_pid-Modifies}
use crinit.Command.Control.Laws.{Sets-trans, Sets-self}
use crinit.Command.Control.Restart.{Modifies-there}
use crinit.Command.Process.{block_on_wait_inhibit, is_pid}
use crinit.Command.Process.Inhibit.{IsCalm, block_on_wait_inhibit-ok}
use crinit.Dispatch.{Children, no_pid, reap_pid, exit_done, exit_fail}
use crinit.Dispatch.Hearing.{IsEnded, fulfill_dep-provide_feature, Sets-IsEnded}

abbrev pub done_task : Timespec → Task → Task
done_task time t = record t { state = State.done; fail_count = 0; end_time = time }

abbrev pub failed_task : Timespec → Task → Task
failed_task time t = record t {
  state = State.failed;
  fail_count = t.fail_count + 1;
  end_time = time;
  pid = no_pid;
}

enter_state-done : (time : Timespec) (t : Task) → enter_state time State.done t ≡ done_task time t
unfolding enter_state
enter_state-done time t = refl

enter_state-failed :
    (time : Timespec) (t : Task)
    → record (enter_state time State.failed t) { pid = no_pid } ≡ failed_task time t
unfolding enter_state
enter_state-failed time t = refl

-- A dispatcher thread whose commands are done, in a quiet state in which the option for syslog can be
-- read: its task is DONE with no failures, and no task without duplicates depends on that any more.
pub exit_done-IsEnded :
    (t u : Task) (armed : Bool) (w : World)
    → IsQuiet w
    → w.os.syslog_option ≡ some armed
    → task_of t.name w.db.task_set ≡ some u
    → IsDistinct u.deps
    → Ends
        (λ x w'.
          IsEnded t.name
            (done_task (stamp w State.done) u)
            (record { name = t.name; event = event_done })
            w
            w')
        (exit_done t w)
unfolding exit_done
exit_done-IsEnded t u armed w q e there d =
    Ends-bind _ _ (set_task_state State.done t.name) _ w
      (set_task_state-Modifies State.done t.name w q)
      (λ r v m.
        let s : (r ≡ ok) × Sets t.name (enter_state (stamp w State.done) State.done u) w v =
          Modifies-there t.name (enter_state (stamp w State.done) State.done) u w r v there m.0 in
        let s' : Sets t.name (done_task (stamp w State.done) u) w v =
          subst (λ x. Sets t.name x w v) (enter_state-done (stamp w State.done) u) s.1 in
        Ends-weaken _ _ _
          (fulfill_dep-provide_feature (record { name = t.name; event = event_done }) t State.done
            armed v s'.quiet (ap (λ (o : Os). o.syslog_option) s'.os ∙ e))
          (λ x w' h.
            Sets-IsEnded t.name (done_task (stamp w State.done) u)
              (record { name = t.name; event = event_done }) w v v w' d s' refl h.0 h.1))

-- What reaping leaves
abbrev Reaped : World → Status → World → Type 0
Reaped w r v = IsQuiet v × (v.db.task_set ≡ w.db.task_set) × (v.os ≡ w.os)

reap_pid-Reaped :
    (os : Children) (w : World)
    → IsQuiet w
    → IsCalm w.os w.procs
    → w.procs.wait_inhibit ≡ false
    → Ends (Reaped w) (reap_pid os w)
unfolding reap_pid
reap_pid-Reaped os w q c i =
    subst (Ends (Reaped w))
      (sym (bind-ret block_on_wait_inhibit _ w _ ok (block_on_wait_inhibit-ok w c i)))
      (
        record {
          lockable = q.lockable;
          free = q.free;
          open_pool = record { lockable = q.open_pool.lockable; pool = q.open_pool.pool };
          live_tasks = q.live_tasks;
        },
        refl,
        refl,
      )

pub Sets-IsCalm :
    (name : Str) (a : Task) (w v : World)
    → IsCalm w.os w.procs
    → Sets name a w v
    → IsCalm v.os v.procs
Sets-IsCalm name a w v c s = subst₂ IsCalm (sym s.os) (sym s.procs) c

-- The two changes of a task that failed
fail_task :
    (t u : Task) (w : World)
    → IsQuiet w
    → task_of t.name w.db.task_set ≡ some u
    → {B : Type 0} (Q : B → World → Type 0) (m : M B)
    → ((v : World) → Sets t.name (failed_task (stamp w State.failed) u) w v → Ends Q (m v))
    → Ends Q ((set_task_state State.failed t.name >> (set_task_pid no_pid t.name >> m)) w)
fail_task t u w q there Q m k =
    Ends-bind _ Q (set_task_state State.failed t.name) _ w
      (set_task_state-Modifies State.failed t.name w q)
      (λ r v h.
        let a : Task = enter_state (stamp w State.failed) State.failed u in
        let s : (r ≡ ok) × Sets t.name a w v =
          Modifies-there t.name (enter_state (stamp w State.failed) State.failed) u w r v there
            h.0 in
        Ends-bind _ Q (set_task_pid no_pid t.name) _ v
          (set_task_pid-Modifies no_pid t.name v s.1.quiet)
          (λ r' v' h'.
            let s' : (r' ≡ ok) × Sets t.name (record a { pid = no_pid }) v v' =
              Modifies-there t.name (λ x. record x { pid = no_pid }) a v r' v'
                (Sets-self t.name a w v s.1) h' in
            k v' (
              subst (λ x. Sets t.name x w v') (enter_state-failed (stamp w State.failed) u)
                (Sets-trans t.name a (record a { pid = no_pid }) w v v' s.1 s'.1))))

-- A dispatcher thread whose command failed, in a quiet state in which waiting is not inhibited and the
-- option for syslog can be read: its task is FAILED with one failure more and without a process, no
-- task without duplicate dependencies depends on that event any more, and nothing else of any task
-- changes but its dependencies and its trigger. The task of the name has no duplicate dependencies.
pub exit_fail-IsEnded :
    (os : Children) (t u : Task) (pid : ℤ) (armed : Bool) (w : World)
    → IsQuiet w
    → IsCalm w.os w.procs
    → w.procs.wait_inhibit ≡ false
    → w.os.syslog_option ≡ some armed
    → task_of t.name w.db.task_set ≡ some u
    → IsDistinct u.deps
    → Ends
        (λ x w'.
          IsEnded t.name
            (failed_task (stamp w State.failed) u)
            (record { name = t.name; event = event_failed })
            w
            w')
        (exit_fail os t pid w)
unfolding exit_fail
exit_fail-IsEnded os t u pid armed w q c i e there d = fail_task t u w q there _ _ (λ v s.
    Ends-bind (Reaped v) _ (branch (is_pid pid) (reap_pid os) (return ok)) _ v
      (Ends-branch (Reaped v) (is_pid pid) (reap_pid os) (return ok) v
        (λ _.
          reap_pid-Reaped os v s.quiet (Sets-IsCalm t.name _ w v c s)
            (ap (λ (p : Procs). p.wait_inhibit) s.procs ∙ i))
        (λ _. (s.quiet, refl, refl)))
      (λ r v' h.
        Ends-weaken _ _ _
          (fulfill_dep-provide_feature (record { name = t.name; event = event_failed }) t
            State.failed armed v' h.0 (ap (λ (o : Os). o.syslog_option) (h.2 ∙ s.os) ∙ e))
          (λ x w' k.
            Sets-IsEnded t.name (failed_task (stamp w State.failed) u)
              (record { name = t.name; event = event_failed }) w v v' w' d s h.1 k.0 k.1)))
