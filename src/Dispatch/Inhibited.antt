-- ===== src/Dispatch/Inhibited.antt =====
-- A dispatcher thread whose command failed, while waiting for processes is inhibited.
use crinit.Base.{
  ◌≡◌, ap, ◌∙◌, true, false, ◌&&◌, [], ◌∷◌, arith, inl, inr, Option, some, Status, ok,
}
use crinit.Base.Str.{Str}
use crinit.Base.Int.{ℤ}
use crinit.Task.{Task}
use crinit.Task.State
use crinit.World.{World, Os, Procs, ret, blocked, return, branch}
use crinit.World.Laws.{Ends, Ends-weaken, Ends-ret, bind-ret, bind-blocked, absurd_test}
use crinit.TaskDb.Find.Laws.{task_of}
use crinit.TaskDb.Deps.Fulfil.{IsQuiet}
use crinit.TaskDb.Records.{enter_state, stamp, set_task_state, set_task_pid}
use crinit.TaskDb.Records.Laws.{Sets, Modifies, set_task_state-Modifies, set_task_pid-Modifies}
use crinit.Command.{Memory}
use crinit.Command.Control.Laws.{Sets-trans, Sets-self}
use crinit.Command.Control.Restart.{Modifies-there}
use crinit.Command.Process.{block_on_wait_inhibit, exec_kill, is_pid}
use crinit.Command.Process.Inhibit.{IsCalm, block_on_wait_inhibit-blocked}
use crinit.Command.Process.Laws.{Kills, exec_kill-Kills}
use crinit.Rtim.{RtimOp}
use crinit.Rtim.Cmd.{RtimCmd}
use crinit.Dispatch.{Children, no_pid, reap_pid, exit_fail}
use crinit.Dispatch.Exit.{Sets-IsCalm}

reap_pid-blocked :
    (os : Children) (w : World)
    → IsCalm w.os w.procs
    → w.procs.wait_inhibit ≡ true
    → reap_pid os w ≡ blocked
unfolding reap_pid
reap_pid-blocked os w c i =
    bind-blocked block_on_wait_inhibit _ w (block_on_wait_inhibit-blocked w c i)

exit_fail-blocked :
    (os : Children) (t u : Task) (pid : ℤ) (w : World)
    → IsQuiet w
    → IsCalm w.os w.procs
    → w.procs.wait_inhibit ≡ true
    → task_of t.name w.db.task_set ≡ some u
    → is_pid pid ≡ true
    → exit_fail os t pid w ≡ blocked
unfolding exit_fail
exit_fail-blocked os t u pid w q c i there p =
    let first : (r : Status) × (v : World) × (set_task_state State.failed t.name w ≡ ret r v)
        × (Modifies t.name (enter_state (stamp w State.failed) State.failed) w r v
            × (r ≡ ok → v.db.changed ≡ true)) =
      Ends-ret _ _ (set_task_state-Modifies State.failed t.name w q) in
    let a : Task = enter_state (stamp w State.failed) State.failed u in
    let s : (first.0 ≡ ok) × Sets t.name a w first.1 =
      Modifies-there t.name (enter_state (stamp w State.failed) State.failed) u w first.0 first.1
        there first.3.0 in
    let second : (r : Status) × (v : World) × (set_task_pid no_pid t.name first.1 ≡ ret r v)
        × Modifies t.name (λ x. record x { pid = no_pid }) first.1 r v =
      Ends-ret _ _ (set_task_pid-Modifies no_pid t.name first.1 s.1.quiet) in
    let s' : (second.0 ≡ ok) × Sets t.name (record a { pid = no_pid }) first.1 second.1 =
      Modifies-there t.name (λ x. record x { pid = no_pid }) a first.1 second.0 second.1
        (Sets-self t.name a w first.1 s.1) second.3 in
    let all : Sets t.name (record a { pid = no_pid }) w second.1 =
      Sets-trans t.name a (record a { pid = no_pid }) w first.1 second.1 s.1 s'.1 in
    bind-ret (set_task_state State.failed t.name) _ w first.1 first.0 first.2
    ∙ bind-ret (set_task_pid no_pid t.name) _ first.1 second.1 second.0 second.2
    ∙ bind-blocked (branch (is_pid pid) (reap_pid os) (return ok)) _ second.1 (
        ap (λ b. branch b (reap_pid os) (return ok) second.1) p
        ∙ reap_pid-blocked os second.1
            (Sets-IsCalm t.name (record a { pid = no_pid }) w second.1 c all)
            (ap (λ (x : Procs). x.wait_inhibit) all.procs ∙ i))

-- After a KILL for a name without a process that can get the signal, in a quiet state in which waiting
-- can be inhibited, the dispatcher thread of any other task whose process fails waits forever, when no
-- other command allows waiting again.
pub exit_fail-exec_kill :
    (mem : Memory) (op : RtimOp) (name : Str) (os : Children) (t u : Task) (pid : ℤ) (w : World)
    → IsQuiet w
    → IsCalm w.os w.procs
    → ((x : Task) → task_of name w.db.task_set ≡ some x → (is_pid x.pid && w.os.kill x.pid) ≡ false)
    → task_of t.name w.db.task_set ≡ some u
    → is_pid pid ≡ true
    → Ends
        (λ out v. exit_fail os t pid v ≡ blocked)
        (exec_kill mem (record { op = op; args = name ∷ [] }) w)
exit_fail-exec_kill mem op name os t u pid w q c no_process there p =
    Ends-weaken _ _ (exec_kill mem (record { op = op; args = name ∷ [] }) w)
      (exec_kill-Kills mem op name w q c) go
  where
    go :
        (out : Option RtimCmd) (v : World) → Kills mem name w out v → exit_fail os t pid v ≡ blocked
    go out v (quiet, tasks, same, inl (o, (x, e, is, killed, procs))) =
        absurd (absurd_test (ground (arith, is, killed)) (no_process x e))
    go out v (quiet, tasks, same, inr (o, n, procs)) =
        exit_fail-blocked os t u pid v quiet
          (record {
            lockable = ap (λ (x : Os). x.wait_lock_error) same ∙ c.lockable;
            unlockable = ap (λ (x : Os). x.wait_unlock_error) same ∙ c.unlockable;
            heard = ap (λ (x : Os). x.wait_broadcast_error) same ∙ c.heard;
            free = ap (λ (x : Procs). x.wait_locked) procs;
          })
          (ap (λ (x : Procs). x.wait_inhibit) procs) (ap (task_of t.name) tasks ∙ there) p
