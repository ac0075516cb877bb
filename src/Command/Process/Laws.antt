-- ===== src/Command/Process/Laws.antt =====
-- What `KILL` does, and how it leaves the waiting for processes.
use crinit.Base.{
  ℕ, ◌≡◌, refl, sym, ap, subst, ◌∙◌, ◌⊎◌, inl, inr, true, false, ◌&&◌, [], ◌∷◌, arith, Bool-cases,
  Option-cases, Option, none, some, Status, ok, err,
}
use crinit.Base.Str.{Str, codes}
use crinit.Base.Int.{ℤ, negsuc}
use crinit.Task.{Task}
use crinit.World.{World, Os, Procs, ret, M, ◌>>=◌, on_status}
use crinit.World.Laws.{Ends, Ends-bind, Ends-branch, Ends-on_status, bind-ret}
use crinit.TaskDb.Find.Laws.{task_of}
use crinit.TaskDb.Deps.Fulfil.{IsQuiet}
use crinit.TaskDb.Records.{get_task_pid}
use crinit.TaskDb.Records.Laws.{Keeps, read_task-Reads}
use crinit.TaskDb.Records.RoundTrip.{some_ne_none}
use crinit.Command.Control.Laws.{some_inj}
use crinit.Rtim.{RtimOp, r_kill}
use crinit.Rtim.Cmd.{RtimCmd}
use crinit.Command.{Memory, build_cmd, succeed, refuse, res_ok, res_err}
use crinit.Command.Process.{set_inhibit_wait, send_signal, reactivate, is_pid, sigkill, exec_kill}
use crinit.Command.Process.Inhibit.{
  IsCalm, with_inhibit, inhibited, set_inhibit_wait-inhibited, inhibited-IsQuiet,
}

-- The signal was sent to the task's process and waiting is allowed again; or there is no process of
-- that name to which it could be sent, and waiting stays inhibited.
abbrev pub Kills : Memory → Str → World → Option RtimCmd → World → Type 0
Kills mem name w out w' =
    IsQuiet w'
    × (w'.db.task_set ≡ w.db.task_set)
    × (w'.os ≡ w.os)
    × ((out ≡ build_cmd mem.response r_kill (res_ok ∷ []))
          × ((t : Task) × (task_of name w.db.task_set ≡ some t)
              × (is_pid t.pid ≡ true)
              × (w.os.kill t.pid ≡ true)
              × (w'.procs ≡ record (with_inhibit false w.procs) {
                signals = (t.pid, sigkill) ∷ w.procs.signals;
              }))
        ⊎ ((reason : Str) × (out ≡ build_cmd mem.response r_kill (res_err ∷ reason ∷ [])))
          × ((t : Task)
              → task_of name w.db.task_set ≡ some t
              → (is_pid t.pid && w.os.kill t.pid) ≡ false)
          × (w'.procs ≡ with_inhibit true w.procs))

-- After the signal
Ends-send_signal :
    {B : Type 0} (Q : B → World → Type 0) (pid : ℤ) (sig : ℕ) (f : Status → M B) (w : World)
    → (w.os.kill pid ≡ true
        → Ends Q (
            f ok
              (record w { procs = record (w.procs) { signals = (pid, sig) ∷ w.procs.signals } })))
    → (w.os.kill pid ≡ false → Ends Q (f err w))
    → Ends Q ((send_signal pid sig >>= f) w)
Ends-send_signal Q pid sig f w h k = elim (Bool-cases (w.os.kill pid)) [
  | inl e ↦
      subst (Ends Q)
        (sym (
          bind-ret (send_signal pid sig) f w
            (record w { procs = record (w.procs) { signals = (pid, sig) ∷ w.procs.signals } }) ok
            (rw (e, send_signal) refl)))
        (h e)
  | inr e ↦
      subst (Ends Q) (sym (bind-ret (send_signal pid sig) f w w err (rw (e, send_signal) refl)))
        (k e)
]

-- The last call of the handler
reactivate-ret :
    (mem : Memory) (why : Str) (op : RtimOp) (w : World)
    → IsCalm w.os w.procs
    → reactivate mem why (succeed mem op) w
      ≡ ret (build_cmd mem.response op (res_ok ∷ [])) (inhibited false w)
unfolding reactivate
reactivate-ret mem why op w c =
    bind-ret (set_inhibit_wait false) _ w (inhibited false w) ok
      (set_inhibit_wait-inhibited false w c)

Ends-on_status_err :
    {B : Type 0} (Q : B → World → Type 0) (m k : M B) (s : Status) (w : World)
    → s ≡ err
    → Ends Q (k w)
    → Ends Q (on_status s m k w)
Ends-on_status_err Q m k s w e h = subst (λ a. Ends Q (on_status a m k w)) (sym e) h

-- What `crinitTaskDBGetTaskPID` gives
pid_of : Option Task → Status × ℤ
pid_of (some t) = (ok, t.pid)
pid_of none = (err, negsuc 0)

-- The response that gives a reason, with waiting still inhibited
kept-Kills :
    (mem : Memory) (name reason : Str) (w v : World)
    → Keeps (inhibited true w) v
    → ((t : Task) → task_of name w.db.task_set ≡ some t → (is_pid t.pid && w.os.kill t.pid) ≡ false)
    → Kills mem name w (build_cmd mem.response r_kill (res_err ∷ reason ∷ [])) v
kept-Kills mem name reason w v k no_process =
    (k.quiet, k.tasks, k.os, inr ((reason, refl), no_process, k.procs))

same_pid :
    (w : World) (name : Str) (t : Task)
    → task_of name w.db.task_set ≡ some t
    → (is_pid t.pid && w.os.kill t.pid) ≡ false
    → (u : Task) → task_of name w.db.task_set ≡ some u
    → (is_pid u.pid && w.os.kill u.pid) ≡ false
same_pid w name t e h u f =
    subst (λ x. (is_pid x.pid && w.os.kill x.pid) ≡ false) (some_inj (sym e ∙ f)) h

module _ (mem : Memory) (name : Str) (w v : World) (c : IsCalm w.os w.procs)
    (k : Keeps (inhibited true w) v) where
  -- The signal for the process of the task
  signal_task :
      (t : Task)
      → task_of name w.db.task_set ≡ some t
      → is_pid t.pid ≡ true
      → Ends (Kills mem name w) (
          (send_signal t.pid sigkill >>= λ sent.
          on_status sent
            (reactivate mem
              (codes "Could not reactivate waiting for processes.")
              (succeed mem r_kill))
            (refuse mem r_kill (codes "Could not send SIGKILL to Process.")))
            v)
  signal_task t e p =
      Ends-send_signal (Kills mem name w) t.pid sigkill _ v
        (λ killed.
          subst (Ends (Kills mem name w))
            (sym (reactivate-ret mem _ r_kill (signalled t) (signalled-IsCalm t)))
            (
              after-IsQuiet t,
              k.tasks,
              k.os,
              inl (
                refl,
                (
                  t,
                  e,
                  p,
                  sym (ap (λ (o : Os). o.kill t.pid) k.os) ∙ killed,
                  ap
                      (λ (x : Procs). record (with_inhibit false x) {
                        signals = (t.pid, sigkill) ∷ x.signals;
                      })
                      k.procs,
                ),
              ),
            ))
        (λ f.
          kept-Kills mem name _ w v k
            (same_pid w name t e (ground (arith, p, sym (ap (λ (o : Os). o.kill t.pid) k.os) ∙ f))))
    where
      signalled : Task → World
      signalled t = record v {
        procs = record (v.procs) { signals = (t.pid, sigkill) ∷ v.procs.signals };
      }

      signalled-IsCalm : (t : Task) → IsCalm (signalled t).os (signalled t).procs
      signalled-IsCalm t = record {
        lockable = ap (λ (o : Os). o.wait_lock_error) k.os ∙ c.lockable;
        unlockable = ap (λ (o : Os). o.wait_unlock_error) k.os ∙ c.unlockable;
        heard = ap (λ (o : Os). o.wait_broadcast_error) k.os ∙ c.heard;
        free = ap (λ (x : Procs). x.wait_locked) k.procs;
      }

      after-IsQuiet : (t : Task) → IsQuiet (inhibited false (signalled t))
      after-IsQuiet t = record {
        lockable = k.quiet.lockable;
        free = k.quiet.free;
        open_pool = record { lockable = k.quiet.open_pool.lockable; pool = k.quiet.open_pool.pool };
        live_tasks = k.quiet.live_tasks;
      }

-- KILL for a name, in a quiet state in which the waiting for processes can be inhibited: the process of
-- the task gets SIGKILL, waiting is allowed again and the response is positive; or there is no such
-- task, or no process of it that can get the signal, and the response is negative, no signal is sent
-- and waiting stays inhibited. No task changes.
pub exec_kill-Kills :
    (mem : Memory) (op : RtimOp) (name : Str) (w : World)
    → IsQuiet w
    → IsCalm w.os w.procs
    → Ends (Kills mem name w) (exec_kill mem (record { op = op; args = name ∷ [] }) w)
unfolding exec_kill get_task_pid pid_of
exec_kill-Kills mem op name w q c =
    subst (Ends (Kills mem name w))
      (sym (
        bind-ret (set_inhibit_wait true) _ w (inhibited true w) ok
          (set_inhibit_wait-inhibited true w c)))
      (Ends-bind _ (Kills mem name w) (get_task_pid name) _ (inhibited true w)
        (read_task-Reads (λ t. t.pid) (negsuc 0) name (inhibited true w)
          (inhibited-IsQuiet true w q))
        (λ got v r. elim (Option-cases (task_of name w.db.task_set)) [
          | inl none_there ↦
              Ends-on_status_err (Kills mem name w) _ _ got.0 v
                (ap (λ p. p.0) (r.1 ∙ ap pid_of none_there))
                (kept-Kills mem name _ w v r.0 (λ t e. absurd (some_ne_none (sym e ∙ none_there))))
          | inr (t, e) ↦
              let g : got ≡ (ok, t.pid) = r.1 ∙ ap pid_of e in
              Ends-on_status _ _ _ got.0 v (ap (λ p. p.0) g) (
                Ends-branch _ (is_pid got.1) _ _ v
                  (λ p.
                    subst
                      (λ n. Ends (Kills mem name w) (
                        (send_signal n sigkill >>= λ sent.
                        on_status sent
                          (reactivate mem (codes "Could not reactivate waiting for processes.")
                            (succeed mem r_kill))
                          (refuse mem r_kill (codes "Could not send SIGKILL to Process.")))
                          v))
                      (sym (ap (λ x. x.1) g))
                      (signal_task mem name w v c r.0 t e (sym (ap (λ x. is_pid x.1) g) ∙ p)))
                  (λ p.
                    kept-Kills mem name _ w v r.0
                      (same_pid w name t e (ground (arith, sym (ap (λ x. is_pid x.1) g) ∙ p)))))
        ]))
