-- ===== src/Command/Control/Restart.antt =====
-- What `RESTART` does to a task.
use crinit.Base.{
  ℕ, ◌≡◌, refl, sym, ap, subst, ◌∙◌, ◌⊎◌, inl, inr, true, false, [], ◌∷◌, if◌then◌else◌, Option,
  none, some, Status, ok, err,
}
use crinit.Base.Str.{Str, str_eq, codes}
use crinit.Task.{Task, Timespec}
use crinit.Task.State
use crinit.World.{World, ◌>>=◌, on_status}
use crinit.World.Laws.{Ends, Ends-bind, Ends-branch, Ends-on_status}
use crinit.TaskDb.Find.Laws.{task_of}
use crinit.TaskDb.Deps.Fulfil.{IsQuiet}
use crinit.TaskDb.Records.{
  enter_state, stamp, get_task_state, set_task_state, set_task_respawn_inhibit,
}
use crinit.TaskDb.Records.Laws.{
  Sets, Keeps, Modifies, read_task-Reads, set_task_state-Modifies,
  set_task_respawn_inhibit-Modifies,
}
use crinit.TaskDb.Records.RoundTrip.{some_ne_none}
use crinit.Rtim.{RtimOp, r_restart}
use crinit.Rtim.Cmd.{RtimCmd}
use crinit.Command.{Memory, build_cmd, succeed, refuse, res_ok, res_err}
use crinit.Command.Control.{exec_restart, has_ended}
use crinit.Command.Control.Laws.{Sets-trans, Sets-self, some_inj}

-- Of a call on a task that is there
pub Modifies-there :
    (name : Str) (f : Task → Task) (t : Task) (w : World) (s : Status) (v : World)
    → task_of name w.db.task_set ≡ some t
    → Modifies name f w s v
    → (s ≡ ok) × Sets name (f t) w v
Modifies-there name f t w s v e (inl c) =
    (c.0, subst (λ x. Sets name (f x) w v) (some_inj (sym c.1.1 ∙ e)) c.1.2)
Modifies-there name f t w s v e (inr c) = absurd (some_ne_none (sym e ∙ c.1))

pub Keeps-Sets :
    (name : Str) (a : Task) (u v w : World) → Keeps u v → Sets name a v w → Sets name a u w
Keeps-Sets name a u v w x y = record {
  quiet = y.quiet;
  tasks = λ j. y.tasks j ∙ ap (λ l. if str_eq name j then some a else task_of j l) x.tasks;
  pool = y.pool ∙ x.pool;
  os = y.os ∙ x.os;
  threads = y.threads ∙ x.threads;
  procs = y.procs ∙ x.procs;
}

-- The task is loaded again, and may be started again.
abbrev pub restarted : Task → Task
restarted t = record t { inhibit_respawn = false; state = State.loaded }

enter_state-restarted :
    (time : Timespec) (t : Task)
    → enter_state time State.loaded (record t { inhibit_respawn = false }) ≡ restarted t
unfolding enter_state
enter_state-restarted time t = refl

abbrev pub Restarts : Memory → Str → Task → World → Option RtimCmd → World → Type 0
Restarts mem name t w out w' =
    (has_ended t.state ≡ true)
      × (out ≡ build_cmd mem.response r_restart (res_ok ∷ []))
      × Sets name (restarted t) w w'
    ⊎ (has_ended t.state ≡ false)
      × (out
          ≡ build_cmd mem.response r_restart
              (res_err ∷ codes "Task is not either DONE or FAILED." ∷ []))
      × Keeps w w'

module _ (mem : Memory) (name : Str) (t : Task) (w : World) (v : World)
    (e : has_ended t.state ≡ true) (k : Keeps w v)
    (there : task_of name v.db.task_set ≡ some t) where
  -- The two changes, when the task has ended
  change_both : Ends (Restarts mem name t w) (
      (set_task_respawn_inhibit false name >>= λ allowed.
      on_status allowed
        (set_task_state State.loaded name >>= λ reset.
          on_status reset
            (succeed mem r_restart)
            (refuse mem r_restart (codes "Could not reset task state.")))
        (refuse mem r_restart (codes "Failed to reset the task respawn inhibit flag.")))
        v)
  change_both =
      Ends-bind _ (Restarts mem name t w) (set_task_respawn_inhibit false name) _ v
        (set_task_respawn_inhibit-Modifies false name v k.quiet)
        (λ s u c.
          let a : (s ≡ ok) × Sets name (record t { inhibit_respawn = false }) v u =
            Modifies-there name (λ x. record x { inhibit_respawn = false }) t v s u there c in
          Ends-on_status _ _ _ s u a.0 (
            Ends-bind _ (Restarts mem name t w) (set_task_state State.loaded name) _ u
              (set_task_state-Modifies State.loaded name u a.1.quiet)
              (λ s' u' c'.
                let b : (s' ≡ ok)
                    × Sets name
                        (enter_state (stamp u State.loaded) State.loaded
                          (record t { inhibit_respawn = false }))
                        u u' =
                  Modifies-there name (enter_state (stamp u State.loaded) State.loaded)
                    (record t { inhibit_respawn = false }) u s' u'
                    (Sets-self name (record t { inhibit_respawn = false }) v u a.1) c'.0 in
                Ends-on_status _ _ _ s' u' b.0 (
                  inl (
                    e,
                    refl,
                    Keeps-Sets name (restarted t) w v u' k (
                        Sets-trans name (record t { inhibit_respawn = false }) (restarted t) v u u'
                          a.1
                          (subst (λ x. Sets name x u u')
                            (enter_state-restarted (stamp u State.loaded) t) b.1)),
                  )))))

-- RESTART for a task that is there, in a quiet state: if it is DONE or FAILED, it is loaded again, may
-- be respawned, is the same otherwise and the response is positive; if not, nothing changes and the
-- response is negative.
pub exec_restart-Restarts :
    (mem : Memory) (op : RtimOp) (name : Str) (t : Task) (w : World)
    → IsQuiet w
    → task_of name w.db.task_set ≡ some t
    → Ends (Restarts mem name t w) (exec_restart mem (record { op = op; args = name ∷ [] }) w)
unfolding exec_restart get_task_state
exec_restart-Restarts mem op name t w q there =
    Ends-bind _ (Restarts mem name t w) (get_task_state name) _ w
      (read_task-Reads (λ x. x.state) 0 name w q)
      (λ got v r.
        let g : got ≡ (ok, t.state) =
          r.1
          ∙ ap (λ o. elim o as (λ _. Status × ℕ) [ some x ↦ (ok, x.state) | none ↦ (err, 0) ])
              there in
        Ends-on_status _ _ _ got.0 v (ap (λ p. p.0) g) (
          Ends-branch _ (has_ended got.1) _ _ v
            (λ e.
              change_both mem name t w v (sym (ap (λ p. has_ended p.1) g) ∙ e) r.0
                (ap (task_of name) r.0.tasks ∙ there))
            (λ e. inr (sym (ap (λ p. has_ended p.1) g) ∙ e, refl, r.0))))
