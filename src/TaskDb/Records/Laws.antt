-- ===== src/TaskDb/Records/Laws.antt =====
-- Calls on one task as operations of a map from names to tasks.
use crinit.Base.{
  ℕ, ◌≡◌, refl, sym, ap, ◌∙◌, inl, inr, ◌⊎◌, Bool, true, false, none, some, ◌==◌, if◌then◌else◌,
  length, set, arith, Status, ok, err,
}
use crinit.Base.Str.{Str, str_eq}
use crinit.Base.Int.{ℤ}
use crinit.Task.{Task, Timespec}
use crinit.Task.State
use crinit.World.{World, live, M}
use crinit.World.Laws.{Ends, Ends-lock_db, hold_db}
use crinit.TaskDb.Find.{find_task, Found, found, missing, dangling, with_task, on_found}
use crinit.TaskDb.Find.Laws.{task_of, FindResult, find_task_result}
use crinit.TaskDb.Deps.Fulfil.{IsQuiet}
use crinit.TaskDb.Records.{
  stamp, enter_state, set_task_state, set_task_pid, set_task_respawn_inhibit, rearm_trigger,
  read_task,
}

-- The task of the name is the given one, all other tasks are as before, and so is all else but the
-- flag that wakes the main loop. The state is quiet.
pub record Sets (name : Str) (t : Task) (w w' : World) : Type 0 where
  pub quiet : IsQuiet w'
  pub tasks :
      (j : Str)
      → task_of j w'.db.task_set ≡ (if str_eq name j then some t else task_of j w.db.task_set)
  pub pool : w'.pool ≡ w.pool
  pub os : w'.os ≡ w.os
  pub threads : w'.threads ≡ w.threads
  pub procs : w'.procs ≡ w.procs

-- Nothing has changed but the flag that wakes the main loop.
pub record Keeps (w w' : World) : Type 0 where
  pub quiet : IsQuiet w'
  pub tasks : w'.db.task_set ≡ w.db.task_set
  pub pool : w'.pool ≡ w.pool
  pub os : w'.os ≡ w.os
  pub threads : w'.threads ≡ w.threads
  pub procs : w'.procs ≡ w.procs

-- The search in a quiet state, with the database locked
pub Ends-find :
    {B : Type 0} (Q : B → World → Type 0) (name : Str) (f : ℕ → Task → M B) (m : M B) (w v : World)
    → IsQuiet w
    → ((i : ℕ) (t : Task) → FindResult name w.db.task_set (found i t) → Ends Q (f i t v))
    → (task_of name w.db.task_set ≡ none → Ends Q (m v))
    → Ends Q (on_found (find_task name w.db.task_set) f m v)
Ends-find Q name f m w v q h k = go _ (find_task_result name w.db.task_set q.live_tasks)
  where
    go : (r : Found) → FindResult name w.db.task_set r → Ends Q (on_found r f m v)
    go (found i t) r = h i t r
    go missing r = k r
    go dangling r = absurd r

pub Ends-with_task :
    (Q : Status → World → Type 0) (name : Str) (f : ℕ → Task → M Status) (w : World)
    → IsQuiet w
    → ((i : ℕ) (t : Task) → FindResult name w.db.task_set (found i t) → Ends Q (f i t (hold_db w)))
    → (task_of name w.db.task_set ≡ none
        → Q err (record w { db = record (w.db) { locked = false } }))
    → Ends Q (with_task name f w)
unfolding with_task
Ends-with_task Q name f w q h k =
    Ends-lock_db Q _ w q.lockable q.free (Ends-find Q name f _ w (hold_db w) q h k)

pub set_quiet :
    (name : Str) (i : ℕ) (t t' : Task) (changed : Bool) (w : World)
    → IsQuiet w
    → FindResult name w.db.task_set (found i t)
    → t'.name ≡ t.name
    → Sets name t' w (record w {
      db = record (w.db) {
        task_set = set w.db.task_set i (live t');
        changed = changed;
        locked = false;
      };
    })
set_quiet name i t t' changed w q r n = record {
  quiet = record {
    lockable = q.lockable;
    free = refl;
    open_pool = record { lockable = q.open_pool.lockable; pool = q.open_pool.pool };
    live_tasks = r.3 t';
  };
  tasks = r.2 t' (n ∙ r.1);
  pool = refl;
  os = refl;
  threads = refl;
  procs = refl;
}

pub keep_quiet :
    (changed : Bool) (w : World)
    → IsQuiet w
    → Keeps w (record w { db = record (w.db) { changed = changed; locked = false } })
keep_quiet changed w q = record {
  quiet = record {
    lockable = q.lockable;
    free = refl;
    open_pool = record { lockable = q.open_pool.lockable; pool = q.open_pool.pool };
    live_tasks = q.live_tasks;
  };
  tasks = refl;
  pool = refl;
  os = refl;
  threads = refl;
  procs = refl;
}

enter_state-name : (time : Timespec) (s : ℕ) (t : Task) → (enter_state time s t).name ≡ t.name
unfolding enter_state
enter_state-name time s t = ground arith

-- A call changes the task of a name by a function and returns 0, or returns -1 because there is none.
abbrev pub Modifies : Str → (Task → Task) → World → Status → World → Type 0
Modifies name f w res w' =
    (res ≡ ok) × ((t : Task) × (task_of name w.db.task_set ≡ some t) × Sets name (f t) w w')
    ⊎ (res ≡ err) × (task_of name w.db.task_set ≡ none) × Keeps w w'

-- `crinitTaskDBSetTaskState` in a quiet state changes the task of the name as `enter_state` says and
-- no other task, wakes the main loop and returns 0; without such a task it changes nothing and
-- returns -1.
pub set_task_state-Modifies :
    (s : ℕ) (name : Str) (w : World)
    → IsQuiet w
    → Ends
        (λ res w'.
          Modifies name (enter_state (stamp w s) s) w res w' × (res ≡ ok → w'.db.changed ≡ true))
        (set_task_state s name w)
unfolding set_task_state
set_task_state-Modifies s name w q =
    Ends-with_task _ name _ w q
      (λ i t r. (
        inl (
          refl,
          (
            t,
            r.0,
            set_quiet name i t (enter_state (stamp w s) s t) true w q r
                (enter_state-name (stamp w s) s t),
          ),
        ),
        λ e. refl,
      ))
      (λ e. (inr (refl, e, keep_quiet w.db.changed w q), λ x. cc))

pub set_task_pid-Modifies :
    (pid : ℤ) (name : Str) (w : World)
    → IsQuiet w
    → Ends (Modifies name (λ t. record t { pid = pid }) w) (set_task_pid pid name w)
unfolding set_task_pid
set_task_pid-Modifies pid name w q =
    Ends-with_task _ name _ w q
      (λ i t r.
        inl (refl, (t, r.0, set_quiet name i t (record t { pid = pid }) w.db.changed w q r refl)))
      (λ e. inr (refl, e, keep_quiet w.db.changed w q))

pub set_task_respawn_inhibit-Modifies :
    (inhibit : Bool) (name : Str) (w : World)
    → IsQuiet w
    → Ends
        (Modifies name (λ t. record t { inhibit_respawn = inhibit }) w)
        (set_task_respawn_inhibit inhibit name w)
unfolding set_task_respawn_inhibit
set_task_respawn_inhibit-Modifies inhibit name w q =
    Ends-with_task _ name _ w q
      (λ i t r. inl (
        refl,
        (
          t,
          r.0,
          set_quiet name i t (record t { inhibit_respawn = inhibit }) w.db.changed w q r refl,
        ),
      ))
      (λ e. inr (refl, e, keep_quiet w.db.changed w q))

-- `crinitTaskRearmTrigger` in a quiet state makes the task of the name loaded, and triggered only if
-- it has no triggers, and changes no other task; without such a task it changes nothing and returns
-- -1. It wakes the main loop in both cases.
pub rearm_trigger-Modifies :
    (name : Str) (w : World)
    → IsQuiet w
    → Ends
        (λ res w'.
          Modifies name
            (λ t. record t { triggered = length t.trig == 0; state = State.loaded })
            w
            res
            w'
          × (w'.db.changed ≡ true))
        (rearm_trigger name w)
unfolding rearm_trigger
rearm_trigger-Modifies name w q = Ends-lock_db _ _ w q.lockable q.free (
    Ends-find _ name _ _ w (hold_db w) q
      (λ i t r. (
        inl (
          refl,
          (
            t,
            r.0,
            set_quiet name i t (record t { triggered = length t.trig == 0; state = State.loaded })
                true w q r refl,
          ),
        ),
        refl,
      ))
      (λ e. (inr (refl, e, keep_quiet true w q), refl)))

-- What a reading call returns
abbrev pub Reads : {A : Type 0} → (Task → A) → A → Str → World → Status × A → World → Type 0
Reads {A} field default name w out w' =
    Keeps w w'
    × (out ≡ elim (task_of name w.db.task_set) [
      | some t ↦ let r : Status × A = (ok, field t) in r
      | none ↦ let r : Status × A = (err, default) in r
    ])

pub read_task-Reads :
    {A : Type 0} (field : Task → A) (default : A) (name : Str) (w : World)
    → IsQuiet w
    → Ends (Reads field default name w) (read_task field default name w)
unfolding read_task
read_task-Reads {A} field default name w q =
    Ends-lock_db (Reads field default name w) _ w q.lockable q.free (
      Ends-find (Reads field default name w) name _ _ w (hold_db w) q
        (λ i t r. (
          keep_quiet w.db.changed w q,
          sym (
              ap
                (λ o. elim o [
                  | some v ↦ let p : Status × A = (ok, field v) in p
                  | none ↦ let p : Status × A = (err, default) in p
                ])
                r.0),
        ))
        (λ e. (
          keep_quiet w.db.changed w q,
          sym (
              ap
                (λ o. elim o [
                  | some v ↦ let p : Status × A = (ok, field v) in p
                  | none ↦ let p : Status × A = (err, default) in p
                ])
                e),
        )))
