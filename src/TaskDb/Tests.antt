-- ===== src/TaskDb/Tests.antt =====
-- The task database on a concrete state: `first` is ready, and `second` waits for it.
use crinit.Base.{ℕ, ◌≡◌, refl, true, false, [], ◌∷◌, none, some, if◌then◌else◌, ok, err}
use crinit.Base.Str.{Str, str_eq, codes}
use crinit.Task.{Task, Mode}
use crinit.Task.State
use crinit.World.{live, blocked}
use crinit.World.Laws.{Ends}
use crinit.TaskDb.Find.Laws.{task_of}
use crinit.TaskDb.Deps.{fulfill_dep}
use crinit.TaskDb.Deps.Removal.{IsFulfilled, IsDistinct}
use crinit.TaskDb.Deps.Fulfil.{IsQuiet, fulfill_dep-IsFulfilled}
use crinit.TaskDb.Records.{set_task_state, get_task_state}
use crinit.TaskDb.Records.RoundTrip.{state_of, get_task_state-set_task_state}
use crinit.TaskDb.Ready.{spawn_ready}
use crinit.TaskDb.Ready.Laws.{Run, spawn_ready-Runs}
use crinit.TaskDb.Insert.{insert}
use crinit.TaskDb.Insert.Laws.{Inserts, insert-Inserts}
use crinit.TaskDb.Query.{get_task_by_name}
use crinit.TaskDb.Query.Laws.{IsProper, Gets, get_task_by_name-insert}
use crinit.TaskDb.Provide.{provide_feature, provide_feature_by_task_name}
use crinit.TaskDb.Provide.Laws.{
  Serves, provide_feature-Serves, provide_feature_by_task_name-blocked,
}
use crinit.Examples.{
  first_done, first, second, third, quiet_os, two_tasks, two_tasks-IsQuiet, two_tasks-HasCapacity,
  empty_env-IsWellFormed, has_argument,
}

spawn_ready-Runs_example :
    Ends
      (λ res w'.
        (w' ≡ record two_tasks {
          threads = w'.threads;
          db = record (two_tasks.db) { task_set = w'.db.task_set };
        })
        × Run Mode.start quiet_os (live first ∷ live second ∷ []) [] res w'.db.task_set w'.threads)
      (spawn_ready Mode.start two_tasks)
spawn_ready-Runs_example = spawn_ready-Runs Mode.start two_tasks two_tasks-IsQuiet refl refl

fulfill_dep-IsFulfilled_example :
    Ends
      (λ res w'.
        (res ≡ ok)
        × IsQuiet w'
        × (w'.db.changed ≡ true)
        × (w'.threads ≡ [])
        × ((j : Str) (t : Task)
            → task_of j (live first ∷ live second ∷ []) ≡ some t
            → IsDistinct t.deps
            → (t' : Task) × (task_of j w'.db.task_set ≡ some t') × IsFulfilled first_done t t')
        × ((j : Str)
            → task_of j (live first ∷ live second ∷ []) ≡ none
            → task_of j w'.db.task_set ≡ none))
      (fulfill_dep first_done two_tasks)
fulfill_dep-IsFulfilled_example = fulfill_dep-IsFulfilled first_done two_tasks two_tasks-IsQuiet

insert-Inserts_example : Ends (Inserts third false two_tasks) (insert third false two_tasks)
insert-Inserts_example =
    insert-Inserts third false two_tasks two_tasks-IsQuiet two_tasks-HasCapacity (λ i. refl)
      (has_argument, tt) tt empty_env-IsWellFormed empty_env-IsWellFormed

provide_feature-Serves_example :
    Ends
      (Serves (first.prv) State.running two_tasks)
      (provide_feature first State.running two_tasks)
provide_feature-Serves_example =
    provide_feature-Serves first State.running true two_tasks two_tasks-IsQuiet refl

get_task_state-set_task_state_example :
    Ends
      (λ res v.
        (res ≡ ok)
        × ((j : Str)
            → Ends
                (λ out v'. out ≡ (
                  if str_eq (codes "first") j
                  then (ok, State.running)
                  else state_of (task_of j (live first ∷ live second ∷ []))))
                (get_task_state j v)))
      (set_task_state State.running (codes "first") two_tasks)
unfolding task_of str_eq
get_task_state-set_task_state_example =
    get_task_state-set_task_state State.running (codes "first") first two_tasks two_tasks-IsQuiet
      refl

provide_feature_by_task_name-blocked_example :
    Ends
      (λ res w'.
        (res ≡ err)
        × ((j : Str) (n : ℕ) → set_task_state n j w' ≡ blocked)
        × ((j : Str) → get_task_state j w' ≡ blocked)
        × ((mode : Mode) → spawn_ready mode w' ≡ blocked))
      (provide_feature_by_task_name (codes "none") State.running two_tasks)
unfolding task_of str_eq
provide_feature_by_task_name-blocked_example =
    provide_feature_by_task_name-blocked (codes "none") State.running two_tasks two_tasks-IsQuiet
      refl

third-IsProper : IsProper third
third-IsProper = record {
  cmds = (has_argument, tt);
  stop_cmds = tt;
  task_env = empty_env-IsWellFormed;
  elos_filters = empty_env-IsWellFormed;
}

get_task_by_name-insert_example :
    Ends
      (λ res v. (res ≡ ok) × Ends (Gets third v) (get_task_by_name (codes "third") v))
      (insert third false two_tasks)
unfolding task_of str_eq
get_task_by_name-insert_example =
    get_task_by_name-insert third two_tasks two_tasks-IsQuiet two_tasks-HasCapacity (λ i. refl)
      third-IsProper refl
