-- ===== src/TaskDb/Provide.antt =====
-- The features that a task provides when it reaches a state: `crinitTaskDBProvideFeature` and
-- `crinitTaskDBProvideFeatureByTaskName` of src/taskdb.c.
pub mod Laws
use crinit.Base.{
  ℕ, ◌≡◌, Bool, true, false, List, [], ◌∷◌, Option, none, some, ◌==◌, Status, ok, err,
}
use crinit.Base.Str.{Str}
use crinit.Task.{Task, Dep, Prv, provide_dep_name}
use crinit.World.{
  World, Outcome, ret, fault, M, ◌>>=◌, ◌>>◌, return, branch, on_status, here, lock_db, unlock_db,
}
use crinit.TaskDb.Deps.{fulfill_dep}
use crinit.TaskDb.Find.{find_task, on_found}
use crinit.TaskDb.Insert.{feature_hook, hook_start, hook_stop}

-- The loop of `crinitTaskDBProvideFeature`, on the features from the current one on
pub provide_features : List Prv → ℕ → M Status
provide_features [] new_state = return ok
provide_features (p ∷ prv) new_state =
    branch (p.state_req == new_state)
      (do
        fulfilled ← fulfill_dep (record { name = provide_dep_name; event = p.name })
        on_status fulfilled
            (do
              hooked ← feature_hook (some p.name) hook_start
              on_status hooked (provide_features prv new_state) (return err))
            (return err))
      (do
        hooked ← feature_hook (some p.name) hook_stop
        on_status hooked (provide_features prv new_state) (return err))

-- `crinitTaskDBProvideFeature`
unfoldable pub provide_feature : Task → ℕ → M Status
unfolding provide_features
provide_feature provider new_state = provide_features provider.prv new_state

-- `crinitTaskDBProvideFeatureByTaskName`. Without such a task it returns with the database locked.
unfoldable pub provide_feature_by_task_name : Str → ℕ → M Status
provide_feature_by_task_name name new_state = do
  locked ← lock_db
  on_status locked
      (do
        w ← here
        on_found (find_task name w.db.task_set)
            (λ i provider. unlock_db >> provide_feature provider new_state) (return err))
      (return err)
