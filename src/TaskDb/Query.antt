-- ===== src/TaskDb/Query.antt =====
-- The copies that src/taskdb.c gives to its callers, and `crinitTaskDup` of src/task.c.
pub mod Laws
use crinit.Base.{
  ℕ, zero, suc, ◌+◌, ◌≡◌, Bool, true, false, List, [], ◌∷◌, Option, none, some, if◌then◌else◌,
  Status, ok, err,
}
use crinit.Base.Str.{Str}
use crinit.EnvSet.{Alloc}
use crinit.Task.{Task}
use crinit.Task.Copy.{Copy, copied, failed, failed_with_original, copy_task}
use crinit.World.{
  World, Slot, live, freed, Outcome, ret, fault, M, ◌>>=◌, ◌>>◌, return, branch, on_status, here,
  lock_db, unlock_db,
}
use crinit.TaskDb.Find.{find_task, on_found}

-- A copy that failed is destroyed again, which frees its name twice, unless that was not allocated.
pub data Duplicate : Type 0 where
  duplicate : Task → Duplicate
  no_duplicate : Duplicate
  freed_twice : Duplicate

-- `crinitTaskDup`
unfoldable pub dup_task : Alloc → Task → Duplicate
dup_task alloc t =
    if alloc 0
    then elim (copy_task alloc 1 t) [
      | copied t' ↦ duplicate t'
      | failed ↦ if alloc 1 then freed_twice else no_duplicate
      | failed_with_original ↦ freed_twice
    ]
    else no_duplicate

abbrev pub give_duplicate : Duplicate → M (Status × Option Task)
give_duplicate (duplicate t) = unlock_db >> return {A = Status × Option Task} (ok, some t)
give_duplicate no_duplicate = unlock_db >> return {A = Status × Option Task} (err, none)
give_duplicate freed_twice = λ w. fault

-- `crinitTaskDBGetTaskByName`
unfoldable pub get_task_by_name : Str → M (Status × Option Task)
unfolding dup_task
get_task_by_name name = do
  locked ← lock_db
  on_status locked
      (do
        w ← here
        on_found (find_task name w.db.task_set) (λ i t. give_duplicate (dup_task w.os.alloc t))
            (unlock_db >> return {A = Status × Option Task} (err, none)))
      (return {A = Status × Option Task} (err, none))

-- What `crinitTaskDBExportTaskNamesToArray` has in its array: the names, nothing after a failed
-- allocation, or a name that was freed. The number is that of the next allocation.
pub data Export : Type 0 where
  names : List Str → Export
  no_names : Export
  freed_name : Export

abbrev pub with_name : Str → Export → Export
with_name s (names l) = names (s ∷ l)
with_name s no_names = no_names
with_name s freed_name = freed_name

-- The loop of `crinitTaskDBExportTaskNamesToArray`
pub export_names : Alloc → ℕ → List Slot → Export
export_names alloc n [] = names []
export_names alloc n (freed ∷ slots) = freed_name
export_names alloc n (live t ∷ slots) =
    let rest = export_names alloc (suc n) slots in
    if alloc n then with_name t.name rest else no_names

abbrev pub give_names : Export → M (Status × List Str)
give_names (names l) = unlock_db >> return {A = Status × List Str} (ok, l)
give_names no_names = unlock_db >> return {A = Status × List Str} (err, [])
give_names freed_name = λ w. fault

-- `crinitTaskDBExportTaskNamesToArray`
unfoldable pub export_task_names : M (Status × List Str)
unfolding export_names
export_task_names = do
  locked ← lock_db
  on_status locked
      (do
        w ← here
        branch (w.os.alloc 0) (give_names (export_names w.os.alloc 1 w.db.task_set))
            (unlock_db >> return {A = Status × List Str} (err, [])))
      (return {A = Status × List Str} (err, []))
