-- ===== src/TaskDb/Deps.antt =====
-- The dependencies of tasks in src/taskdb.c: they are added, and removed where they are fulfilled.
pub mod Removal
pub mod Fulfil
pub mod Plain
use crinit.Base.{
  ℕ, zero, suc, ◌≡◌, Bool, true, false, ◌&&◌, ◌||◌, List, [], ◌∷◌, ◌++◌, Option, none, some,
  if◌then◌else◌, length, last_of, init_of, set, get_elem?, Status, ok, err,
}
use crinit.Base.Str.{Str, str_eq}
use crinit.Task.{Dep, Task, dep_eq, timer_dep_name}
use crinit.World.{
  World, Slot, live, freed, Outcome, ret, fault, M, ◌>>=◌, ◌>>◌, return, branch, on_status, here,
  lock_db, unlock_db, broadcast_db, set_slots,
}
use crinit.TimerDb.{remove_timer}
use crinit.TaskDb.Find.{find_task, with_task, put_task, on_found}

-- A removed dependency on a timer gives its reference to the pool back.
unfoldable pub give_back : Dep → M (Unit {0})
give_back dep = branch (str_eq dep.name timer_dep_name) (remove_timer dep.event) (return tt)

-- The first loop of `crinitTaskDBRemoveDepFromTaskStruct`, on the elements from the current one on.
-- The first argument is at least their number. A removed element is overwritten by the last one, and
-- the loop goes on behind it.
pub remove_deps : ℕ → Dep → List Dep → M (List Dep)
remove_deps zero dep deps = return deps
remove_deps (suc n) dep [] = return []
remove_deps (suc n) dep (x ∷ []) =
    branch (dep_eq x dep) (give_back dep >> return []) (return (x ∷ []))
remove_deps (suc n) dep (x ∷ y ∷ deps) =
    branch (dep_eq x dep)
      (do give_back dep; rest ← remove_deps n dep (init_of y deps); return (last_of y deps ∷ rest))
      (do rest ← remove_deps n dep (y ∷ deps); return (x ∷ rest))

-- The second loop: whether the dependency is one of the triggers.
unfoldable pub has_dep : Dep → List Dep → Bool
has_dep dep [] = false
has_dep dep (x ∷ deps) = dep_eq x dep || has_dep dep deps

-- `crinitTaskDBRemoveDepFromTaskStruct`
unfoldable pub remove_dep : Dep → Task → M Task
remove_dep dep t = do
  deps ← remove_deps (length t.deps) dep t.deps
  return (record t { deps = deps; triggered = t.triggered || has_dep dep t.trig })

-- `crinitTaskDBRemoveDepFromTask`
unfoldable pub remove_dep_from_task : Dep → Str → M Status
unfolding with_task
remove_dep_from_task dep name =
    with_task name λ i t. do t' ← remove_dep dep t; broadcast_db; put_task i t'

-- The loop of `crinitTaskDBFulfillDep` over all tasks
pub remove_dep_all : Dep → List Slot → M (List Slot)
remove_dep_all dep [] = return []
remove_dep_all dep (freed ∷ slots) = λ w. fault
remove_dep_all dep (live t ∷ slots) = do
  t' ← remove_dep dep t
  slots' ← remove_dep_all dep slots
  return (live t' ∷ slots')

-- `crinitTaskDBFulfillDep` with no target, that is, for all tasks
unfoldable pub fulfill_dep : Dep → M Status
fulfill_dep dep = do
  locked ← lock_db
  on_status locked
      (do
        w ← here
        slots ← remove_dep_all dep w.db.task_set
        set_slots slots
        broadcast_db
        unlock_db
        return ok)
      (return err)

-- `crinitTaskDBAddDepToTask`. The array and the strings are allocated.
unfoldable pub add_dep_to_task : Dep → Str → M Status
unfolding with_task
add_dep_to_task dep name = with_task name λ i t. do
  w ← here
  branch (has_dep dep t.deps) (unlock_db >> return ok) (
      branch (w.os.alloc 0 && w.os.alloc 1) (put_task i (record t { deps = t.deps ++ dep ∷ [] }))
        (unlock_db >> return err))
