-- ===== src/TaskDb/Find.antt =====
-- `crinitFindTask` of src/taskdb.c, and the change of the task that it finds.
pub mod Laws
use crinit.Base.{
  ℕ, zero, suc, ◌≡◌, Bool, true, false, List, [], ◌∷◌, Option, none, some, if◌then◌else◌, set,
  Status, ok, err,
}
use crinit.Base.Str.{Str, str_eq}
use crinit.Task.{Task}
use crinit.World.{
  World, Slot, live, freed, Outcome, ret, fault, M, ◌>>=◌, ◌>>◌, return, on_status, here, lock_db,
  unlock_db, set_slots,
}

-- What the search finds: the place of a task with the task, or nothing, or a name that was freed.
pub data Found : Type 0 where
  found : ℕ → Task → Found
  missing : Found
  dangling : Found

abbrev pub behind : Found → Found
behind (found i t) = found (suc i) t
behind missing = missing
behind dangling = dangling

-- `crinitFindTask`
unfoldable pub find_task : Str → List Slot → Found
find_task name [] = missing
find_task name (freed ∷ slots) = dangling
find_task name (live t ∷ slots) =
    if str_eq name t.name then found 0 t else behind (find_task name slots)

-- What a call does with the search's result
abbrev pub on_found : {A : Type 0} → Found → (ℕ → Task → M A) → M A → M A
on_found (found i t) f m w = f i t w
on_found missing f m w = m w
on_found dangling f m w = fault

-- A call that locks the database, searches a task, and changes or reads it, and unlocks. It returns
-- -1 if the mutex cannot be locked or there is no such task.
unfoldable pub with_task : Str → (ℕ → Task → M Status) → M Status
unfolding find_task
with_task name f = do
  locked ← lock_db
  on_status locked
      (do
        w ← here
        on_found (find_task name w.db.task_set) (λ i t. f i t) (unlock_db >> return err))
      (return err)

-- The task at a place is replaced, and the database is unlocked.
abbrev pub put_task : ℕ → Task → M Status
put_task i t = do w ← here; set_slots (set w.db.task_set i (live t)); unlock_db; return ok
