-- ===== src/TaskDb/Insert.antt =====
-- `crinitTaskDBInsert` of src/taskdb.c, and the set-up and destruction of the database.
pub mod Laws
pub mod Init
use crinit.Base.{
  ℕ, zero, suc, ◌+◌, ◌*◌, ◌≡◌, Bool, true, false, not, ◌&&◌, ◌||◌, List, [], ◌∷◌, ◌++◌, Option,
  none, some, ◌==◌, if◌then◌else◌, ltb, length, set, Status, ok, err,
}
use crinit.Base.Str.{Str, str_eq, codes}
use crinit.EnvSet.{Alloc}
use crinit.Task.{Task}
use crinit.Task.Copy.{Copy, copied, failed, failed_with_original, copy_task}
use crinit.World.{
  World, TaskDb, Slot, live, freed, Outcome, ret, fault, M, ◌>>=◌, ◌>>◌, return, branch, on_status,
  on_option, here, lock_db, unlock_db, broadcast_db, set_slots,
}
use crinit.TaskDb.Find.{find_task, on_found}

-- `crinitHookType_t`
pub data HookType : Type 0 where
  hook_init hook_start hook_stop hook_task_added : HookType

-- The only entry of the table without elos: `syslog`, at its start
abbrev pub is_syslog_start : Option Str → HookType → Bool
is_syslog_start none hook_start = true
is_syslog_start (some name) hook_start = str_eq (codes "syslog") name
is_syslog_start name hook_init = false
is_syslog_start name hook_stop = false
is_syslog_start name hook_task_added = false

-- `crinitFeatureHook`, for a build without elos
unfoldable pub feature_hook : Option Str → HookType → M Status
feature_hook name type = do
  w ← here
  branch (is_syslog_start name type)
      (on_option w.os.syslog_option (return err)
        λ armed. branch armed (λ v. ret ok (record v { use_syslog = true })) (return ok))
      (return ok)

-- What follows the copy into the element at a place, which has been destroyed or is new. A copy that
-- fails is destroyed; if the stop commands of the caller's task are destroyed with it, the caller
-- destroys them again.
abbrev pub store_copy : ℕ → Copy → M Status
store_copy i (copied t) = do
  w ← here
  set_slots (set w.db.task_set i (live t))
  hooked ← feature_hook none hook_task_added
  on_status hooked (broadcast_db >> unlock_db >> return ok) (unlock_db >> return err)
store_copy i failed = unlock_db >> return err
store_copy i failed_with_original = λ w. fault

-- A new element behind the others, in an array of the given size
abbrev pub append_slot : ℕ → M (Unit {0})
append_slot size w = ret tt (record w {
  db = record (w.db) { task_set = w.db.task_set ++ freed ∷ []; task_set_size = size };
})

-- `crinitTaskDBInsert`
unfoldable pub insert : Task → Bool → M Status
unfolding feature_hook
insert t overwrite = do
  locked ← lock_db
  on_status locked
      (do
        w ← here
        let slots = w.db.task_set
        on_found (find_task t.name slots)
            (λ i old.
              branch overwrite
                (set_slots (set slots i freed) >> store_copy i (copy_task w.os.alloc 0 t))
                (unlock_db >> return err))
            (branch (length slots == w.db.task_set_size)
              (branch (w.os.alloc 0)
                (append_slot (w.db.task_set_size * 2)
                  >> store_copy (length slots) (copy_task w.os.alloc 1 t))
                (unlock_db >> return err))
              (append_slot w.db.task_set_size
                >> store_copy (length slots) (copy_task w.os.alloc 0 t))))
      (return err)

-- `crinitTaskDBInitWithSize`. `mutex_init` and `cond_init` say whether the objects can be made.
unfoldable pub init_with_size : Alloc → Bool → Bool → Bool → ℕ → TaskDb → Status × TaskDb
init_with_size alloc mutex_init cond_init spawn_func initial_size db =
    let closed : TaskDb = record {
      task_set = [];
      task_set_size = 0;
      spawn_func = false;
      spawn_inhibit = true;
      locked = false;
      changed = false;
    } in
    if ltb initial_size 1
    then (err, db)
    else if alloc 0 && mutex_init && cond_init
    then (
      ok,
      record closed {
        task_set_size = initial_size;
        spawn_func = spawn_func;
        spawn_inhibit = false;
      },
    )
    else (err, closed)

-- `crinitTaskDBDestroy`. `mutex_destroy` says whether the mutex can be destroyed.
unfoldable pub destroy : Bool → TaskDb → Status × TaskDb
destroy mutex_destroy db = (
  if mutex_destroy then ok else err,
  record db { spawn_func = false; task_set_size = 0; task_set = [] },
)
