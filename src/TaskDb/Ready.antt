-- ===== src/TaskDb/Ready.antt =====
-- The tasks that src/taskdb.c holds to be ready, and the dispatcher threads that it starts for them
-- with the spawn function of src/procdip.c.
pub mod Laws
use crinit.Base.{
  ℕ, zero, suc, ◌+◌, ◌-◌, ◌*◌, ◌/◌, ◌%◌, ◌^◌, ◌≡◌, Bool, true, false, not, ◌&&◌, ◌||◌, List, [],
  ◌∷◌, Option, none, some, ◌==◌, if◌then◌else◌, ltb, Status, ok, err,
}
use crinit.Base.Str.{Str}
use crinit.Base.Int.{ℤ, pos, negsuc}
use crinit.Task.{Task, Dep, Mode, respawns, has_bit}
use crinit.Task.State
use crinit.World.{
  World, Slot, live, freed, Outcome, ret, fault, M, ◌>>=◌, ◌>>◌, return, branch, on_status, here,
  lock_db, unlock_db, set_slots,
}

abbrev has_deps : List Dep → Bool
has_deps [] = false
has_deps (d ∷ deps) = true

-- `t->maxRetries != -1 && t->failCount > t->maxRetries`, compared as 32-bit integers
abbrev pub retries_used_up : ℤ → ℕ → Bool
retries_used_up (pos max) fails = ltb max fails
retries_used_up (negsuc zero) fails = false
retries_used_up (negsuc (suc n)) fails = true

-- `crinitTaskIsReady`
unfoldable pub task_is_ready : Task → Bool
task_is_ready t =
    if has_deps t.deps
    then false
    else if not t.triggered
    then false
    else if has_bit t.state 1 || has_bit t.state 0
    then false
    else if respawns t && t.inhibit_respawn
    then false
    else if has_bit t.state 3 || has_bit t.state 2
    then (if not (respawns t) then false else not (retries_used_up t.max_retries t.fail_count))
    else true

-- `crinitProcDispatchSpawnFunc`: a detached thread for the task, if the memory for its arguments and
-- the thread can be had
unfoldable pub spawn_func : Task → Mode → M Status
spawn_func t mode = do
  w ← here
  branch (w.os.thread t.name) (λ v. ret ok (record v { threads = (t.name, mode) ∷ v.threads }))
      (return err)

-- The loop of `crinitTaskDBSpawnReady`, on the tasks from the current one on, with the tasks after it
pub spawn_tasks : Mode → List Slot → M (Status × List Slot)
unfolding spawn_func
spawn_tasks mode [] = return {A = Status × List Slot} (ok, [])
spawn_tasks mode (freed ∷ slots) = λ w. fault
spawn_tasks mode (live t ∷ slots) =
    branch (task_is_ready t)
      (do
        spawned ← spawn_func (record t { state = State.starting }) mode
        on_status spawned
            (do
              rest ← spawn_tasks mode slots
              return {A = Status × List Slot}
                  (rest.0, live (record t { state = State.starting }) ∷ rest.1))
            (return {A = Status × List Slot}
              (err, live (record t { state = State.loaded }) ∷ slots)))
      (do rest ← spawn_tasks mode slots; return {A = Status × List Slot} (rest.0, live t ∷ rest.1))

-- `crinitTaskDBSpawnReady`
unfoldable pub spawn_ready : Mode → M Status
spawn_ready mode = do
  locked ← lock_db
  on_status locked
      (do
        w ← here
        branch w.db.spawn_inhibit (unlock_db >> return ok) (
            branch (not w.db.spawn_func) (unlock_db >> return err) (do
              result ← spawn_tasks mode w.db.task_set
              set_slots result.1
              unlock_db
              return result.0)))
      (return err)
