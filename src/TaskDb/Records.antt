-- ===== src/TaskDb/Records.antt =====
-- The calls of src/taskdb.c that read or write one field of a task, or a flag of the database.
pub mod Laws
pub mod Switch
pub mod RoundTrip
pub mod Locking
use crinit.Base.{
  ℕ, zero, suc, ◌+◌, ◌-◌, ◌*◌, ◌/◌, ◌%◌, ◌^◌, ◌≡◌, Bool, true, false, not, ◌&&◌, ◌||◌, List, [],
  ◌∷◌, Option, none, some, ◌==◌, if◌then◌else◌, length, Status, ok, err,
}
use crinit.Base.Str.{Str}
use crinit.Base.Int.{ℤ, pos, negsuc}
use crinit.Task.{Task, Timespec, has_bit, clear_bit}
use crinit.Task.State
use crinit.World.{
  World, Slot, live, freed, Outcome, ret, fault, M, ◌>>=◌, ◌>>◌, return, branch, on_status, here,
  lock_db, unlock_db, broadcast_db, set_slots,
}
use crinit.TaskDb.Find.{find_task, with_task, put_task, on_found}

-- The time of a change of state; 0 if it is not needed or cannot be measured.
pub stamp : World → ℕ → Timespec
stamp w s =
    let zero_time : Timespec = record { sec = 0; nsec = 0 } in
    if has_bit s 1 || has_bit s 2 || has_bit s 3
    then elim w.os.clock [ none ↦ zero_time | some time ↦ time ]
    else zero_time

-- The `switch` of `crinitTaskDBSetTaskState`, on the state without the flag for a notification. The count of
-- failures is an `int` in the code; that it overflows after 2 ^ 31 - 1 failures in a row is not modelled.
unfoldable pub enter_state : Timespec → ℕ → Task → Task
enter_state time s t =
    let plain = clear_bit s 4 in
    if plain == State.failed
    then record t { state = s; fail_count = t.fail_count + 1; end_time = time }
    else if plain == State.done
    then record t { state = s; fail_count = 0; end_time = time }
    else if plain == State.running
    then record t { state = s; start_time = time }
    else record t { state = s }

-- `crinitTaskDBSetTaskState`
unfoldable pub set_task_state : ℕ → Str → M Status
unfolding stamp enter_state
set_task_state s name =
    with_task name λ i t. do w ← here; broadcast_db; put_task i (enter_state (stamp w s) s t)

-- `crinitTaskDBSetTaskPID`
unfoldable pub set_task_pid : ℤ → Str → M Status
set_task_pid pid name = with_task name λ i t. put_task i (record t { pid = pid })

-- `crinitTaskDBSetTaskRespawnInhibit`
unfoldable pub set_task_respawn_inhibit : Bool → Str → M Status
set_task_respawn_inhibit inhibit name =
    with_task name λ i t. put_task i (record t { inhibit_respawn = inhibit })

-- A call that reads something of a task, and gives back what it says without one
unfoldable pub read_task : {A : Type 0} → (Task → A) → A → Str → M (Status × A)
read_task {A} field default name = do
  locked ← lock_db
  on_status locked
      (do
        w ← here
        on_found (find_task name w.db.task_set)
            (λ i t. unlock_db >> return {A = Status × A} (ok, field t))
            (unlock_db >> return {A = Status × A} (err, default)))
      (return {A = Status × A} (err, default))

-- `crinitTaskDBGetTaskState`, `crinitTaskDBGetTaskPID` and `crinitTaskDBGetTaskStateAndPID`
unfoldable pub get_task_state : Str → M (Status × ℕ)
unfolding read_task
get_task_state = read_task (λ t. t.state) 0

unfoldable pub get_task_pid : Str → M (Status × ℤ)
unfolding read_task
get_task_pid = read_task (λ t. t.pid) (negsuc 0)

unfoldable pub get_task_state_and_pid : Str → M (Status × (ℕ × ℤ))
unfolding read_task
get_task_state_and_pid = read_task (λ t. (t.state, t.pid)) (0, pos 0)

-- `crinitTaskRearmTrigger`. It wakes the main loop also if there is no such task.
unfoldable pub rearm_trigger : Str → M Status
rearm_trigger name = do
  locked ← lock_db
  on_status locked
      (do
        w ← here
        on_found (find_task name w.db.task_set)
            (λ i t.
              broadcast_db
              >> put_task i (record t { triggered = length t.trig == 0; state = State.loaded }))
            (broadcast_db >> unlock_db >> return err))
      (return err)

-- `crinitTaskDBSetSpawnInhibit`
unfoldable pub set_spawn_inhibit : Bool → M Status
set_spawn_inhibit inh = do
  locked ← lock_db
  on_status locked
      (λ w. ret ok (record w {
        db = record (w.db) {
          spawn_inhibit = inh;
          changed = w.db.changed || w.db.spawn_inhibit && not inh;
          locked = false;
        };
      }))
      (return err)

-- `crinitTaskDBBorrowTask` leaves the database locked, and `crinitTaskDBRemit` unlocks it. The test
-- for an error of the lock compares with -1, which `pthread_mutex_lock` does not return, so after an
-- error the search goes on without the lock.
borrow_search : Str → M (Option (ℕ × Task))
borrow_search name = do
  w ← here
  on_found (find_task name w.db.task_set) (λ i t. return {A = Option (ℕ × Task)} (some (i, t)))
      (unlock_db >> return {A = Option (ℕ × Task)} none)

unfoldable pub borrow_task : Str → M (Option (ℕ × Task))
unfolding borrow_search
borrow_task name = do locked ← lock_db; borrow_search name

unfoldable pub remit : M Status
remit = unlock_db >> return ok
