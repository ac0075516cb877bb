-- ===== src/TaskDb/Records/Switch.antt =====
-- What the `switch` of `crinitTaskDBSetTaskState` does to the fields of a task.
use crinit.Base.{ℕ, ◌+◌, ◌≡◌, ◌≢◌, ◌⊎◌, none, some, Status, ok, err}
use crinit.Base.Str.{Str}
use crinit.Task.{Task, Timespec, clear_bit}
use crinit.Task.State
use crinit.World.{World}
use crinit.TaskDb.Find.Laws.{task_of}
use crinit.TaskDb.Records.{stamp}
use crinit.TaskDb.Records.Laws.{Sets, Keeps}

-- The count of failures and the times of a task are as they were.
pub record IsTimedAs (t t' : Task) : Type 0 where
  pub fails : t'.fail_count ≡ t.fail_count
  pub starts : t'.start_time ≡ t.start_time
  pub ends : t'.end_time ≡ t.end_time

-- A task that has entered a state at a time. The state without the flag for a notification decides on the
-- count of failures and the times; all other fields are as before.
pub record HasEntered (time : Timespec) (s : ℕ) (t t' : Task) : Type 0 where
  pub state : t'.state ≡ s
  pub on_failed :
      clear_bit s 4 ≡ State.failed
      → (t'.fail_count ≡ t.fail_count + 1) × (t'.end_time ≡ time) × (t'.start_time ≡ t.start_time)
  pub on_done :
      clear_bit s 4 ≡ State.done
      → (t'.fail_count ≡ 0) × (t'.end_time ≡ time) × (t'.start_time ≡ t.start_time)
  pub on_running :
      clear_bit s 4 ≡ State.running
      → (t'.start_time ≡ time) × (t'.fail_count ≡ t.fail_count) × (t'.end_time ≡ t.end_time)
  pub on_other :
      clear_bit s 4 ≢ State.failed
      → clear_bit s 4 ≢ State.done
      → clear_bit s 4 ≢ State.running
      → IsTimedAs t t'
  pub rest : t' ≡ record t {
    state = t'.state;
    fail_count = t'.fail_count;
    start_time = t'.start_time;
    end_time = t'.end_time;
  }

-- What a call that sets a state leaves: a task of the name has entered it, or there is none and nothing has
-- changed
abbrev pub Enters : ℕ → Str → World → Status → World → Type 0
Enters s name w res w' =
    (res ≡ ok)
      × ((t : Task) × (t' : Task) × (task_of name w.db.task_set ≡ some t)
          × HasEntered (stamp w s) s t t'
          × Sets name t' w w')
    ⊎ (res ≡ err) × (task_of name w.db.task_set ≡ none) × Keeps w w'
