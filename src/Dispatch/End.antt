-- ===== src/Dispatch/End.antt =====
-- The whole end of a dispatcher thread whose command failed, with its label `threadExit`.
use crinit.Base.{◌≡◌, Bool, true, some, ◌==◌, if◌then◌else◌, length}
use crinit.Base.Str.{Str}
use crinit.Task.{Task, Dep}
use crinit.Task.State
use crinit.World.{World, TaskDb}
use crinit.TaskDb.Find.Laws.{task_of}
use crinit.TaskDb.Deps.Fulfil.{IsQuiet}
use crinit.Dispatch.Hearing.{IsEnded}

-- What a removal of timers leaves of the tasks
abbrev KeepsTasks : World → Unit {0} → World → Type 0
KeepsTasks w x v = IsQuiet v × (v.db ≡ w.db)

abbrev rearmed : Task → Task
rearmed t = record t { triggered = length t.trig == 0; state = State.loaded }

-- What the end leaves of a task that has failed: with TRIGGER_REARM it is loaded again.
abbrev pub exited : Bool → Task → Task
exited rearm a = if rearm then record a { state = State.loaded } else a

-- The task of the name waits for its triggers again.
abbrev pub WaitsAgain : Str → Task → World → Type 0
WaitsAgain name a w =
    (t' : Task) × (task_of name w.db.task_set ≡ some t') × (t'.triggered ≡ (length a.trig == 0))

module _ (name : Str) (dep : Dep) (a : Task) (w : World) where
  -- What the whole end leaves
  abbrev pub HasEnded : Bool → World → Type 0
  HasEnded rearm v = IsEnded name (exited rearm a) dep w v × (rearm ≡ true → WaitsAgain name a v)
