-- ===== src/TaskDb/Records/Locking.antt =====
-- The inhibition of starts, and the tasks that are borrowed with the database locked.
use crinit.Base.{ℕ, ◌≡◌, refl, sym, true, false, not, ◌&&◌, ◌||◌, Option, none, some, Status, ok}
use crinit.Base.Str.{Str}
use crinit.Task.{Task, Mode}
use crinit.World.{World, blocked}
use crinit.World.Laws.{Ends, Ends-lock_db, lock_db-blocked, hold_db}
use crinit.TaskDb.Find.{with_task}
use crinit.TaskDb.Find.Laws.{task_of}
use crinit.TaskDb.Deps.Fulfil.{IsQuiet}
use crinit.TaskDb.Records.{set_spawn_inhibit, set_task_state, borrow_task, remit}
use crinit.TaskDb.Records.Laws.{Ends-find, Keeps, keep_quiet}
use crinit.TaskDb.Ready.{spawn_ready}

-- A run over the ready tasks starts nothing.
abbrev pub StartsNothing : Mode → World → Status → World → Type 0
StartsNothing mode v res v' =
    (res ≡ ok) × (v'.threads ≡ v.threads) × (v'.db.task_set ≡ v.db.task_set)

-- After `crinitTaskDBSetSpawnInhibit` has inhibited starts in a quiet state, which changes no task,
-- `crinitTaskDBSpawnReady` returns 0, starts no thread and changes no task.
pub spawn_ready-set_spawn_inhibit :
    (mode : Mode) (w : World)
    → IsQuiet w
    → Ends
        (λ res v.
          (res ≡ ok)
          × (v.db.task_set ≡ w.db.task_set)
          × Ends (StartsNothing mode v) (spawn_ready mode v))
        (set_spawn_inhibit true w)
unfolding set_spawn_inhibit spawn_ready
spawn_ready-set_spawn_inhibit mode w q = Ends-lock_db _ _ w q.lockable q.free (
  refl,
  refl,
  Ends-lock_db (StartsNothing mode w) _
      (record w {
        db = record (w.db) {
          spawn_inhibit = true;
          changed = w.db.changed || w.db.spawn_inhibit && not true;
          locked = false;
        };
      })
      q.lockable refl (refl, refl, refl),
)

-- What borrowing a task leads to
abbrev pub Borrows : Str → World → Option (ℕ × Task) → World → Type 0
Borrows name w none v = (task_of name w.db.task_set ≡ none) × Keeps w v
Borrows name w (some (i, t)) v =
    (task_of name w.db.task_set ≡ some t)
    × ((j : Str) (s : ℕ) → set_task_state s j v ≡ blocked)
    × ((mode : Mode) → spawn_ready mode v ≡ blocked)
    × Ends (λ res v'. (res ≡ ok) × (v' ≡ w)) (remit v)

-- `crinitTaskDBBorrowTask` in a quiet state: with a task of the name it gives that task and keeps the
-- database locked, so that a call that sets a state or starts tasks waits, until `crinitTaskDBRemit`
-- gives the state from before back; without one it gives nothing, changes nothing and unlocks.
pub borrow_task-Borrows :
    (name : Str) (w : World) → IsQuiet w → Ends (Borrows name w) (borrow_task name w)
unfolding borrow_task remit set_task_state spawn_ready with_task
borrow_task-Borrows name w q = Ends-lock_db (Borrows name w) _ w q.lockable q.free (
    Ends-find (Borrows name w) name _ _ w (hold_db w) q
      (λ i t r. (
        r.0,
        (λ j s. lock_db-blocked _ (hold_db w) q.lockable refl),
        (λ mode. lock_db-blocked _ (hold_db w) q.lockable refl),
        (refl, λ k. record w { db = record (w.db) { locked = sym q.free k } }),
      ))
      (λ e. (e, keep_quiet w.db.changed w q)))
