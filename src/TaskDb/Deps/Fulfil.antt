-- ===== src/TaskDb/Deps/Fulfil.antt =====
-- `crinitTaskDBFulfillDep` on the whole database.
use crinit.Base.{
  ◌≡◌, refl, sym, ap, subst, ◌∙◌, inl, inr, Bool, true, false, ◌||◌, List, [], ◌∷◌, arith,
  Bool-cases, All, Status, ok, map, none, some,
}
use crinit.Base.Str.{Str, str_eq, str_eq_refl}
use crinit.Task.{Dep, Task, timer_dep_name}
use crinit.World.{World, Os, TaskDb, Slot, live, freed, blocked}
use crinit.World.Laws.{
  Ends, Ends-bind, Ends-weaken, Ends-lock_db, hold_db, SameButPool-refl, SameButPool-trans,
}
use crinit.TaskDb.Find.Laws.{IsLive, task_of}
use crinit.TaskDb.Deps.{has_dep, remove_dep, remove_dep_all, fulfill_dep}
use crinit.TaskDb.Deps.Removal.{
  IsOpen, Gives, IsDistinct, cleared, remove_dep-Ends, IsFulfilled, cleared-IsFulfilled,
  remove_dep-blocked, remove_dep-absent,
}

-- No call waits: both mutexes are free and can be locked, the pool is well formed, and the array
-- holds tasks only.
pub record IsQuiet (w : World) : Type 0 where
  pub lockable : w.os.db_lock_error ≡ false
  pub free : w.db.locked ≡ false
  pub open_pool : IsOpen w
  pub live_tasks : All IsLive w.db.task_set

abbrev pub clear_slot : Dep → Slot → Slot
clear_slot dep (live t) = live (cleared dep t)
clear_slot dep freed = freed

remove_dep_all-Ends :
    (dep : Dep) (slots : List Slot) (w : World)
    → All IsLive slots
    → IsOpen w
    → Ends (Gives w (map (clear_slot dep) slots)) (remove_dep_all dep slots w)
unfolding remove_dep_all
remove_dep_all-Ends dep [] w l o = (refl, SameButPool-refl w, o)
remove_dep_all-Ends dep (freed ∷ slots) w l o = absurd l.0
remove_dep_all-Ends dep (live t ∷ slots) w l o =
    Ends-bind _ _ (remove_dep dep t) _ w (remove_dep-Ends dep t w o) (λ t' w' g.
      Ends-bind _ _ (remove_dep_all dep slots) _ w' (remove_dep_all-Ends dep slots w' l.1 g.2)
        (λ slots' v h. (λ i. live (g.0 i) ∷ h.0 i, SameButPool-trans g.1 h.1, h.2)))

-- Each task of the new array is what the removal makes of the old one.
pub task_of-clear :
    (dep : Dep) (j : Str) (slots : List Slot)
    → task_of j (map (clear_slot dep) slots)
      ≡ elim (task_of j slots) [ none ↦ none | some t ↦ some (cleared dep t) ]
unfolding task_of
task_of-clear dep j [] = refl
task_of-clear dep j (freed ∷ slots) = refl
task_of-clear dep j (live u ∷ slots) = elim (Bool-cases (str_eq j u.name)) [
  | inl same ↦ rw same
  | inr other ↦ rw other (task_of-clear dep j slots)
]

pub All-clear :
    (dep : Dep) (slots : List Slot) → All IsLive slots → All IsLive (map (clear_slot dep) slots)
All-clear dep [] h = tt
All-clear dep (live t ∷ slots) h = (tt, All-clear dep slots h.1)
All-clear dep (freed ∷ slots) h = absurd h.0

-- The state after the dependency is fulfilled
abbrev pub After : Dep → World → Status → World → Type 0
After dep w res w' =
    (res ≡ ok)
    × IsQuiet w'
    × (w'.db ≡ record (w.db) {
      task_set = map (clear_slot dep) w.db.task_set;
      changed = true;
      locked = false;
    })
    × (w'.threads ≡ w.threads)
    × (w'.os ≡ w.os)

pub fulfill_dep-Ends : (dep : Dep) (w : World) → IsQuiet w → Ends (After dep w) (fulfill_dep dep w)
unfolding fulfill_dep
fulfill_dep-Ends dep w q = Ends-lock_db (After dep w) _ w q.lockable q.free (
    Ends-bind (Gives (hold_db w) (map (clear_slot dep) w.db.task_set)) (After dep w)
      (remove_dep_all dep w.db.task_set) _ (hold_db w)
      (remove_dep_all-Ends dep w.db.task_set (hold_db w) q.live_tasks
        (record { lockable = q.open_pool.lockable; pool = q.open_pool.pool }))
      (λ slots v g. (
        refl,
        record {
          lockable = ap (λ (o : Os). o.db_lock_error) g.1.os ∙ q.lockable;
          free = refl;
          open_pool = record { lockable = g.2.lockable; pool = g.2.pool };
          live_tasks = subst (All IsLive) (sym g.0) (All-clear dep w.db.task_set q.live_tasks);
        },
        (λ i. record (g.1.db i) { task_set = g.0 i; changed = true; locked = false }),
        g.1.threads,
        g.1.os,
      )))

-- `crinitTaskDBFulfillDep` for all tasks returns 0 in a quiet state and leaves a quiet state. The
-- main loop is woken, no thread is started, and of every name: a task without duplicate dependencies
-- has exactly the other dependencies left, and is triggered if it was or if the dependency is one of
-- its triggers; a name without a task has none.
pub fulfill_dep-IsFulfilled :
    (dep : Dep) (w : World)
    → IsQuiet w
    → Ends
        (λ res w'.
          (res ≡ ok)
          × IsQuiet w'
          × (w'.db.changed ≡ true)
          × (w'.threads ≡ w.threads)
          × ((j : Str) (t : Task)
              → task_of j w.db.task_set ≡ some t
              → IsDistinct t.deps
              → (t' : Task) × (task_of j w'.db.task_set ≡ some t') × IsFulfilled dep t t')
          × ((j : Str) → task_of j w.db.task_set ≡ none → task_of j w'.db.task_set ≡ none))
        (fulfill_dep dep w)
fulfill_dep-IsFulfilled dep w q =
    Ends-weaken (After dep w) _ (fulfill_dep dep w) (fulfill_dep-Ends dep w q) (λ res w' a. (
      a.0,
      a.1,
      ap (λ (d : TaskDb). d.changed) a.2,
      a.3,
      (λ j t e d. (
        cleared dep t,
        ap (λ (x : TaskDb). task_of j x.task_set) a.2
            ∙ (task_of-clear dep j w.db.task_set
                ∙ ap (λ o. elim o [ none ↦ none | some v ↦ some (cleared dep v) ]) e),
        cleared-IsFulfilled dep t d,
      )),
      (λ j e.
          ap (λ (x : TaskDb). task_of j x.task_set) a.2
          ∙ (task_of-clear dep j w.db.task_set
              ∙ ap (λ o. elim o [ none ↦ none | some v ↦ some (cleared dep v) ]) e)),
    ))

-- Some task waits for the dependency.
unfoldable pub has_waiter : Dep → List Slot → Bool
has_waiter dep [] = false
has_waiter dep (freed ∷ slots) = has_waiter dep slots
has_waiter dep (live t ∷ slots) = has_dep dep t.deps || has_waiter dep slots

module _ (dep : Dep) (timer : str_eq dep.name timer_dep_name ≡ true) (w : World)
    (lockable : w.os.pool_lock_error ≡ false) (held : w.pool.locked ≡ true) where
  remove_dep_all-blocked :
      (slots : List Slot)
      → All IsLive slots
      → has_waiter dep slots ≡ true
      → remove_dep_all dep slots w ≡ blocked
  unfolding remove_dep_all has_waiter
  remove_dep_all-blocked [] l h = cc
  remove_dep_all-blocked (freed ∷ slots) l h = absurd l.0
  remove_dep_all-blocked (live t ∷ slots) l h = elim (Bool-cases (has_dep dep t.deps)) [
    | inl here ↦ ground (arith, remove_dep-blocked dep timer w lockable held t here)
    | inr there ↦ ground (
      arith,
      remove_dep-absent dep timer w lockable held t there,
      remove_dep_all-blocked slots l.1,
    )
  ]

-- While the mutex of the pool of timers is held, that of the database is free, neither reports an
-- error, and the array holds tasks only, `crinitTaskDBFulfillDep` for a timer that some task depends
-- on waits forever.
pub fulfill_dep-blocked :
    (event : Str) (w : World)
    → w.os.db_lock_error ≡ false
    → w.os.pool_lock_error ≡ false
    → w.db.locked ≡ false
    → w.pool.locked ≡ true
    → All IsLive w.db.task_set
    → has_waiter (record { name = timer_dep_name; event = event }) w.db.task_set ≡ true
    → fulfill_dep (record { name = timer_dep_name; event = event }) w ≡ blocked
unfolding fulfill_dep
fulfill_dep-blocked event w e p free held l h = ground (
  arith,
  e,
  free,
  remove_dep_all-blocked (record { name = timer_dep_name; event = event })
      (str_eq_refl timer_dep_name) (hold_db w) p held w.db.task_set l h,
)
