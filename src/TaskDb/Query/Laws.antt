-- ===== src/TaskDb/Query/Laws.antt =====
-- What a caller gets from the database after a task was inserted.
use crinit.Base.{
  ℕ, suc, ◌≡◌, refl, sym, ap, subst, ◌∙◌, inl, inr, true, false, List, [], ◌∷◌, Option, none, some,
  arith, All, Status, ok, map, if◌then◌else◌,
}
use crinit.Base.Str.{Str, str_eq_refl}
use crinit.EnvSet.{Alloc}
use crinit.EnvSet.Laws.{IsWellFormed}
use crinit.Task.{Task}
use crinit.Task.Copy.Laws.{HasArgument, copy_task-copied}
use crinit.World.{World, Os, Slot, live, freed}
use crinit.World.Laws.{Ends, Ends-weaken, Ends-lock_db, Ends-branch, absurd_test, hold_db}
use crinit.TaskDb.Find.Laws.{IsLive, task_of}
use crinit.TaskDb.Deps.Fulfil.{IsQuiet}
use crinit.TaskDb.Records.Laws.{Keeps, Ends-find, keep_quiet}
use crinit.TaskDb.Insert.{insert}
use crinit.TaskDb.Insert.Laws.{HasCapacity, Inserts, insert-Inserts}
use crinit.TaskDb.Query.{
  dup_task, duplicate, give_duplicate, get_task_by_name, names, export_names, export_task_names,
  give_names,
}

-- A task that can be copied with enough memory
pub record IsProper (t : Task) : Type 0 where
  pub cmds : All HasArgument t.cmds
  pub stop_cmds : All HasArgument t.stop_cmds
  pub task_env : IsWellFormed t.task_env
  pub elos_filters : IsWellFormed t.elos_filters

dup_task-duplicate :
    (alloc : Alloc) (t : Task)
    → ((i : ℕ) → alloc i ≡ true)
    → IsProper t
    → dup_task alloc t ≡ duplicate t
unfolding dup_task
dup_task-duplicate alloc t mem p =
    ground
      (arith, mem 0, copy_task-copied alloc mem 1 t p.cmds p.stop_cmds p.task_env p.elos_filters)

abbrev pub Gets : Task → World → Status × Option Task → World → Type 0
Gets t w out w' = (out ≡ (ok, some t)) × Keeps w w'

get_task_by_name-Gets :
    (name : Str) (t : Task) (w : World)
    → IsQuiet w
    → ((i : ℕ) → w.os.alloc i ≡ true)
    → IsProper t
    → task_of name w.db.task_set ≡ some t
    → Ends (Gets t w) (get_task_by_name name w)
unfolding get_task_by_name
get_task_by_name-Gets name t w q mem p h = Ends-lock_db (Gets t w) _ w q.lockable q.free (
    Ends-find (Gets t w) name _ _ w (hold_db w) q
      (λ i u r.
        subst (λ d. Ends (Gets t w) (give_duplicate d (hold_db w)))
          (sym (dup_task-duplicate w.os.alloc t mem p)
            ∙ ap (λ x. dup_task w.os.alloc x) (some_inj (sym h ∙ r.0)))
          (refl, keep_quiet w.db.changed w q))
      (λ e. absurd (some_ne_none (sym h ∙ e))))
  where
    some_inj : {a b : Task} → some a ≡ some b → a ≡ b
    some_inj e = ground (arith, e)

    some_ne_none : {a : Task} → some a ≡ none → ⊥
    some_ne_none e = ground (arith, e)

-- With enough memory, a task with a new name that is inserted into a quiet database with capacity can
-- be fetched by its name with `crinitTaskDBGetTaskByName`, which returns an equal task and changes
-- no task. The task is one that can be copied.
pub get_task_by_name-insert :
    (t : Task) (w : World)
    → IsQuiet w
    → HasCapacity w.db
    → ((i : ℕ) → w.os.alloc i ≡ true)
    → IsProper t
    → task_of t.name w.db.task_set ≡ none
    → Ends (λ res v. (res ≡ ok) × Ends (Gets t v) (get_task_by_name t.name v)) (insert t false w)
get_task_by_name-insert t w q room mem p new =
    Ends-weaken (Inserts t false w) _ (insert t false w)
      (insert-Inserts t false w q room mem p.cmds p.stop_cmds p.task_env p.elos_filters)
      (λ res v r. elim r.1 [
        | inl (e, changed, why, s) ↦ (
          e,
          get_task_by_name-Gets t.name t v s.quiet
              (subst (λ (o : Os). (i : ℕ) → o.alloc i ≡ true) (sym s.os) mem) p
              (s.tasks t.name
                ∙ ap (λ b. if b then some t else task_of t.name w.db.task_set)
                    (str_eq_refl t.name)),
        )
        | inr (e, o, there, k) ↦ absurd (there new)
      ])

-- The names of the tasks in the order of the array
abbrev pub name_of : Slot → Str
name_of (live t) = t.name
name_of freed = []

export_names-names :
    (alloc : Alloc) (n : ℕ) (slots : List Slot)
    → ((i : ℕ) → alloc i ≡ true)
    → All IsLive slots
    → export_names alloc n slots ≡ names (map name_of slots)
unfolding export_names
export_names-names alloc n [] mem l = refl
export_names-names alloc n (freed ∷ slots) mem l = absurd l.0
export_names-names alloc n (live t ∷ slots) mem l =
    ground (arith, mem n, export_names-names alloc (suc n) slots mem l.1)

abbrev pub Exports : World → Status × List Str → World → Type 0
Exports w out w' = (out ≡ (ok, map name_of w.db.task_set)) × Keeps w w'

-- With enough memory, `crinitTaskDBExportTaskNamesToArray` of a quiet database returns 0 and the names
-- of all its tasks in the order of the array, and changes nothing.
pub export_task_names-Exports :
    (w : World)
    → IsQuiet w
    → ((i : ℕ) → w.os.alloc i ≡ true)
    → Ends (Exports w) (export_task_names w)
unfolding export_task_names
export_task_names-Exports w q mem = Ends-lock_db (Exports w) _ w q.lockable q.free (
    Ends-branch (Exports w) (w.os.alloc 0) _ _ (hold_db w)
      (λ _.
        subst (λ x. Ends (Exports w) (give_names x (hold_db w)))
          (sym (export_names-names w.os.alloc 1 w.db.task_set mem q.live_tasks))
          (refl, keep_quiet w.db.changed w q))
      (λ e. absurd (absurd_test (mem 0) e)))
