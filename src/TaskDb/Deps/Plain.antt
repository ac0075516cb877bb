-- ===== src/TaskDb/Deps/Plain.antt =====
-- The dependencies that are not on timers: their removal touches nothing but the task.
use crinit.Base.{
  ℕ, zero, suc, ◌+◌, ◌≤◌, ◌≡◌, refl, sym, subst, ◌∙◌, inl, inr, true, false, ◌&&◌, List, [], ◌∷◌,
  ◌++◌, length, init_of, if◌then◌else◌, arith, Bool-cases,
}
use crinit.Base.Str.{Str, str_eq}
use crinit.Task.{Task, Dep, dep_eq, timer_dep_name}
use crinit.World.{World, ret}
use crinit.World.Laws.{Ends, Ends-branch, absurd_test, hold_db, bind-ret}
use crinit.TaskDb.Deps.{
  give_back, remove_deps, has_dep, remove_dep, remove_dep_from_task, add_dep_to_task,
}
use crinit.TaskDb.Deps.Removal.{swap_remove, cleared, dep_eq_iff}
use crinit.TaskDb.Deps.Fulfil.{IsQuiet}
use crinit.TaskDb.Records.Laws.{Modifies, Ends-with_task, set_quiet, keep_quiet}
use crinit.TaskDb.Records.RoundTrip.{same_task}

module _ (dep : Dep) (plain : str_eq dep.name timer_dep_name ≡ false) where
  give_back-ret : (w : World) → give_back dep w ≡ ret tt w
  unfolding give_back
  give_back-ret w = rw plain refl

  remove_deps-ret :
      (n : ℕ) (deps : List Dep) (w : World)
      → remove_deps n dep deps w ≡ ret (swap_remove n dep deps) w
  unfolding remove_deps swap_remove
  remove_deps-ret zero deps w = refl
  remove_deps-ret (suc n) [] w = refl
  remove_deps-ret (suc n) (x ∷ []) w = elim (Bool-cases (dep_eq x dep)) [
    | inr d ↦ rw d refl
    | inl e ↦ rw e (bind-ret (give_back dep) _ w w tt (give_back-ret w))
  ]
  remove_deps-ret (suc n) (x ∷ y ∷ deps) w = elim (Bool-cases (dep_eq x dep)) [
    | inr d ↦
        rw d (bind-ret (remove_deps n dep (y ∷ deps)) _ w w _ (remove_deps-ret n (y ∷ deps) w))
    | inl e ↦ rw e (
        bind-ret (give_back dep) _ w w tt (give_back-ret w)
        ∙ bind-ret (remove_deps n dep (init_of y deps)) _ w w _
            (remove_deps-ret n (init_of y deps) w))
  ]

  remove_dep-ret : (t : Task) (w : World) → remove_dep dep t w ≡ ret (cleared dep t) w
  unfolding remove_dep
  remove_dep-ret t w =
      bind-ret (remove_deps (length t.deps) dep t.deps) _ w w _
        (remove_deps-ret (length t.deps) t.deps w)

  pub remove_dep_from_task-Modifies :
      (name : Str) (w : World)
      → IsQuiet w
      → Ends (Modifies name (cleared dep) w) (remove_dep_from_task dep name w)
  unfolding remove_dep_from_task
  remove_dep_from_task-Modifies name w q =
      Ends-with_task _ name _ w q
        (λ i t r.
          subst (Ends (Modifies name (cleared dep) w))
            (sym (
              bind-ret (remove_dep dep t) _ (hold_db w) (hold_db w) _
                (remove_dep-ret t (hold_db w))))
            (inl (refl, (t, r.0, set_quiet name i t (cleared dep t) true w q r refl))))
        (λ e. inr (refl, e, keep_quiet w.db.changed w q))

-- A dependency is added at the end, unless the task has it.
abbrev pub added : Dep → Task → Task
added dep t = if has_dep dep t.deps then t else record t { deps = t.deps ++ dep ∷ [] }

pub add_dep_to_task-Modifies :
    (dep : Dep) (name : Str) (w : World)
    → IsQuiet w
    → ((i : ℕ) → w.os.alloc i ≡ true)
    → Ends (Modifies name (added dep) w) (add_dep_to_task dep name w)
unfolding add_dep_to_task
add_dep_to_task-Modifies dep name w q mem =
    Ends-with_task _ name _ w q
      (λ i t r.
        Ends-branch _ (has_dep dep t.deps) _ _ (hold_db w)
          (λ present. inl (
            refl,
            (
              t,
              r.0,
              rw present (record {
                quiet = (keep_quiet w.db.changed w q).quiet;
                tasks = λ j. same_task name w.db.task_set t j r.0;
                pool = refl;
                os = refl;
                threads = refl;
                procs = refl;
              }),
            ),
          ))
          (λ absent.
            Ends-branch _ (w.os.alloc 0 && w.os.alloc 1) _ _ (hold_db w)
              (λ _. inl (
                refl,
                (
                  t,
                  r.0,
                  rw absent (
                      set_quiet name i t (record t { deps = t.deps ++ dep ∷ [] }) w.db.changed w q r
                        refl),
                ),
              ))
              (λ no. absurd (absurd_test (ground (arith, mem 0, mem 1)) no))))
      (λ e. inr (refl, e, keep_quiet w.db.changed w q))

-- What was added last is removed again.
pub swap_remove-append :
    (n : ℕ) (dep : Dep) (deps : List Dep)
    → length deps + 1 ≤ n
    → has_dep dep deps ≡ false
    → swap_remove n dep (deps ++ dep ∷ []) ≡ deps
unfolding swap_remove has_dep
swap_remove-append zero dep deps le h = absurd (omega (arith, le))
swap_remove-append (suc n) dep [] le h = ground (arith, dep_eq_iff dep dep)
swap_remove-append (suc n) dep (x ∷ []) le h = ground (arith, h, swap_remove-append n dep [])
swap_remove-append (suc n) dep (x ∷ y ∷ deps) le h =
    ground (arith, h, swap_remove-append n dep (y ∷ deps))
