-- ===== src/TaskDb/Records/RoundTrip.antt =====
-- What a call that reads a task returns after one that wrote it, and the dependencies that are added.
use crinit.Base.{
  ℕ, ◌≡◌, refl, sym, ap, subst, ◌∙◌, inl, inr, ◌⊎◌, true, false, ◌&&◌, ◌||◌, List, [], ◌∷◌, ◌++◌,
  Option, none, some, if◌then◌else◌, arith, Bool-cases, Status, ok, err,
}
use crinit.Base.Str.{Str, str_eq, str_eq_iff}
use crinit.Task.{Task, Timespec, Dep, dep_eq}
use crinit.World.{World, Slot}
use crinit.World.Laws.{Ends, Ends-weaken, Ends-branch, absurd_test, hold_db}
use crinit.TaskDb.Find.Laws.{task_of}
use crinit.TaskDb.Deps.{has_dep, add_dep_to_task}
use crinit.TaskDb.Deps.Removal.{IsDistinct, dep_eq_iff}
use crinit.TaskDb.Deps.Fulfil.{IsQuiet}
use crinit.TaskDb.Records.{enter_state, stamp, set_task_state, get_task_state, read_task}
use crinit.TaskDb.Records.Laws.{
  Sets, Keeps, Modifies, read_task-Reads, set_task_state-Modifies, Ends-with_task, set_quiet,
  keep_quiet,
}

enter_state-state : (time : Timespec) (s : ℕ) (t : Task) → (enter_state time s t).state ≡ s
unfolding enter_state
enter_state-state time s t = ground arith

-- What `crinitTaskDBGetTaskState` gives for a name
abbrev pub state_of : Option Task → Status × ℕ
state_of none = (err, 0)
state_of (some t) = (ok, t.state)

pub some_ne_none : {t : Task} → some t ≡ none → ⊥
some_ne_none e = ground (arith, e)

read_result :
    (name : Str) (u : Task) (s : ℕ) (o before : Option Task) (j : Str)
    → o ≡ (if str_eq name j then some u else before)
    → u.state ≡ s
    → elim o [
      | some x ↦ let p : Status × ℕ = (ok, x.state) in p
      | none ↦ let p : Status × ℕ = (err, 0) in p
    ]
      ≡ (if str_eq name j then (ok, s) else state_of before)
read_result name u s o before j e h = elim (Bool-cases (str_eq name j)) [
  | inl y ↦ rw y (
      ap state_of (e ∙ ap (λ b. if b then some u else before) y)
      ∙ ap (λ n. let p : Status × ℕ = (ok, n) in p) h)
  | inr n ↦ rw n (ap state_of (e ∙ ap (λ b. if b then some u else before) n))
]

-- After `crinitTaskDBSetTaskState` has set the state of a task in a quiet database,
-- `crinitTaskDBGetTaskState` returns that state for the task's name, and for each other name what it
-- returned before.
pub get_task_state-set_task_state :
    (s : ℕ) (name : Str) (t : Task) (w : World)
    → IsQuiet w
    → task_of name w.db.task_set ≡ some t
    → Ends
        (λ res v.
          (res ≡ ok)
          × ((j : Str)
              → Ends
                  (λ out v'.
                    out ≡ (if str_eq name j then (ok, s) else state_of (task_of j w.db.task_set)))
                  (get_task_state j v)))
        (set_task_state s name w)
unfolding get_task_state
get_task_state-set_task_state s name t w q h =
    Ends-weaken _ _ (set_task_state s name w) (set_task_state-Modifies s name w q)
      (λ res v m. go res v m.0)
  where
    read_after :
        (j : Str) (u : Task) (out : Status × ℕ) (o : Option Task)
        → o
          ≡ (if str_eq name j then some (enter_state (stamp w s) s u) else task_of j w.db.task_set)
        → out ≡ elim o [
          | some x ↦ let p : Status × ℕ = (ok, x.state) in p
          | none ↦ let p : Status × ℕ = (err, 0) in p
        ]
        → out ≡ (if str_eq name j then (ok, s) else state_of (task_of j w.db.task_set))
    read_after j u out o e r =
        r
        ∙ read_result name (enter_state (stamp w s) s u) s o (task_of j w.db.task_set) j e
            (enter_state-state (stamp w s) s u)

    go :
        (res : Status) (v : World)
        → Modifies name (enter_state (stamp w s) s) w res v
        → (res ≡ ok)
          × ((j : Str)
              → Ends
                  (λ out v'.
                    out ≡ (if str_eq name j then (ok, s) else state_of (task_of j w.db.task_set)))
                  (read_task (λ (u : Task). u.state) 0 j v))
    go res v (inr (_, none_there, _)) = absurd (some_ne_none (sym h ∙ none_there))
    go res v (inl (e, (u, there, m))) = (
      e,
      λ j.
          Ends-weaken _ _ (read_task (λ (u : Task). u.state) 0 j v)
            (read_task-Reads (λ (u : Task). u.state) 0 j v m.quiet)
            (λ out v' r. read_after j u out (task_of j v.db.task_set) (m.tasks j) r.1),
    )

-- What is known of the task after a dependency was added to it
pub record HasAdded (dep : Dep) (before after : Task) : Type 0 where
  pub deps : (j : Dep) → has_dep j after.deps ≡ (has_dep j before.deps || dep_eq j dep)
  pub distinct : IsDistinct before.deps → IsDistinct after.deps
  pub rest : after ≡ record before { deps = after.deps }

pub same_task :
    (name : Str) (slots : List Slot) (t : Task) (j : Str)
    → task_of name slots ≡ some t
    → task_of j slots ≡ (if str_eq name j then some t else task_of j slots)
same_task name slots t j e = elim (Bool-cases (str_eq name j)) [
  | inl y ↦ rw y (ap (λ k. task_of k slots) (sym ((str_eq_iff name j).0 y)) ∙ e)
  | inr n ↦ rw n refl
]

dep_eq_comm : (a b : Dep) → dep_eq a b ≡ dep_eq b a
unfolding dep_eq
dep_eq_comm a b = ground (
  arith,
  str_eq_iff a.name b.name,
  str_eq_iff b.name a.name,
  str_eq_iff a.event b.event,
  str_eq_iff b.event a.event,
)

pub has_dep-append :
    (deps : List Dep) (dep j : Dep)
    → has_dep j (deps ++ dep ∷ []) ≡ (has_dep j deps || dep_eq j dep)
unfolding has_dep
has_dep-append [] dep j = ground (arith, dep_eq_comm j dep)
has_dep-append (x ∷ deps) dep j = ground (arith, has_dep-append deps dep j, dep_eq_comm j dep)

IsDistinct-append :
    (deps : List Dep) (dep : Dep)
    → has_dep dep deps ≡ false
    → IsDistinct deps
    → IsDistinct (deps ++ dep ∷ [])
unfolding has_dep
IsDistinct-append [] dep h d = (refl, tt)
IsDistinct-append (x ∷ deps) dep h d = (
  ground (arith, h, d.0, has_dep-append deps dep x, dep_eq_comm x dep),
  IsDistinct-append deps dep (ground (arith, h)) d.1,
)

present_dep :
    (deps : List Dep) (dep j : Dep)
    → has_dep dep deps ≡ true
    → has_dep j deps ≡ (has_dep j deps || dep_eq j dep)
present_dep deps dep j h = elim (Bool-cases (dep_eq j dep)) [
  | inl e ↦ rw e (
      subst (λ k. has_dep k deps ≡ (has_dep k deps || true)) (sym ((dep_eq_iff j dep).0 e))
        (rw h refl))
  | inr n ↦ rw n ground arith
]

-- `crinitTaskDBAddDepToTask` in a quiet state with memory: the task of the name depends on what it
-- depended on before and on the new dependency, without a duplicate if it had none, and is the same
-- otherwise; without such a task it changes nothing and returns -1.
pub add_dep_to_task-HasAdded :
    (dep : Dep) (name : Str) (w : World)
    → IsQuiet w
    → ((i : ℕ) → w.os.alloc i ≡ true)
    → Ends
        (λ res w'.
          (res ≡ ok)
            × ((t : Task) × ((t' : Task) × (task_of name w.db.task_set ≡ some t)
                  × HasAdded dep t t'
                  × Sets name t' w w'))
          ⊎ (res ≡ err) × (task_of name w.db.task_set ≡ none) × Keeps w w')
        (add_dep_to_task dep name w)
unfolding add_dep_to_task
add_dep_to_task-HasAdded dep name w q mem =
    Ends-with_task _ name _ w q
      (λ i t r.
        Ends-branch _ (has_dep dep t.deps) _ _ (hold_db w)
          (λ present. inl (
            refl,
            (
              t,
              (
                t,
                r.0,
                record {
                  deps = λ j. present_dep t.deps dep j present;
                  distinct = λ d. d;
                  rest = refl;
                },
                record {
                  quiet = (keep_quiet w.db.changed w q).quiet;
                  tasks = λ j. same_task name w.db.task_set t j r.0;
                  pool = refl;
                  os = refl;
                  threads = refl;
                  procs = refl;
                },
              ),
            ),
          ))
          (λ absent.
            Ends-branch _ (w.os.alloc 0 && w.os.alloc 1) _ _ (hold_db w)
              (λ _. inl (
                refl,
                (
                  t,
                  (
                    record t { deps = t.deps ++ dep ∷ [] },
                    r.0,
                    record {
                      deps = λ j. has_dep-append t.deps dep j;
                      distinct = λ d. IsDistinct-append t.deps dep absent d;
                      rest = refl;
                    },
                    set_quiet name i t (record t { deps = t.deps ++ dep ∷ [] }) w.db.changed w q r
                        refl,
                  ),
                ),
              ))
              (λ no. absurd (absurd_test (ground (arith, mem 0, mem 1)) no))))
      (λ e. inr (refl, e, keep_quiet w.db.changed w q))
