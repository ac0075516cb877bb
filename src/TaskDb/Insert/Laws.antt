-- ===== src/TaskDb/Insert/Laws.antt =====
-- What inserting a task does to the map from names to tasks, and to the array's capacity.
use crinit.Base.{
  ℕ, zero, suc, ◌*◌, ◌≤◌, ◌≡◌, ◌≢◌, refl, sym, ap, subst, ◌∙◌, inl, inr, ◌⊎◌, Bool, true, false,
  List, [], ◌∷◌, ◌++◌, none, some, ◌==◌, ==_iff, if◌then◌else◌, length, length-append, length-set,
  set, arith, Bool-cases, All, All-append, Status, ok, err,
}
use crinit.Base.Str.{Str, str_eq, str_eq_iff}
use crinit.EnvSet.Laws.{IsWellFormed}
use crinit.Task.{Task}
use crinit.Task.Copy.{copied, failed, copy_task}
use crinit.Task.Copy.Laws.{HasArgument, copy_task-copied}
use crinit.World.{World, TaskDb, Slot, live, freed}
use crinit.World.Laws.{Ends, Ends-lock_db, Ends-branch, absurd_test, hold_db}
use crinit.TaskDb.Find.{find_task, dangling}
use crinit.TaskDb.Find.Laws.{IsLive, task_of}
use crinit.TaskDb.Deps.Fulfil.{IsQuiet}
use crinit.TaskDb.Records.Laws.{Sets, Keeps, set_quiet, keep_quiet, Ends-find}
use crinit.TaskDb.Insert.{insert, store_copy, feature_hook}

-- The array has room for its elements, and is not empty.
pub record HasCapacity (db : TaskDb) : Type 0 where
  pub fits : length db.task_set ≤ db.task_set_size
  pub positive : 1 ≤ db.task_set_size

set-set : {A : Type 0} (xs : List A) (i : ℕ) (a b : A) → set (set xs i a) i b ≡ set xs i b
set-set [] i a b = refl
set-set (x ∷ xs) zero a b = refl
set-set (x ∷ xs) (suc i) a b = ap (λ l. x ∷ l) (set-set xs i a b)

set-append : {A : Type 0} (xs : List A) (a b : A) → set (xs ++ a ∷ []) (length xs) b ≡ xs ++ b ∷ []
set-append [] a b = refl
set-append (x ∷ xs) a b = ap (λ l. x ∷ l) (set-append xs a b)

task_of-append :
    (slots : List Slot) (t : Task) (j : Str)
    → All IsLive slots
    → task_of t.name slots ≡ none
    → task_of j (slots ++ live t ∷ []) ≡ (if str_eq t.name j then some t else task_of j slots)
unfolding task_of
task_of-append [] t j l h = ground (arith, str_eq_iff t.name j, str_eq_iff j t.name)
task_of-append (freed ∷ slots) t j l h = absurd l.0
task_of-append (live u ∷ slots) t j l h = ground (
  arith,
  h,
  task_of-append slots t j l.1,
  str_eq_iff t.name j,
  str_eq_iff j t.name,
  str_eq_iff j u.name,
  str_eq_iff t.name u.name,
)

append_quiet :
    (t : Task) (size : ℕ) (w : World)
    → IsQuiet w
    → task_of t.name w.db.task_set ≡ none
    → Sets t.name t w (record w {
      db = record (w.db) {
        task_set = w.db.task_set ++ live t ∷ [];
        task_set_size = size;
        changed = true;
        locked = false;
      };
    })
append_quiet t size w q h = record {
  quiet = record {
    lockable = q.lockable;
    free = refl;
    open_pool = record { lockable = q.open_pool.lockable; pool = q.open_pool.pool };
    live_tasks = All-append IsLive w.db.task_set (live t ∷ []) q.live_tasks (tt, tt);
  };
  tasks = λ j. task_of-append w.db.task_set t j q.live_tasks h;
  pool = refl;
  os = refl;
  threads = refl;
  procs = refl;
}

-- The outcome of an insertion
abbrev pub Inserts : Task → Bool → World → Status → World → Type 0
Inserts t overwrite w res w' =
    HasCapacity w'.db
    × ((res ≡ ok)
          × (w'.db.changed ≡ true)
          × ((task_of t.name w.db.task_set ≡ none) ⊎ (overwrite ≡ true))
          × Sets t.name t w w'
        ⊎ (res ≡ err) × (overwrite ≡ false) × (task_of t.name w.db.task_set ≢ none) × Keeps w w')

some_ne_none : {t : Task} → some t ≡ none → ⊥
some_ne_none e = ground (arith, e)

store_copy-copied :
    (Q : Status → World → Type 0) (i n size : ℕ) (slots : List Slot) (t : Task) (w : World)
    → copy_task w.os.alloc n t ≡ copied t
    → Q ok (record w {
      db = record (w.db) {
        task_set = set slots i (live t);
        task_set_size = size;
        changed = true;
        locked = false;
      };
    })
    → Ends Q (
        store_copy i (copy_task w.os.alloc n t) (record w {
          db = record (w.db) { task_set = slots; task_set_size = size; locked = true };
        }))
unfolding feature_hook
store_copy-copied Q i n size slots t w e h =
    subst
      (λ c. Ends Q (
        store_copy i c (record w {
          db = record (w.db) { task_set = slots; task_set_size = size; locked = true };
        })))
      (sym e) h

capacity-append :
    (slots : List Slot) (s : Slot) (n : ℕ)
    → length slots ≤ n
    → length slots ≢ n
    → length (slots ++ s ∷ []) ≤ n
capacity-append slots s n h d = omega (arith, length-append slots (s ∷ []), h, d)

capacity-double :
    (slots : List Slot) (s : Slot) (n : ℕ)
    → length slots ≡ n
    → 1 ≤ n
    → (length (slots ++ s ∷ []) ≤ n * 2) × (1 ≤ n * 2)
capacity-double slots s n h p =
    (omega (arith, length-append slots (s ∷ []), h, p), omega (arith, p))

-- With enough memory, `crinitTaskDBInsert` of a task whose commands have an argument each and whose
-- sets of variables are well formed, into a quiet database with capacity, returns 0 if there was no
-- task of its name or it may be overwritten: then the name has an equal task, the other names have
-- the tasks they had, and the main loop is woken. Otherwise it returns -1 and changes nothing. In both
-- cases the array has the capacity for its elements afterwards.
pub insert-Inserts :
    (t : Task) (overwrite : Bool) (w : World)
    → IsQuiet w
    → HasCapacity w.db
    → ((i : ℕ) → w.os.alloc i ≡ true)
    → All HasArgument t.cmds
    → All HasArgument t.stop_cmds
    → IsWellFormed t.task_env
    → IsWellFormed t.elos_filters
    → Ends (Inserts t overwrite w) (insert t overwrite w)
unfolding insert
insert-Inserts t overwrite w q room mem c s e f =
    Ends-lock_db (Inserts t overwrite w) _ w q.lockable q.free (
      Ends-find (Inserts t overwrite w) t.name _ _ w (hold_db w) q
        (λ i old r.
          Ends-branch (Inserts t overwrite w) overwrite _ _ (hold_db w)
            (λ o.
              store_copy-copied (Inserts t overwrite w) i 0 w.db.task_set_size
                (set w.db.task_set i freed) t w (copy 0)
                (subst
                  (λ l. Inserts t overwrite w ok (record w {
                    db = record (w.db) { task_set = l; changed = true; locked = false };
                  }))
                  (sym (set-set w.db.task_set i freed (live t)))
                  (
                    record {
                      fits = omega (arith, length-set w.db.task_set i (live t), room.fits);
                      positive = room.positive;
                    },
                    inl (refl, refl, inr o, set_quiet t.name i old t true w q r (sym r.1)),
                  )))
            (λ o. (
              record { fits = room.fits; positive = room.positive },
              inr (refl, o, (λ n. some_ne_none (sym r.0 ∙ n)), keep_quiet w.db.changed w q),
            )))
        (λ n.
          Ends-branch (Inserts t overwrite w) (length w.db.task_set == w.db.task_set_size) _ _
            (hold_db w)
            (λ full.
              Ends-branch (Inserts t overwrite w) (w.os.alloc 0) _ _ (hold_db w)
                (λ _. appended n 1 (w.db.task_set_size * 2) (
                  capacity-double w.db.task_set (live t) w.db.task_set_size
                    ((==_iff (length w.db.task_set) w.db.task_set_size).0 full) room.positive))
                (λ a. absurd (absurd_test (mem 0) a)))
            (λ free. appended n 0 w.db.task_set_size (
              capacity-append w.db.task_set (live t) w.db.task_set_size room.fits
                  (λ x. absurd_test ((==_iff (length w.db.task_set) w.db.task_set_size).1 x) free),
              room.positive,
            ))))
  where
    copy : (n : ℕ) → copy_task w.os.alloc n t ≡ copied t
    copy n = copy_task-copied w.os.alloc mem n t c s e f

    appended :
        task_of t.name w.db.task_set ≡ none
        → (n size : ℕ) → (length (w.db.task_set ++ live t ∷ []) ≤ size) × (1 ≤ size)
        → Ends (Inserts t overwrite w) (
            store_copy (length w.db.task_set) (copy_task w.os.alloc n t) (record w {
              db = record (w.db) {
                task_set = w.db.task_set ++ freed ∷ [];
                task_set_size = size;
                locked = true;
              };
            }))
    appended new n size fits =
        store_copy-copied (Inserts t overwrite w) (length w.db.task_set) n size
          (w.db.task_set ++ freed ∷ []) t w (copy n)
          (subst
            (λ l. Inserts t overwrite w ok (record w {
              db = record (w.db) {
                task_set = l;
                task_set_size = size;
                changed = true;
                locked = false;
              };
            }))
            (sym (set-append w.db.task_set freed (live t)))
            (
              record { fits = fits.0; positive = fits.1 },
              inl (refl, refl, inl new, append_quiet t size w q new),
            ))

find_task-dangling :
    (j : Str) (slots : List Slot)
    → All IsLive slots
    → task_of j slots ≡ none
    → find_task j (slots ++ freed ∷ []) ≡ dangling
unfolding find_task task_of
find_task-dangling j [] l h = refl
find_task-dangling j (freed ∷ slots) l h = absurd l.0
find_task-dangling j (live t ∷ slots) l h = elim (Bool-cases (str_eq j t.name)) [
  | inl same ↦ absurd (some_ne_none {t = t} (ground (arith, h, same)))
  | inr other ↦ ground (arith, h, other, find_task-dangling j slots l.1)
]

abbrev pub Loses : World → Status → World → Type 0
Loses w res w' =
    (res ≡ err)
    × ((j : Str) → task_of j w.db.task_set ≡ none → find_task j w'.db.task_set ≡ dangling)

-- If the copy of a task with a new name fails and only the copy is destroyed, in a quiet state in
-- which the array is not exactly full, `crinitTaskDBInsert` returns -1 but counts the destroyed
-- element: a search for any name without a task then reads freed memory.
pub insert-dangling :
    (t : Task) (overwrite : Bool) (w : World)
    → IsQuiet w
    → length w.db.task_set ≢ w.db.task_set_size
    → task_of t.name w.db.task_set ≡ none
    → copy_task w.os.alloc 0 t ≡ failed
    → Ends (Loses w) (insert t overwrite w)
unfolding insert
insert-dangling t overwrite w q free new e = Ends-lock_db (Loses w) _ w q.lockable q.free (
    Ends-find (Loses w) t.name _ _ w (hold_db w) q
      (λ i old r. absurd (some_ne_none (sym r.0 ∙ new)))
      (λ n.
        Ends-branch (Loses w) (length w.db.task_set == w.db.task_set_size) _ _ (hold_db w)
          (λ full. absurd (free ((==_iff (length w.db.task_set) w.db.task_set_size).0 full)))
          (λ _.
            subst
              (λ c. Ends (Loses w) (
                store_copy (length w.db.task_set) c (record w {
                  db = record (w.db) { task_set = w.db.task_set ++ freed ∷ []; locked = true };
                })))
              (sym e) (refl, λ j h. find_task-dangling j w.db.task_set q.live_tasks h))))
