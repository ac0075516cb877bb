-- ===== src/TaskDb/Ready/Laws.antt =====
-- What a run over the ready tasks starts.
use mathlib.Core.Path.{subst₂}
use crinit.Base.{
  ◌≡◌, refl, sym, ap, inl, inr, ◌⊎◌, Bool, true, false, not, List, [], ◌∷◌, ◌++◌, map,
  if◌then◌else◌, arith, Bool-cases, All, Status, ok, err,
}
use crinit.Base.Str.{Str}
use crinit.Task.{Task, Mode}
use crinit.Task.State
use crinit.World.{World, Os, Slot, live, freed, ret, M, on_status, branch, return}
use crinit.World.Laws.{Ends, Ends-bind, Ends-lock_db, Ends-branch, absurd_test, hold_db}
use crinit.TaskDb.Find.Laws.{IsLive}
use crinit.TaskDb.Deps.Fulfil.{IsQuiet}
use crinit.TaskDb.Ready.{task_is_ready, spawn_func, spawn_tasks, spawn_ready}

abbrev pub ready_slot : Slot → Bool
ready_slot (live t) = task_is_ready t
ready_slot freed = false

-- What becomes of a task that is started if it is ready
abbrev pub start_slot : Slot → Slot
start_slot (live t) = if task_is_ready t then live (record t { state = State.starting }) else live t
start_slot freed = freed

-- The threads of the ready tasks, the last one first, before those that there were
pub add_threads : Mode → List Slot → List (Str × Mode) → List (Str × Mode)
add_threads mode [] threads = threads
add_threads mode (freed ∷ slots) threads = add_threads mode slots threads
add_threads mode (live t ∷ slots) threads =
    if task_is_ready t
    then add_threads mode slots ((t.name, mode) ∷ threads)
    else add_threads mode slots threads

-- All ready tasks were started, and none is left.
pub record Started (mode : Mode) (slots slots' : List Slot) (threads threads' : List (Str × Mode))
    : Type 0 where
  pub tasks : slots' ≡ map start_slot slots
  pub none_left : All (λ s. ready_slot s ≡ false) slots'
  pub made : threads' ≡ add_threads mode slots threads

-- There was no thread for one ready task: those before it were started, it is loaded, and those
-- behind it are as they were.
pub record Stuck (mode : Mode) (os : Os) (slots slots' : List Slot)
    (threads threads' : List (Str × Mode)) : Type 0 where
  pub before : List Slot
  pub at : Task
  pub behind : List Slot
  pub split : slots ≡ before ++ live at ∷ behind
  pub is_ready : task_is_ready at ≡ true
  pub refused : os.thread at.name ≡ false
  pub tasks : slots' ≡ map start_slot before ++ live (record at { state = State.loaded }) ∷ behind
  pub made : threads' ≡ add_threads mode before threads

abbrev pub Run :
    Mode → Os → List Slot → List (Str × Mode) → Status → List Slot → List (Str × Mode) → Type 0
Run mode os slots threads res slots' threads' =
    (res ≡ ok) × Started mode slots slots' threads threads'
    ⊎ (res ≡ err) × Stuck mode os slots slots' threads threads'

starting-not_ready : (t : Task) → task_is_ready (record t { state = State.starting }) ≡ false
unfolding task_is_ready
starting-not_ready t = ground arith

start-Run :
    (mode : Mode) (os : Os) (t : Task) (slots : List Slot) (threads : List (Str × Mode))
    (res : Status) (slots' : List Slot) (threads' : List (Str × Mode))
    → task_is_ready t ≡ true
    → Run mode os slots ((t.name, mode) ∷ threads) res slots' threads'
    → Run mode os
        (live t ∷ slots)
        threads
        res
        (live (record t { state = State.starting }) ∷ slots')
        threads'
unfolding add_threads
start-Run mode os t slots threads res slots' threads' h (inl (e, s)) = inl (
  e,
  record {
    tasks = rw h (λ i. live (record t { state = State.starting }) ∷ s.tasks i);
    none_left = (starting-not_ready t, s.none_left);
    made = rw h s.made;
  },
)
start-Run mode os t slots threads res slots' threads' h (inr (e, s)) = inr (
  e,
  record {
    before = live t ∷ s.before;
    at = s.at;
    behind = s.behind;
    split = ap (λ l. live t ∷ l) s.split;
    is_ready = s.is_ready;
    refused = s.refused;
    tasks = rw h (λ i. live (record t { state = State.starting }) ∷ s.tasks i);
    made = rw h s.made;
  },
)

skip-Run :
    (mode : Mode) (os : Os) (t : Task) (slots : List Slot) (threads : List (Str × Mode))
    (res : Status) (slots' : List Slot) (threads' : List (Str × Mode))
    → task_is_ready t ≡ false
    → Run mode os slots threads res slots' threads'
    → Run mode os (live t ∷ slots) threads res (live t ∷ slots') threads'
unfolding add_threads
skip-Run mode os t slots threads res slots' threads' h (inl (e, s)) = inl (
  e,
  record {
    tasks = rw h (λ i. live t ∷ s.tasks i);
    none_left = (h, s.none_left);
    made = rw h s.made;
  },
)
skip-Run mode os t slots threads res slots' threads' h (inr (e, s)) = inr (
  e,
  record {
    before = live t ∷ s.before;
    at = s.at;
    behind = s.behind;
    split = ap (λ l. live t ∷ l) s.split;
    is_ready = s.is_ready;
    refused = s.refused;
    tasks = rw h (λ i. live t ∷ s.tasks i);
    made = rw h s.made;
  },
)

-- The state is the same but for the threads.
abbrev Ran : Mode → List Slot → World → Status × List Slot → World → Type 0
Ran mode slots w out w' =
    (w' ≡ record w { threads = w'.threads })
    × Run mode w.os slots w.threads (out.0) (out.1) w'.threads

abbrev Spawned : Task → Mode → World → Status → World → Type 0
Spawned t mode w res v =
    (res ≡ ok) × (v ≡ record w { threads = (t.name, mode) ∷ w.threads })
    ⊎ (res ≡ err) × (v ≡ w) × (w.os.thread t.name ≡ false)

spawn_func-Spawned :
    (t : Task) (mode : Mode) (w : World) → Ends (Spawned t mode w) (spawn_func t mode w)
unfolding spawn_func
spawn_func-Spawned t mode w = go (w.os.thread t.name) refl
  where
    go :
        (made : Bool)
        → w.os.thread t.name ≡ made
        → Ends (Spawned t mode w) (
            branch made
              (λ v. ret ok (record v { threads = (t.name, mode) ∷ v.threads }))
              (return err)
              w)
    go true e = inl (refl, refl)
    go false e = inr (refl, refl, e)

Ends-Spawned :
    {B : Type 0} (Q : B → World → Type 0) (m k : M B) (t : Task) (mode : Mode) (w : World)
    (res : Status) (v : World)
    → Spawned t mode w res v
    → Ends Q (m (record w { threads = (t.name, mode) ∷ w.threads }))
    → (w.os.thread t.name ≡ false → Ends Q (k w))
    → Ends Q (on_status res m k v)
Ends-Spawned Q m k t mode w res v (inl (e, f)) h g =
    subst₂ (λ a b. Ends Q (on_status a m k b)) (sym e) (sym f) h
Ends-Spawned Q m k t mode w res v (inr (e, f, n)) h g =
    subst₂ (λ a b. Ends Q (on_status a m k b)) (sym e) (sym f) (g n)

spawn_tasks-Ran :
    (mode : Mode) (slots : List Slot) (w : World)
    → All IsLive slots
    → Ends (Ran mode slots w) (spawn_tasks mode slots w)
unfolding spawn_tasks add_threads
spawn_tasks-Ran mode [] w l =
    (refl, inl (refl, record { tasks = refl; none_left = tt; made = refl }))
spawn_tasks-Ran mode (freed ∷ slots) w l = absurd l.0
spawn_tasks-Ran mode (live t ∷ slots) w l = elim (Bool-cases (task_is_ready t)) [
  | inr n ↦ rw n (
      Ends-bind _ (Ran mode (live t ∷ slots) w) (spawn_tasks mode slots) _ w
        (spawn_tasks-Ran mode slots w l.1)
        (λ out v r. (r.0, skip-Run mode w.os t slots w.threads (out.0) (out.1) v.threads n r.1)))
  | inl y ↦ rw y (
      Ends-bind _ (Ran mode (live t ∷ slots) w)
        (spawn_func (record t { state = State.starting }) mode) _ w
        (spawn_func-Spawned (record t { state = State.starting }) mode w)
        (λ res v spawned.
          Ends-Spawned (Ran mode (live t ∷ slots) w) _ _ (record t { state = State.starting }) mode
            w res v spawned
            (Ends-bind _ (Ran mode (live t ∷ slots) w) (spawn_tasks mode slots) _
              (record w { threads = (t.name, mode) ∷ w.threads })
              (spawn_tasks-Ran mode slots (record w { threads = (t.name, mode) ∷ w.threads }) l.1)
              (λ out v' r.
                (r.0, start-Run mode w.os t slots w.threads (out.0) (out.1) v'.threads y r.1)))
            (λ n. (
              refl,
              inr (
                refl,
                record {
                  before = [];
                  at = t;
                  behind = slots;
                  split = refl;
                  is_ready = y;
                  refused = n;
                  tasks = refl;
                  made = refl;
                },
              ),
            ))))
]

not-true : {b : Bool} → not b ≡ true → b ≡ false
not-true e = ground (arith, e)

-- `crinitTaskDBSpawnReady` in a quiet state that lets tasks be started: it returns 0, each ready task
-- is starting and got one dispatcher thread, in the order of the array, and no task is ready any more;
-- or it returns -1, since a thread could not be made for a ready task, which is then loaded, and the
-- ready tasks before it, and only those, were started. Nothing else changes.
pub spawn_ready-Runs :
    (mode : Mode) (w : World)
    → IsQuiet w
    → w.db.spawn_inhibit ≡ false
    → w.db.spawn_func ≡ true
    → Ends
        (λ res w'.
          (w' ≡ record w { threads = w'.threads; db = record (w.db) { task_set = w'.db.task_set } })
          × Run mode w.os w.db.task_set w.threads res w'.db.task_set w'.threads)
        (spawn_ready mode w)
unfolding spawn_ready
spawn_ready-Runs mode w q allowed set = Ends-lock_db _ _ w q.lockable q.free (
    Ends-branch _ w.db.spawn_inhibit _ _ (hold_db w) (λ e. absurd (absurd_test e allowed))
      (λ _.
        Ends-branch _ (not w.db.spawn_func) _ _ (hold_db w)
          (λ e. absurd (absurd_test set (not-true e)))
          (λ _.
            Ends-bind (Ran mode w.db.task_set (hold_db w)) _ (spawn_tasks mode w.db.task_set) _
              (hold_db w) (spawn_tasks-Ran mode w.db.task_set (hold_db w) q.live_tasks)
              (λ out v r. (
                (λ i. record (r.0 i) {
                  db = record ((r.0 i).db) { task_set = out.1; locked = sym q.free i };
                }),
                r.1,
              )))))
