-- ===== src/TaskDb/Deps/Removal.antt =====
-- What `crinitTaskDBRemoveDepFromTaskStruct` leaves of the dependencies of a task.
use crinit.Base.{
  ℕ, zero, suc, ◌≤◌, ◌≡◌, ◌↔◌, refl, sym, ap, subst, inl, inr, true, false, not, ◌&&◌, ◌||◌, List,
  [], ◌∷◌, ◌++◌, if◌then◌else◌, length, last_of, init_of, arith, Bool-cases,
}
use crinit.Base.Str.{str_eq, str_eq_iff}
use crinit.Task.{Dep, Task, dep_eq, timer_dep_name}
use crinit.World.{World, ret, blocked}
use crinit.World.Laws.{
  Ends, Ends-bind, Ends-weaken, SameButPool, SameButPool-refl, SameButPool-trans,
}
use crinit.TimerDb.Laws.{IsWellFormed}
use crinit.TimerDb.Run.{remove_timer-refs_of, remove_timer-blocked}
use crinit.TaskDb.Deps.{give_back, remove_deps, has_dep, remove_dep}

pub dep_eq_iff : (a b : Dep) → (dep_eq a b ≡ true) ↔ (a ≡ b)
unfolding dep_eq
dep_eq_iff a b = (
  λ h. ground (arith, str_eq_iff a.name b.name, str_eq_iff a.event b.event),
  λ h. ground (arith, str_eq_iff a.name b.name, str_eq_iff a.event b.event),
)

-- No dependency stands twice in the list.
abbrev pub IsDistinct : List Dep → Type 0
IsDistinct [] = Unit {0}
IsDistinct (x ∷ deps) = (has_dep x deps ≡ false) × IsDistinct deps

-- The list that the loop leaves
unfoldable pub swap_remove : ℕ → Dep → List Dep → List Dep
swap_remove zero dep deps = deps
swap_remove (suc n) dep [] = []
swap_remove (suc n) dep (x ∷ []) = if dep_eq x dep then [] else x ∷ []
swap_remove (suc n) dep (x ∷ y ∷ deps) =
    if dep_eq x dep
    then last_of y deps ∷ swap_remove n dep (init_of y deps)
    else x ∷ swap_remove n dep (y ∷ deps)

-- A state in which the removal of a timer returns
pub record IsOpen (w : World) : Type 0 where
  pub lockable : w.os.pool_lock_error ≡ false
  pub pool : IsWellFormed w.pool

-- What a removal may change
abbrev pub Gives : {A : Type 0} → World → A → A → World → Type 0
Gives w b a w' = (a ≡ b) × SameButPool w w' × IsOpen w'

give_back-Ends : (dep : Dep) (w : World) → IsOpen w → Ends (Gives w tt) (give_back dep w)
unfolding give_back
give_back-Ends dep w o = elim (Bool-cases (str_eq dep.name timer_dep_name)) [
  | inr d ↦ rw d (refl, SameButPool-refl w, o)
  | inl e ↦
      let (timers, r, wf, s, t) = remove_timer-refs_of dep.event w o.lockable o.pool in
      rw (e, r)
        (
          refl,
          (record { os = refl; db = refl; procs = refl; use_syslog = refl; threads = refl }),
          record { lockable = o.lockable; pool = wf },
        )
]

remove_deps-Ends :
    (n : ℕ) (dep : Dep) (deps : List Dep) (w : World)
    → IsOpen w
    → Ends (Gives w (swap_remove n dep deps)) (remove_deps n dep deps w)
unfolding remove_deps swap_remove
remove_deps-Ends zero dep deps w o = (refl, SameButPool-refl w, o)
remove_deps-Ends (suc n) dep [] w o = (refl, SameButPool-refl w, o)
remove_deps-Ends (suc n) dep (x ∷ []) w o = elim (Bool-cases (dep_eq x dep)) [
  | inr d ↦ rw d (refl, SameButPool-refl w, o)
  | inl e ↦ rw e (
      Ends-bind (Gives w tt) _ (give_back dep) _ w (give_back-Ends dep w o)
        (λ a w' g. (refl, g.1, g.2)))
]
remove_deps-Ends (suc n) dep (x ∷ y ∷ deps) w o = elim (Bool-cases (dep_eq x dep)) [
  | inr d ↦ rw d (
      Ends-bind _ _ (remove_deps n dep (y ∷ deps)) _ w (remove_deps-Ends n dep (y ∷ deps) w o)
        (λ a w' g. (ap (λ l. x ∷ l) g.0, g.1, g.2)))
  | inl e ↦ rw e (
      Ends-bind (Gives w tt) _ (give_back dep) _ w (give_back-Ends dep w o) (λ a w' g.
        Ends-bind _ _ (remove_deps n dep (init_of y deps)) _ w'
          (remove_deps-Ends n dep (init_of y deps) w' g.2)
          (λ b v h. (ap (λ l. last_of y deps ∷ l) h.0, SameButPool-trans g.1 h.1, h.2))))
]

has_dep-rotate :
    (j y : Dep) (l : List Dep) → has_dep j (last_of y l ∷ init_of y l) ≡ has_dep j (y ∷ l)
unfolding has_dep
has_dep-rotate j y [] = refl
has_dep-rotate j y (z ∷ l) = ground (arith, has_dep-rotate j z l)

has_dep-last_of : (y : Dep) (l : List Dep) → has_dep (last_of y l) (y ∷ l) ≡ true
unfolding has_dep
has_dep-last_of y [] = ground (arith, dep_eq_iff y y)
has_dep-last_of y (z ∷ l) = ground (arith, has_dep-last_of z l)

has_dep-init_of :
    (j y : Dep) (l : List Dep) → has_dep j (y ∷ l) ≡ false → has_dep j (init_of y l) ≡ false
unfolding has_dep
has_dep-init_of j y [] h = refl
has_dep-init_of j y (z ∷ l) h = ground (arith, has_dep-init_of j z l)

IsDistinct-rotate :
    (y : Dep) (l : List Dep) → IsDistinct (y ∷ l) → IsDistinct (last_of y l ∷ init_of y l)
unfolding has_dep
IsDistinct-rotate y [] h = h
IsDistinct-rotate y (z ∷ l) h =
    let r = IsDistinct-rotate z l h.1 in
    (
      ground (arith, has_dep-last_of z l, dep_eq_iff y (last_of z l), r.0, h.0),
      (has_dep-init_of y z l h.0, r.1),
    )

swap_remove-absent :
    (n : ℕ) (dep : Dep) (deps : List Dep) → has_dep dep deps ≡ false → swap_remove n dep deps ≡ deps
unfolding swap_remove has_dep
swap_remove-absent zero dep deps h = refl
swap_remove-absent (suc n) dep [] h = refl
swap_remove-absent (suc n) dep (x ∷ []) h = ground arith
swap_remove-absent (suc n) dep (x ∷ y ∷ deps) h =
    ground (arith, swap_remove-absent n dep (y ∷ deps))

-- From a list without duplicates exactly the dependency is gone.
abbrev pub Removed : Dep → List Dep → List Dep → Type 0
Removed dep before after =
    IsDistinct after × ((j : Dep) → has_dep j after ≡ (has_dep j before && not (dep_eq dep j)))

Removed-here :
    (x dep : Dep) (before after : List Dep)
    → dep_eq x dep ≡ true
    → has_dep x before ≡ false
    → IsDistinct after
    → ((j : Dep) → has_dep j after ≡ has_dep j before)
    → Removed dep (x ∷ before) after
unfolding has_dep
Removed-here x dep before after e absent d same =
    (d, λ j. ground (arith, same j, dep_eq_iff x dep, dep_eq_iff dep j, dep_eq_iff x j, absent))

Removed-behind :
    (x dep : Dep) (before after : List Dep)
    → dep_eq x dep ≡ false
    → has_dep x before ≡ false
    → Removed dep before after
    → Removed dep (x ∷ before) (x ∷ after)
unfolding has_dep
Removed-behind x dep before after d absent r = (
  (ground (arith, r.1 x), r.0),
  λ j. ground (arith, r.1 j, dep_eq_iff x dep, dep_eq_iff dep j, dep_eq_iff x j),
)

pub swap_remove-Removed :
    (n : ℕ) (dep : Dep) (deps : List Dep)
    → length deps ≤ n
    → IsDistinct deps
    → Removed dep deps (swap_remove n dep deps)
unfolding swap_remove
swap_remove-Removed zero dep [] le h = (tt, λ j. unfold has_dep in refl)
swap_remove-Removed zero dep (x ∷ deps) le h = absurd (omega arith)
swap_remove-Removed (suc n) dep [] le h = (tt, λ j. unfold has_dep in refl)
swap_remove-Removed (suc n) dep (x ∷ []) le h = elim (Bool-cases (dep_eq x dep)) [
  | inl e ↦ rw e (Removed-here x dep [] [] e h.0 tt (λ j. refl))
  | inr d ↦ rw d (Removed-behind x dep [] [] d h.0 (tt, λ j. unfold has_dep in refl))
]
swap_remove-Removed (suc n) dep (x ∷ y ∷ deps) le h = elim (Bool-cases (dep_eq x dep)) [
  | inl e ↦
      let absent : has_dep dep (y ∷ deps) ≡ false =
        subst (λ k. has_dep k (y ∷ deps) ≡ false) ((dep_eq_iff x dep).0 e) h.0 in
      rw (e, swap_remove-absent n dep (init_of y deps) (has_dep-init_of dep y deps absent))
        (Removed-here x dep (y ∷ deps) _ e h.0 (IsDistinct-rotate y deps h.1)
          (λ j. has_dep-rotate j y deps))
  | inr d ↦ rw d (
      Removed-behind x dep (y ∷ deps) _ d h.0
        (swap_remove-Removed n dep (y ∷ deps) (omega arith) h.1))
]

-- The task that is left
abbrev pub cleared : Dep → Task → Task
cleared dep t = record t {
  deps = swap_remove (length t.deps) dep t.deps;
  triggered = t.triggered || has_dep dep t.trig;
}

pub remove_dep-Ends :
    (dep : Dep) (t : Task) (w : World)
    → IsOpen w
    → Ends (Gives w (cleared dep t)) (remove_dep dep t w)
unfolding remove_dep
remove_dep-Ends dep t w o =
    Ends-bind _ _ (remove_deps (length t.deps) dep t.deps) _ w
      (remove_deps-Ends (length t.deps) dep t.deps w o)
      (λ a w' g. (
        ap (λ l. record t { deps = l; triggered = t.triggered || has_dep dep t.trig }) g.0,
        g.1,
        g.2,
      ))

-- What `crinitTaskDBRemoveDepFromTaskStruct` does to a task without duplicate dependencies
pub record IsFulfilled (dep : Dep) (before after : Task) : Type 0 where
  pub distinct : IsDistinct after.deps
  pub deps : (j : Dep) → has_dep j after.deps ≡ (has_dep j before.deps && not (dep_eq dep j))
  pub triggered : after.triggered ≡ (before.triggered || has_dep dep before.trig)
  pub rest : after ≡ record before { deps = after.deps; triggered = after.triggered }

pub cleared-IsFulfilled :
    (dep : Dep) (t : Task) → IsDistinct t.deps → IsFulfilled dep t (cleared dep t)
cleared-IsFulfilled dep t d =
    let r = swap_remove-Removed (length t.deps) dep t.deps (omega arith) d in
    record { distinct = r.0; deps = r.1; triggered = refl; rest = refl }

-- `crinitTaskDBRemoveDepFromTaskStruct` returns, if the pool of timers is free and well formed. If
-- the task has no dependency twice, then afterwards it has exactly the others, it is triggered if it
-- was or if the dependency is one of its triggers, and nothing else but the pool has changed.
pub remove_dep-IsFulfilled :
    (dep : Dep) (t : Task) (w : World)
    → IsOpen w
    → IsDistinct t.deps
    → Ends (λ t' w'. IsFulfilled dep t t' × SameButPool w w' × IsOpen w') (remove_dep dep t w)
remove_dep-IsFulfilled dep t w o d =
    Ends-weaken (Gives w (cleared dep t)) _ (remove_dep dep t w) (remove_dep-Ends dep t w o)
      (λ t' w' g. (subst (IsFulfilled dep t) (sym g.0) (cleared-IsFulfilled dep t d), g.1, g.2))

last_of-append : (z d : Dep) (zs : List Dep) → last_of z (zs ++ d ∷ []) ≡ d
last_of-append z d [] = refl
last_of-append z d (y ∷ zs) = last_of-append y d zs

swap_remove_twice :
    (n : ℕ) (dep : Dep) (deps : List Dep)
    → has_dep dep (swap_remove (suc n) dep (dep ∷ deps ++ dep ∷ [])) ≡ true
unfolding swap_remove has_dep
swap_remove_twice n dep [] = ground (arith, dep_eq_iff dep dep)
swap_remove_twice n dep (z ∷ zs) = ground (arith, dep_eq_iff dep dep, last_of-append z dep zs)

-- If the pool of timers is free and well formed, and the first and the last dependency of a task are
-- the same, the task still has that dependency after `crinitTaskDBRemoveDepFromTaskStruct` for it.
pub remove_dep_twice :
    (dep : Dep) (deps : List Dep) (t : Task) (w : World)
    → IsOpen w
    → t.deps ≡ dep ∷ deps ++ dep ∷ []
    → Ends (λ t' w'. has_dep dep t'.deps ≡ true) (remove_dep dep t w)
remove_dep_twice dep deps t w o e =
    Ends-weaken (Gives w (cleared dep t)) _ (remove_dep dep t w) (remove_dep-Ends dep t w o)
      (λ t' w' g.
        subst (λ (u : Task). has_dep dep u.deps ≡ true) (sym g.0)
          (subst (λ l. has_dep dep (swap_remove (length l) dep l) ≡ true) (sym e)
            (swap_remove_twice (length (deps ++ dep ∷ [])) dep deps)))

-- A thread that holds the mutex of the pool of timers
module _ (dep : Dep) (timer : str_eq dep.name timer_dep_name ≡ true) (w : World)
    (lockable : w.os.pool_lock_error ≡ false) (held : w.pool.locked ≡ true) where
  give_back-blocked : give_back dep w ≡ blocked
  unfolding give_back
  give_back-blocked = rw (timer, remove_timer-blocked dep.event w lockable held)

  remove_deps-blocked :
      (n : ℕ) (deps : List Dep)
      → length deps ≤ n
      → has_dep dep deps ≡ true
      → remove_deps n dep deps w ≡ blocked
  unfolding remove_deps has_dep
  remove_deps-blocked zero [] le h = cc
  remove_deps-blocked zero (x ∷ deps) le h = absurd (omega arith)
  remove_deps-blocked (suc n) [] le h = cc
  remove_deps-blocked (suc n) (x ∷ []) le h = ground (arith, give_back-blocked)
  remove_deps-blocked (suc n) (x ∷ y ∷ deps) le h =
      ground (arith, give_back-blocked, remove_deps-blocked n (y ∷ deps))

  pub remove_dep-blocked : (t : Task) → has_dep dep t.deps ≡ true → remove_dep dep t w ≡ blocked
  unfolding remove_dep
  remove_dep-blocked t h =
      ground (arith, remove_deps-blocked (length t.deps) t.deps (omega arith) h)

  -- Without the dependency the task is changed without the pool.
  remove_deps-absent :
      (n : ℕ) (deps : List Dep) → has_dep dep deps ≡ false → remove_deps n dep deps w ≡ ret deps w
  unfolding remove_deps has_dep
  remove_deps-absent zero deps h = refl
  remove_deps-absent (suc n) [] h = refl
  remove_deps-absent (suc n) (x ∷ []) h = ground arith
  remove_deps-absent (suc n) (x ∷ y ∷ deps) h = ground (arith, remove_deps-absent n (y ∷ deps))

  pub remove_dep-absent :
      (t : Task)
      → has_dep dep t.deps ≡ false
      → remove_dep dep t w
        ≡ ret (record t { deps = t.deps; triggered = t.triggered || has_dep dep t.trig }) w
  unfolding remove_dep
  remove_dep-absent t h = ground (arith, remove_deps-absent (length t.deps) t.deps h)
