-- ===== src/TaskDb/Insert/Init.antt =====
-- A new database.
use crinit.Base.{
  ℕ, zero, suc, ◌≡◌, refl, inl, inr, ◌⊎◌, Bool, true, false, ◌&&◌, [], arith, Bool-cases, ltb, ok,
  err,
}
use crinit.EnvSet.{Alloc}
use crinit.World.{TaskDb}
use crinit.TaskDb.Insert.{init_with_size}
use crinit.TaskDb.Insert.Laws.{HasCapacity}

positive_size : (n : ℕ) → ltb (suc n) 1 ≡ false
positive_size n = ground arith

all_three : (a b c : Bool) → (a && b && c) ≡ false → (a ≡ false) ⊎ (b ≡ false) ⊎ (c ≡ false)
all_three false b c h = inl refl
all_three true false c h = inr (inl refl)
all_three true true c h = inr (inr h)

-- When `crinitTaskDBInitWithSize` returns 0, the database is empty and unlocked, it has the capacity
-- that was asked for, which is positive, and it lets tasks be started; when it returns -1, the size
-- was 0, or the array, the mutex or the condition variable could not be made.
pub init_with_size-HasCapacity :
    (alloc : Alloc) (mutex_init cond_init spawn : Bool) (n : ℕ) (db : TaskDb)
    → let (res, db') = init_with_size alloc mutex_init cond_init spawn n db in
      (res ≡ ok)
        × HasCapacity db'
        × (db'.task_set ≡ [])
        × (db'.task_set_size ≡ n)
        × (db'.locked ≡ false)
        × (db'.spawn_inhibit ≡ false)
        × (db'.spawn_func ≡ spawn)
      ⊎ (res ≡ err) × ((n ≡ 0) ⊎ (alloc 0 ≡ false) ⊎ (mutex_init ≡ false) ⊎ (cond_init ≡ false))
unfolding init_with_size
init_with_size-HasCapacity alloc mutex_init cond_init spawn zero db = inr (refl, inl refl)
init_with_size-HasCapacity alloc mutex_init cond_init spawn (suc n) db =
    elim (Bool-cases (alloc 0 && mutex_init && cond_init)) [
      | inl y ↦ rw (positive_size n) (
          rw y (
            inl (
              refl,
              record { fits = omega arith; positive = omega arith },
              refl,
              refl,
              refl,
              refl,
              refl,
            )))
      | inr n0 ↦
          rw (positive_size n)
            (rw n0 (inr (refl, inr (all_three (alloc 0) mutex_init cond_init n0))))
    ]
