-- ===== src/TimerDb/Init.antt =====
-- `crinitTimerDBInit` of src/timerdb.c.
use crinit.Base.{
  ℕ, ◌≡◌, refl, inl, inr, ◌⊎◌, Bool, false, ◌&&◌, [], if◌then◌else◌, arith, Bool-cases, Status, ok,
  err,
}
use crinit.EnvSet.{Alloc}
use crinit.World.{TimerDb}
use crinit.TimerDb.Laws.{IsWellFormed}

-- `TIMER_DB_INITIAL_CAP`
abbrev pub timer_db_initial_cap : ℕ
timer_db_initial_cap = 256

-- `crinitTimerDBInit`. `eventfd` and `mutex_init` say whether the objects can be made.
unfoldable pub init_pool : Alloc → Bool → Bool → Status × TimerDb
init_pool alloc eventfd mutex_init =
    if alloc 0 && alloc 1 && eventfd && mutex_init
    then (ok, record { cap = timer_db_initial_cap; timers = []; locked = false })
    else (err, record { cap = 0; timers = []; locked = false })

-- When `crinitTimerDBInit` returns 0, the pool is well formed and holds no timer; when it returns -1,
-- the pool has the capacity 0.
pub init_pool-IsWellFormed :
    (alloc : Alloc) (eventfd mutex_init : Bool)
    → let (res, pool) = init_pool alloc eventfd mutex_init in
      (res ≡ ok) × IsWellFormed pool × (pool.timers ≡ []) ⊎ (res ≡ err) × (pool.cap ≡ 0)
unfolding init_pool
init_pool-IsWellFormed alloc eventfd mutex_init =
    elim (Bool-cases (alloc 0 && alloc 1 && eventfd && mutex_init)) [
      | inl y ↦ rw y (inl (refl, record { free = refl; counted = tt; fits = omega arith }, refl))
      | inr n ↦ rw n (inr (refl, refl))
    ]
