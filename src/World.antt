-- ===== src/World.antt =====
-- The state that the threads of crinit share, and the effects of the code on it. A call returns a
-- value with the new state, or waits for a mutex that is never given back, or touches freed memory.
pub mod Laws
use crinit.Base.{
  ℕ, ◌≡◌, refl, Bool, true, false, List, Option, none, some, if◌then◌else◌, Status, ok, err,
}
use crinit.Base.Str.{Str}
use crinit.Base.Int.{ℤ}
use crinit.Task.{Task, Timespec, Mode}
use crinit.Timer.Def.{TimerDef}

-- What the operating system answers during a call.
pub record Os : Type 0 where
  -- `pthread_mutex_lock` reports an error
  pub db_lock_error : Bool
  pub pool_lock_error : Bool
  pub wait_lock_error : Bool
  -- `pthread_cond_broadcast` and `pthread_mutex_unlock` report an error for the inhibition of waiting
  pub wait_broadcast_error : Bool
  pub wait_unlock_error : Bool
  -- `kill` succeeds for a process
  pub kill : ℤ → Bool
  -- the shutdown thread can be made
  pub shutdown_thread : Bool
  -- the n-th allocation of the call succeeds
  pub alloc : ℕ → Bool
  -- `clock_gettime(CLOCK_MONOTONIC)`
  pub clock : Option Timespec
  -- a thread can be made (`pthread_attr_*` and `pthread_create`), as a function of the task's name
  pub thread : Str → Bool
  -- `timerfd_create` and `timerfd_settime` succeed; `write` to the event file succeeds
  pub timer_fd : Bool
  pub event_write : Bool
  -- the global option USE_SYSLOG, `none` if it cannot be read
  pub syslog_option : Option Bool

-- An element of the task array. `freed` is one whose memory `crinitDestroyTask` has freed.
pub data Slot : Type 0 where
  live : Task → Slot
  freed : Slot

-- `crinitTaskDB_t`. The length of the list is `taskSetItems`.
pub record TaskDb : Type 0 where
  pub task_set : List Slot
  pub task_set_size : ℕ
  pub spawn_func : Bool
  pub spawn_inhibit : Bool
  pub locked : Bool
  -- `changed` was broadcast since the main loop last waited for it
  pub changed : Bool

-- `crinitTimer_t`; `next` is the absolute time of `timerfd_settime` in seconds and nanoseconds.
pub record PoolTimer : Type 0 where
  pub def : TimerDef
  pub name : Str
  pub refs : ℕ
  pub next_sec : ℤ
  pub next_nsec : ℕ

-- `crinitTimerDB_t`. The timers are the elements 1 .. size - 1; element 0 is the event file.
pub record TimerDb : Type 0 where
  pub cap : ℕ
  pub timers : List PoolTimer
  pub locked : Bool

-- `RB_POWER_OFF` and `RB_AUTOBOOT`
pub data Shutdown : Type 0 where
  power_off autoboot : Shutdown

-- What crinit does with its child processes
pub record Procs : Type 0 where
  -- `crinitWaitInhibit` and its mutex
  pub wait_inhibit : Bool
  pub wait_locked : Bool
  -- the signals that were sent, the newest first
  pub signals : List (ℤ × ℕ)
  -- the shutdown threads that were made, the newest first
  pub shutdowns : List Shutdown

pub record World : Type 0 where
  pub os : Os
  pub db : TaskDb
  pub pool : TimerDb
  pub procs : Procs
  -- set by `crinitSetUseSyslog`
  pub use_syslog : Bool
  -- the dispatcher threads that were made, the newest first
  pub threads : List (Str × Mode)

pub data Outcome (A : Type 0) : Type 0 where
  ret : A → World → Outcome A
  blocked : Outcome A
  fault : Outcome A

abbrev pub M : Type 0 → Type 0
M A = World → Outcome A

infixl 5 ◌>>=◌ ◌>>◌
abbrev pub ◌>>=◌ : {A B : Type 0} → M A → (A → M B) → M B
◌>>=◌ m f w = elim (m w) [ ret a w' ↦ f a w' | blocked ↦ blocked | fault ↦ fault ]

abbrev pub ◌>>◌ : {A B : Type 0} → M A → M B → M B
m >> k = m >>= λ _. k

abbrev pub return : {A : Type 0} → A → M A
return a w = ret a w

-- `if`, and the tests of a result, between calls
abbrev pub branch : {A : Type 0} → Bool → M A → M A → M A
branch true m k w = m w
branch false m k w = k w

abbrev pub on_status : {A : Type 0} → Status → M A → M A → M A
on_status ok m k w = m w
on_status err m k w = k w

abbrev pub on_option : {A B : Type 0} → Option B → M A → (B → M A) → M A
on_option none m f w = m w
on_option (some b) m f w = f b w

-- The state as it is
abbrev pub here : M World
here w = ret w w

-- `pthread_mutex_lock(&ctx->lock)`: the mutex is not recursive, so a holder that locks again waits
-- for itself.
abbrev pub lock_db : M Status
lock_db w = elim w.os.db_lock_error [
  | true ↦ ret err w
  | false ↦ elim w.db.locked [
    | true ↦ blocked
    | false ↦ ret ok (record w { db = record (w.db) { locked = true } })
  ]
]

abbrev pub unlock_db : M (Unit {0})
unlock_db w = ret tt (record w { db = record (w.db) { locked = false } })

abbrev pub lock_pool : M Status
lock_pool w = elim w.os.pool_lock_error [
  | true ↦ ret err w
  | false ↦ elim w.pool.locked [
    | true ↦ blocked
    | false ↦ ret ok (record w { pool = record (w.pool) { locked = true } })
  ]
]

abbrev pub unlock_pool : M (Unit {0})
unlock_pool w = ret tt (record w { pool = record (w.pool) { locked = false } })

abbrev pub set_slots : List Slot → M (Unit {0})
set_slots slots w = ret tt (record w { db = record (w.db) { task_set = slots } })

-- `pthread_cond_broadcast(&ctx->changed)`
abbrev pub broadcast_db : M (Unit {0})
broadcast_db w = ret tt (record w { db = record (w.db) { changed = true } })

abbrev pub set_timers : List PoolTimer → M (Unit {0})
set_timers timers w = ret tt (record w { pool = record (w.pool) { timers = timers } })
