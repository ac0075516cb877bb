-- ===== src/TimerDb/Tests.antt =====
-- The pool of timers on a concrete state.
use crinit.Base.{◌-◌, ◌≡◌, ◌≢◌, refl, true, false, List, [], ◌∷◌, none, some, arith}
use crinit.Base.Str.{Str, codes, str_eq}
use crinit.Base.Int.{pos}
use crinit.Timer.Def.{TimerDef}
use crinit.Task.{Task, dep_eq, timer_dep_name}
use crinit.World.{World, Os, PoolTimer, ret, live, blocked}
use crinit.TaskDb.Deps.{has_dep}
use crinit.TaskDb.Deps.Fulfil.{IsQuiet, has_waiter}
use crinit.TimerDb.Thread.{run_pool, run_pool-blocked}
use crinit.Examples.{daily, clock, second, two_tasks}
use crinit.TimerDb.{remove_timer}
use crinit.TimerDb.Laws.{IsWellFormed, refs_of}
use crinit.TimerDb.Run.{with_timers, Insertion, remove_timer-refs_of, add_timer-refs_of}

abbrev parse_daily : Str → TimerDef
parse_daily name = daily

abbrev working : Os
working = record {
  db_lock_error = false;
  pool_lock_error = false;
  wait_lock_error = false;
  wait_broadcast_error = false;
  wait_unlock_error = false;
  kill = λ pid. true;
  shutdown_thread = true;
  alloc = λ i. true;
  clock = none;
  thread = λ name. true;
  timer_fd = true;
  event_write = true;
  syslog_option = some false;
}

abbrev shared_timer : PoolTimer
shared_timer = record {
  def = daily;
  name = codes "03:30";
  refs = 2;
  next_sec = pos 0;
  next_nsec = 0;
}

abbrev one_timer : World
one_timer = record {
  os = working;
  db = record {
    task_set = [];
    task_set_size = 1;
    spawn_func = true;
    spawn_inhibit = false;
    locked = false;
    changed = false;
  };
  pool = record { cap = 3; timers = shared_timer ∷ []; locked = false };
  procs = record { wait_inhibit = false; wait_locked = false; signals = []; shutdowns = [] };
  use_syslog = false;
  threads = [];
}

one_timer-IsWellFormed : IsWellFormed one_timer.pool
one_timer-IsWellFormed = record { free = refl; counted = (omega arith, tt, tt); fits = omega arith }

remove_timer-refs_of_example :
    (timers : List PoolTimer) × (remove_timer (codes "03:30") one_timer
      ≡ ret tt (with_timers one_timer timers))
    × IsWellFormed (with_timers one_timer timers).pool
    × (refs_of (codes "03:30") timers ≡ refs_of (codes "03:30") (shared_timer ∷ []) - 1)
    × ((j : Str) → j ≢ codes "03:30" → refs_of j timers ≡ refs_of j (shared_timer ∷ []))
remove_timer-refs_of_example =
    remove_timer-refs_of (codes "03:30") one_timer refl one_timer-IsWellFormed

add_timer-refs_of_example :
    (timers : List PoolTimer) × Insertion parse_daily clock
      (pos 5)
      0
      (λ name. true)
      (codes "04:00")
      one_timer
      timers
add_timer-refs_of_example =
    add_timer-refs_of parse_daily clock (pos 5) 0 (λ name. true) (codes "04:00") one_timer refl
      one_timer-IsWellFormed refl

-- A task depends on the timer of the pool.
abbrev waits_for_timer : Task
waits_for_timer = record second {
  deps = record { name = timer_dep_name; event = codes "03:30" } ∷ [];
}

abbrev timer_expires : World
timer_expires = record two_tasks {
  db = record (two_tasks.db) { task_set = live waits_for_timer ∷ [] };
  pool = record { cap = 3; timers = shared_timer ∷ []; locked = false };
}

timer_expires-IsQuiet : IsQuiet timer_expires
timer_expires-IsQuiet = record {
  lockable = refl;
  free = refl;
  open_pool = record { lockable = refl; pool = one_timer-IsWellFormed };
  live_tasks = (tt, tt);
}

run_pool-blocked_example :
    run_pool clock (record { works = true; update = false; expired = λ i. true }) timer_expires
    ≡ blocked
unfolding has_waiter has_dep dep_eq str_eq
run_pool-blocked_example =
    run_pool-blocked clock (record { works = true; update = false; expired = λ i. true }) 0
      shared_timer timer_expires timer_expires-IsQuiet refl refl refl
      (λ j le. absurd (omega (arith, le))) refl refl
