-- ===== src/Examples.antt =====
-- Concrete states for the tests: of the tasks `first` is ready, and `second` waits for it.
use crinit.Base.{refl, true, false, [], ◌∷◌, none, some, arith}
use crinit.Base.Str.{codes}
use crinit.Base.Int.{ℤ, pos, negsuc}
use crinit.EnvSet.{EnvSet}
use crinit.EnvSet.Laws.{IsWellFormed}
use crinit.Task.{Task, Dep, Timespec}
use crinit.Task.Copy.Laws.{HasArgument}
use crinit.Task.State
use crinit.Timer.Def.{TimerDef}
use crinit.Timer.Check.{Tm}
use crinit.World.{World, Os, live}
use crinit.TaskDb.Deps.Removal.{IsOpen}
use crinit.TaskDb.Deps.Fulfil.{IsQuiet}
use crinit.TaskDb.Insert.Laws.{HasCapacity}

abbrev pub no_time : Timespec
no_time = record { sec = 0; nsec = 0 }

abbrev pub empty_env : EnvSet
empty_env = record { envp = some (none ∷ []); alloc_sz = 1; alloc_inc = 4 }

abbrev pub first_done : Dep
first_done = record { name = codes "first"; event = codes "wait" }

-- It has the option RESPAWN with MAX_RETRIES of 2, and provides a feature when it runs.
abbrev pub first : Task
first = record {
  name = codes "first";
  cmds = record { argv = codes "/bin/true" ∷ [] } ∷ [];
  stop_cmds = [];
  task_env = empty_env;
  elos_filters = empty_env;
  deps = [];
  trig = [];
  triggered = true;
  prv = record { name = codes "net"; state_req = State.running } ∷ [];
  opts = 1;
  state = State.loaded;
  pid = negsuc 0;
  redirs = [];
  max_retries = pos 2;
  fail_count = 0;
  inhibit_respawn = false;
  create_time = no_time;
  start_time = no_time;
  end_time = no_time;
  user = 0;
  group = 0;
  sup_groups = [];
  username = none;
  groupname = none;
}

abbrev pub second : Task
second = record first { name = codes "second"; deps = first_done ∷ []; prv = [] }

abbrev pub third : Task
third = record second { name = codes "third" }

abbrev pub quiet_os : Os
quiet_os = record {
  db_lock_error = false;
  pool_lock_error = false;
  wait_lock_error = false;
  wait_broadcast_error = false;
  wait_unlock_error = false;
  kill = λ pid. true;
  shutdown_thread = true;
  alloc = λ i. true;
  clock = none;
  thread = λ name. true;
  timer_fd = true;
  event_write = true;
  syslog_option = some true;
}

abbrev pub two_tasks : World
two_tasks = record {
  os = quiet_os;
  db = record {
    task_set = live first ∷ live second ∷ [];
    task_set_size = 2;
    spawn_func = true;
    spawn_inhibit = false;
    locked = false;
    changed = false;
  };
  pool = record { cap = 2; timers = []; locked = false };
  procs = record { wait_inhibit = false; wait_locked = false; signals = []; shutdowns = [] };
  use_syslog = false;
  threads = [];
}

pub two_tasks-IsOpen : IsOpen two_tasks
two_tasks-IsOpen = record {
  lockable = refl;
  pool = record { free = refl; counted = tt; fits = omega arith };
}

pub two_tasks-IsQuiet : IsQuiet two_tasks
two_tasks-IsQuiet = record {
  lockable = refl;
  free = refl;
  open_pool = two_tasks-IsOpen;
  live_tasks = (tt, (tt, tt));
}

pub two_tasks-HasCapacity : HasCapacity two_tasks.db
two_tasks-HasCapacity = record { fits = omega arith; positive = omega arith }

pub empty_env-IsWellFormed : IsWellFormed empty_env
empty_env-IsWellFormed = record { slots = none ∷ []; held = refl; sized = refl; padded = tt }

pub has_argument : HasArgument (record { argv = codes "/bin/true" ∷ [] })
has_argument = λ e. cc

-- A timer of every day
abbrev pub daily : TimerDef
daily = record {
  week_days = 127;
  years = record { first = 0; last = 65535 };
  month = record { first = 1; last = 12 };
  days = record { first = 1; last = 31 };
  hours = record { first = 3; last = 3 };
  minutes = record { first = 30; last = 30 };
  seconds = record { first = 0; last = 0 };
  zone_hours = pos 0;
  zone_minutes = pos 0;
}

abbrev pub clock : ℤ → Tm
clock sec = record { sec = 0; min = 30; hour = 3; mday = 10; mon = 3; year = 124; wday = 3 }
