-- ===== src/Task.antt =====
-- inc/task.h and inc/crinit-sdefs.h.in: what a task is. An array with its size is a list, a string
-- that may be NULL is an option, and the flags of a state are the bits of a number.
pub mod State
pub mod Copy
use crinit.Base.{ℕ, ◌+◌, ◌-◌, ◌*◌, ◌/◌, ◌%◌, ◌^◌, ◌≡◌, Bool, ◌&&◌, ◌||◌, List, Option, ◌==◌}
use crinit.Base.Str.{Str, str_eq, codes}
use crinit.Base.Int.{ℤ}
use crinit.EnvSet.{EnvSet}

-- `crinitTaskDep_t`. The event is right behind the name, in the piece of memory that the name begins.
pub record Dep : Type 0 where
  pub name : Str
  pub event : Str

-- `crinitTaskPrv_t`
pub record Prv : Type 0 where
  pub name : Str
  pub state_req : ℕ

-- `struct timespec` of the monotonic clock
pub record Timespec : Type 0 where
  pub sec : ℕ
  pub nsec : ℕ

-- `crinitTaskCmd_t`; `argc` is the length of `argv`.
pub record TaskCmd : Type 0 where
  pub argv : List Str

-- `crinitIoRedir_t`
pub record IoRedir : Type 0 where
  pub new_fd : ℤ
  pub old_fd : ℤ
  pub path : Option Str
  pub oflags : ℕ
  pub mode : ℕ
  pub fifo : Bool

-- `crinitTask_t`, without the fields of the cgroup and capability options
pub record Task : Type 0 where
  pub name : Str
  pub cmds : List TaskCmd
  pub stop_cmds : List TaskCmd
  pub task_env : EnvSet
  pub elos_filters : EnvSet
  pub deps : List Dep
  pub trig : List Dep
  pub triggered : Bool
  pub prv : List Prv
  pub opts : ℕ
  pub state : ℕ
  pub pid : ℤ
  pub redirs : List IoRedir
  pub max_retries : ℤ
  pub fail_count : ℕ
  pub inhibit_respawn : Bool
  pub create_time : Timespec
  pub start_time : Timespec
  pub end_time : Timespec
  pub user : ℕ
  pub group : ℕ
  pub sup_groups : List ℕ
  pub username : Option Str
  pub groupname : Option Str

-- `crinitDispatchThreadMode_t`
pub data Mode : Type 0 where
  start stop : Mode

-- Whether bit `k` of `x` is set: `x & (1 << k)`.
abbrev pub has_bit : ℕ → ℕ → Bool
has_bit x k = x / 2 ^ k % 2 == 1

-- `x & ~(1 << k)`
abbrev pub clear_bit : ℕ → ℕ → ℕ
clear_bit x k = x - x / 2 ^ k % 2 * 2 ^ k

-- `t->opts & CRINIT_TASK_OPT_RESPAWN`, `t->opts & CRINIT_TASK_OPT_TRIGGER_REARM`
abbrev pub respawns : Task → Bool
respawns t = has_bit t.opts 0

abbrev pub rearms : Task → Bool
rearms t = has_bit t.opts 1

-- The names and events of a dependency are both compared by `strcmp`.
unfoldable pub dep_eq : Dep → Dep → Bool
dep_eq a b = str_eq a.name b.name && str_eq a.event b.event

abbrev pub timer_dep_name : Str
timer_dep_name = codes "@timer"

abbrev pub provide_dep_name : Str
provide_dep_name = codes "@provided"

-- `CRINIT_TASK_EVENT_*`
abbrev pub event_running : Str
event_running = codes "spawn"

abbrev pub event_done : Str
event_done = codes "wait"

abbrev pub event_failed : Str
event_failed = codes "fail"
