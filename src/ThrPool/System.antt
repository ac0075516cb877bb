-- ===== src/ThrPool/System.antt =====
-- The pool with its threads: the workers call back when they are busy and when they are available
-- again, as `crinitConnThread` of src/notiserv.c does in a round that it does not give up, and the watchdog
-- waits for a signal. The rounds that are given up, without the second call, are in Server.Workers.
use crinit.Base.{ℕ, ◌+◌, ◌-◌, ◌<◌, ◌^◌, ◌≡◌, Bool, true, false, if◌then◌else◌, Status}
use crinit.ThrPool.{ThreadPool, Answers, word, is_dry, busy_callback, avail_callback, grow}

-- Where the watchdog stands: it waits for the signal, or has got it, or has found the pool dry and
-- will make it larger.
pub data Watchdog : Type 0 where
  waiting : Watchdog
  signalled : Watchdog
  growing : (new_size : ℕ) → Watchdog

-- `busy` is the number of workers between the two calls.
pub record System : Type 0 where
  pub pool : ThreadPool
  pub busy : ℕ
  pub watchdog : Watchdog

-- A signal is lost unless the watchdog waits for it.
abbrev pub signal : Bool → Watchdog → Watchdog
signal true waiting = signalled
signal true signalled = signalled
signal true (growing n) = growing n
signal false d = d

-- A worker has accepted a connection.
abbrev pub start_work : System → System
start_work s =
    let r : Status × ThreadPool × Bool = busy_callback true s.pool in
    record { pool = r.1; busy = s.busy + 1; watchdog = signal (r.2) s.watchdog }

-- A worker has served it.
abbrev pub finish_work : System → System
finish_work s = record s { pool = (avail_callback true s.pool).1; busy = s.busy - 1 }

-- The body of the loop of `crinitDryPoolWatchdog` up to the call of `crinitThreadPoolGrow`
unfoldable pub watch : System → System
watch s = record s {
  watchdog =
      if is_dry s.pool
      then growing (word (s.pool.pool_size + s.pool.pool_size_increment))
      else waiting;
}

-- The call
unfoldable pub enlarge : Answers → ℕ → System → System
enlarge os new_size s = record s { pool = (grow os new_size s.pool).1; watchdog = waiting }

-- One step of one thread. A thread that cannot be made does not count: there are less than 2 ^ 64.
pub data Step (s t : System) : Type 0 where
  work : s.busy < s.pool.pool_size → t ≡ start_work s → Step s t
  rest : 0 < s.busy → t ≡ finish_work s → Step s t
  wake : s.watchdog ≡ signalled → t ≡ watch s → Step s t
  enlarged :
      (os : Answers) (new_size : ℕ)
      → s.watchdog ≡ growing new_size
      → ((i : ℕ) → os.create i ≡ true → i + 1 < 2 ^ 64)
      → t ≡ enlarge os new_size s
      → Step s t

pub data Reach (s : System) : System → Type 0 where
  here : Reach s s
  next : {t u : System} → Reach s t → Step t u → Reach s u
