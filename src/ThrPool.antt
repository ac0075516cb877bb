-- ===== src/ThrPool.antt =====
-- src/thrpool.c: the pool of worker threads and the watchdog that makes it larger.
pub mod System
pub mod Growth
pub mod Laws
mod Tests
use crinit.Base.{
  ℕ, zero, suc, ◌+◌, ◌-◌, ◌/◌, ◌%◌, ◌^◌, ◌≡◌, Bool, true, false, not, ◌&&◌, leb, ◌==◌,
  if◌then◌else◌, Status, ok, err,
}

-- `crinitThreadPool_t`. `has_args` says that `thrArgs` is not NULL.
pub record ThreadPool : Type 0 where
  pub pool_size : ℕ
  pub pool_size_increment : ℕ
  pub thread_avail : ℕ
  pub has_args : Bool
  pub thr_args_size : ℕ

-- What the operating system answers during a call; `create` is about the n-th worker thread.
pub record Answers : Type 0 where
  pub mutex_init : Bool
  pub mutex_lock : Bool
  pub alloc : Bool
  pub attributes : Bool
  pub create_watchdog : Bool
  pub create : ℕ → Bool

-- A `size_t`
abbrev pub word : ℕ → ℕ
word n = n % 2 ^ 64

-- `crinitDryPoolThreshold`
abbrev pub dry_pool_threshold : ℕ → ℕ
dry_pool_threshold pool_size = pool_size / 10

-- The test for a dry pool
unfoldable pub is_dry : ThreadPool → Bool
is_dry p = leb p.thread_avail (dry_pool_threshold p.pool_size)

-- `crinitThreadPoolThreadBusyCallback`: the result, the pool, and whether the watchdog is signalled.
-- The count of a `size_t` goes below 0 to its greatest value.
unfoldable pub busy_callback : Bool → ThreadPool → Status × ThreadPool × Bool
unfolding is_dry
busy_callback lock p =
    let p' : ThreadPool = record p { thread_avail = word (p.thread_avail + (2 ^ 64 - 1)) } in
    if lock then (ok, p', is_dry p') else (err, p, false)

-- `crinitThreadPoolThreadAvailCallback`
unfoldable pub avail_callback : Bool → ThreadPool → Status × ThreadPool
avail_callback lock p =
    if lock then (ok, record p { thread_avail = word (p.thread_avail + 1) }) else (err, p)

-- The loop of `crinitThreadPoolGrow`, by the number of threads that are left to be made
pub grow_loop : (ℕ → Bool) → ℕ → ℕ → ThreadPool → Status × ThreadPool
grow_loop create zero i p = (ok, p)
grow_loop create (suc n) i p =
    let rest =
      grow_loop create n (suc i) (record p {
        pool_size = word (p.pool_size + 1);
        thread_avail = word (p.thread_avail + 1);
      }) in
    if create i then rest else (err, p)

-- `crinitThreadPoolGrow`
unfoldable pub grow : Answers → ℕ → ThreadPool → Status × ThreadPool
unfolding grow_loop
grow os new_size p =
    if os.mutex_lock && not (leb new_size p.pool_size) && os.attributes
    then grow_loop os.create (new_size - p.pool_size) p.pool_size p
    else (err, p)

-- `CRINIT_THREADPOOL_DEFAULT_INITIAL_SIZE`
abbrev pub default_initial_size : ℕ
default_initial_size = 8

abbrev pub or_default : ℕ → ℕ
or_default zero = default_initial_size
or_default (suc n) = suc n

abbrev pub free_args : ThreadPool → ThreadPool
free_args p = record p { has_args = false; thr_args_size = 0 }

-- The test of the last call of `crinitThreadPoolInit`
abbrev pub keep_or_free : Status × ThreadPool → Status × ThreadPool
keep_or_free (ok, p) = (ok, p)
keep_or_free (err, p) = (err, free_args p)

-- `crinitThreadPoolInit`. The workers are made by `crinitThreadPoolGrow` after the watchdog.
unfoldable pub init : Answers → ℕ → ℕ → ThreadPool → Status × ThreadPool
unfolding grow
init os initial_size thr_args_size p =
    let blank : ThreadPool = record p {
      pool_size = 0;
      thread_avail = 0;
      has_args = false;
      thr_args_size = 0;
    } in
    let sized : ThreadPool = record blank { pool_size_increment = or_default initial_size } in
    let ready : ThreadPool = record sized { has_args = true; thr_args_size = thr_args_size } in
    let grown : Status × ThreadPool = grow os (or_default initial_size) ready in
    if not os.mutex_init
    then (err, blank)
    else if not os.alloc
    then (err, sized)
    else if not (os.mutex_lock && os.attributes && os.create_watchdog)
    then (err, sized)
    else keep_or_free grown
