-- ===== src/ThrPool/Tests.antt =====
-- The theorems on the thread pool at concrete pools.
use crinit.Base.{ℕ, ◌+◌, ◌<◌, ◌^◌, ◌≡◌, refl, true, false, ltb, ltb→lt, arith}
use crinit.ThrPool.{ThreadPool, Answers, is_dry, grow_loop, grow, init, busy_callback}
use crinit.ThrPool.System.{
  System, waiting, signalled, growing, start_work, watch, enlarge, work, wake, enlarged, here, next,
}
use crinit.ThrPool.Laws.{AreCounted, IsFresh, Reach-AreCounted, init-IsFresh, watch-enlarge}

-- A system that can make 100 threads
abbrev hundred : Answers
hundred = record {
  mutex_init = true;
  mutex_lock = true;
  alloc = true;
  attributes = true;
  create_watchdog = true;
  create = λ i. ltb i 100;
}

few : (i : ℕ) → hundred.create i ≡ true → i + 1 < 2 ^ 64
few i h = omega (arith, ltb→lt i 100 h)

few_of : (j : ℕ) → j < 4 → hundred.create j ≡ true
few_of j h = ground (arith, h)

abbrev unset : ThreadPool
unset = record {
  pool_size = 7;
  pool_size_increment = 7;
  thread_avail = 7;
  has_args = false;
  thr_args_size = 0;
}

abbrev two_workers : System
two_workers = record {
  pool = record {
    pool_size = 2;
    pool_size_increment = 2;
    thread_avail = 2;
    has_args = true;
    thr_args_size = 8;
  };
  busy = 0;
  watchdog = waiting;
}

abbrev all_busy : System
all_busy = start_work (start_work two_workers)

all_busy_signalled : all_busy.watchdog ≡ signalled
unfolding busy_callback is_dry
all_busy_signalled = refl

counted : AreCounted two_workers
counted = record { sum = refl; small = omega arith }

init-IsFresh_example : IsFresh 8 (init hundred 0 8 unset).1
unfolding init grow grow_loop
init-IsFresh_example = init-IsFresh hundred 0 8 unset few refl

Reach-AreCounted_example : AreCounted (enlarge hundred 4 (watch all_busy))
unfolding busy_callback is_dry watch
Reach-AreCounted_example =
    Reach-AreCounted two_workers (enlarge hundred 4 (watch all_busy))
      (next
        (next (next (next here (work (omega arith) refl)) (work (omega arith) refl))
          (wake refl refl))
        (enlarged hundred 4 refl few refl))
      counted

watch-enlarge_example :
    ((watch all_busy).watchdog ≡ growing 4)
    × ((enlarge hundred 4 (watch all_busy)).pool.thread_avail ≡ 2)
    × ((enlarge hundred 4 (watch all_busy)).watchdog ≡ waiting)
unfolding busy_callback is_dry
watch-enlarge_example =
    watch-enlarge hundred all_busy (record { sum = refl; small = omega arith }) (omega arith)
      (omega arith) (omega arith) refl refl few_of few
