-- ===== src/ThrPool/Laws.antt =====
-- The count of available workers.
use crinit.Base.{
  ℕ, ◌+◌, ◌^◌, ◌≤◌, ◌/◌, ◌<◌, ◌≡◌, refl, sym, subst, true, not, ◌&&◌, arith, Status, ok, err,
}
use crinit.ThrPool.{
  ThreadPool, Answers, is_dry, busy_callback, avail_callback, grow, or_default, init, keep_or_free,
}
use crinit.ThrPool.System.{
  waiting, growing, System, watch, enlarge, Step, work, rest, wake, enlarged, Reach, here, next,
}
use crinit.ThrPool.Growth.{Grows, word_small, either_way, grow-Made, grow-ok}

-- Every worker is available or busy, and the numbers have not wrapped around.
pub record AreCounted (s : System) : Type 0 where
  pub sum : s.pool.thread_avail + s.busy ≡ s.pool.pool_size
  pub small : s.pool.pool_size < 2 ^ 64

Step-AreCounted : (s t : System) → Step s t → AreCounted s → AreCounted t
unfolding busy_callback avail_callback watch enlarge
Step-AreCounted s t (work free e) c =
    subst AreCounted (sym e) (record { sum = omega (arith, c.sum, c.small, free); small = c.small })
Step-AreCounted s t (rest some_busy e) c =
    subst AreCounted (sym e)
      (record { sum = omega (arith, c.sum, c.small, some_busy); small = c.small })
Step-AreCounted s t (wake _ e) c =
    subst AreCounted (sym e) (record { sum = c.sum; small = c.small })
Step-AreCounted s t (enlarged os new_size _ lim e) c =
    let g : Grows s.pool (grow os new_size s.pool).1 =
      (grow-Made os new_size s.pool lim (omega (arith, c.sum)) c.small).0 in
    subst AreCounted (sym e)
      (record { sum = omega (arith, g.size, g.avail, c.sum); small = g.small })

-- While every worker calls back when it gets busy and again when it is available, in any
-- interleaving of the workers' calls with the signals, the tests and the growing of the watchdog:
-- the available workers and the busy ones are all the workers, and no number wraps around. It is
-- assumed of the system that fewer than 2 ^ 64 threads can be made.
pub Reach-AreCounted : (s t : System) → Reach s t → AreCounted s → AreCounted t
Reach-AreCounted s t here c = c
Reach-AreCounted s t (next {t = u} r step) c = Step-AreCounted u t step (Reach-AreCounted s u r c)

-- What a fresh pool is, with the result of the call that made it
pub record IsFresh (size : ℕ) (p : ThreadPool) : Type 0 where
  pub workers : p.pool_size ≡ size
  pub counted : AreCounted (record { pool = p; busy = 0; watchdog = waiting })

ready_pool : ℕ → ℕ → ThreadPool → ThreadPool
ready_pool n args p = record p {
  pool_size = 0;
  thread_avail = 0;
  pool_size_increment = or_default n;
  has_args = true;
  thr_args_size = args;
}

grown-IsFresh :
    (os : Answers) (n args : ℕ) (p : ThreadPool)
    → ((i : ℕ) → os.create i ≡ true → i + 1 < 2 ^ 64)
    → (grow os (or_default n) (ready_pool n args p)).0 ≡ ok
    → IsFresh (or_default n) (grow os (or_default n) (ready_pool n args p)).1
unfolding ready_pool
grown-IsFresh os n args p lim r =
    let m : Grows (ready_pool n args p) (grow os (or_default n) (ready_pool n args p)).1
        × ((grow os (or_default n) (ready_pool n args p)).0 ≡ ok
            → ((grow os (or_default n) (ready_pool n args p)).1.pool_size ≡ or_default n)
              × (0 < or_default n)) =
      grow-Made os (or_default n) (ready_pool n args p) lim (omega arith) (omega arith) in
    record {
      workers = (m.1 r).0;
      counted = record { sum = omega (arith, m.0.size, m.0.avail); small = m.0.small };
    }

kept-IsFresh :
    (size : ℕ) (g : Status × ThreadPool)
    → (g.0 ≡ ok → IsFresh size g.1)
    → (keep_or_free g).0 ≡ ok
    → IsFresh size (keep_or_free g).1
kept-IsFresh size (ok, q) h r = h refl
kept-IsFresh size (err, q) h r = ground (arith, r)

-- When the initialisation succeeds, the pool has the number of workers that was asked for, or 8 when
-- that is 0, and all of them are available. Fewer than 2 ^ 64 threads can be made.
pub init-IsFresh :
    (os : Answers) (initial_size thr_args_size : ℕ) (p : ThreadPool)
    → ((i : ℕ) → os.create i ≡ true → i + 1 < 2 ^ 64)
    → (init os initial_size thr_args_size p).0 ≡ ok
    → IsFresh (or_default initial_size) (init os initial_size thr_args_size p).1
unfolding init ready_pool
init-IsFresh os n args p lim =
    let Q : Status × ThreadPool → Type 0 = λ r. r.0 ≡ ok → IsFresh (or_default n) r.1 in
    either_way Q (not os.mutex_init) _ _ (λ _ r. ground (arith, r))
      (λ _.
        either_way Q (not os.alloc) _ _ (λ _ r. ground (arith, r))
          (λ _.
            either_way Q (not (os.mutex_lock && os.attributes && os.create_watchdog)) _ _
              (λ _ r. ground (arith, r))
              (λ _.
                kept-IsFresh (or_default n) (grow os (or_default n) (ready_pool n args p))
                  (grown-IsFresh os n args p lim))))

-- A watchdog that finds at most a tenth of the workers available enlarges the pool: when the mutex,
-- the attributes and the threads can be had and the new size is less than 2 ^ 64, the increment's
-- number of available workers is added, and the watchdog waits again.
pub watch-enlarge :
    (os : Answers) (s : System)
    → AreCounted s
    → s.pool.thread_avail ≤ s.pool.pool_size / 10
    → 0 < s.pool.pool_size_increment
    → s.pool.pool_size + s.pool.pool_size_increment < 2 ^ 64
    → os.mutex_lock ≡ true
    → os.attributes ≡ true
    → ((j : ℕ) → j < s.pool.pool_size + s.pool.pool_size_increment → os.create j ≡ true)
    → ((i : ℕ) → os.create i ≡ true → i + 1 < 2 ^ 64)
    → ((watch s).watchdog ≡ growing (s.pool.pool_size + s.pool.pool_size_increment))
      × ((enlarge os (s.pool.pool_size + s.pool.pool_size_increment) (watch s)).pool.thread_avail
          ≡ s.pool.thread_avail + s.pool.pool_size_increment)
      × ((enlarge os (s.pool.pool_size + s.pool.pool_size_increment) (watch s)).watchdog ≡ waiting)
unfolding watch enlarge is_dry
watch-enlarge os s c dry inc room l a all lim =
    let more : s.pool.pool_size < s.pool.pool_size + s.pool.pool_size_increment =
      omega (arith, inc) in
    let m : Grows s.pool (grow os (s.pool.pool_size + s.pool.pool_size_increment) s.pool).1
        × ((grow os (s.pool.pool_size + s.pool.pool_size_increment) s.pool).0 ≡ ok
            → ((grow os (s.pool.pool_size + s.pool.pool_size_increment) s.pool).1.pool_size
                ≡ s.pool.pool_size + s.pool.pool_size_increment)
              × (s.pool.pool_size < s.pool.pool_size + s.pool.pool_size_increment)) =
      grow-Made os (s.pool.pool_size + s.pool.pool_size_increment) s.pool lim (omega (arith, c.sum))
        c.small in
    (
      ground (arith, dry, word_small (s.pool.pool_size + s.pool.pool_size_increment) room),
      omega (
        arith,
        m.0.size,
        m.0.avail,
        (m.1 (grow-ok os (s.pool.pool_size + s.pool.pool_size_increment) s.pool more l a all)).0,
      ),
      refl,
    )
