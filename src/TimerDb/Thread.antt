-- ===== src/TimerDb/Thread.antt =====
-- The thread of src/timerdb.c that waits for the timers.
use crinit.Base.{
  ℕ, zero, suc, ◌+◌, ◌<◌, ◌≡◌, refl, ap, subst, ◌∙◌, Bool, true, false, List, [], ◌∷◌, some, length,
  get_elem?, set, arith,
}
use crinit.Base.Int.{ℤ}
use crinit.Task.{Dep, timer_dep_name}
use crinit.Timer.Check.{Tm}
use crinit.Timer.NextTime.{next_time}
use crinit.World.{
  World, PoolTimer, blocked, M, ◌>>=◌, ◌>>◌, return, branch, on_status, on_option, here, lock_pool,
  unlock_pool, set_timers,
}
use crinit.World.Laws.{bind-blocked}
use crinit.TaskDb.Deps.{fulfill_dep}
use crinit.TaskDb.Deps.Fulfil.{IsQuiet, has_waiter, fulfill_dep-blocked}

-- What `poll` reports: whether it works, whether the event file can be read, and which of the timers
-- have expired
pub record Polled : Type 0 where
  pub works : Bool
  pub update : Bool
  pub expired : ℕ → Bool

-- The dependency on a timer
abbrev pub timer_dep : PoolTimer → Dep
timer_dep t = record { name = timer_dep_name; event = t.name }

-- The mutex of the pool is taken.
abbrev held : World → World
held w = record w { pool = record (w.pool) { locked = true } }

module _ (gmtime : ℤ → Tm) where
  -- The next time of a timer is set, from the one that has come.
  unfoldable pub reset_timer : ℕ → M (Unit {0})
  reset_timer i = do
    w ← here
    on_option (get_elem? w.pool.timers i) (return tt) λ t.
        let next : ℤ × ℕ = next_time gmtime t.next_sec t.next_nsec t.def in
        set_timers (set w.pool.timers i (record t { next_sec = next.0; next_nsec = next.1 }))

  -- The loop over the timers, from a place on, with the number of those that are left. The number of
  -- timers cannot change while the mutex is held.
  unfoldable pub fire_from : (ℕ → Bool) → ℕ → ℕ → M (Unit {0})
  unfolding reset_timer
  fire_from expired zero i = return tt
  fire_from expired (suc n) i =
      branch (expired i)
        (do
          w ← here
          on_option (get_elem? w.pool.timers i) (return tt)
              (λ t. fulfill_dep (timer_dep t) >> (reset_timer i >> fire_from expired n (suc i))))
        (fire_from expired n (suc i))

  -- The body of the loop of `crinitTimerDBRunPool`, and whether the thread goes on. Timer 0 of the
  -- arrays is the event file, so the timers are counted from the one behind it.
  unfoldable pub run_pool : Polled → M Bool
  unfolding fire_from
  run_pool p =
      branch p.works
        (do
          locked ← lock_pool
          on_status locked
              (branch p.update (unlock_pool >> return true) (do
                w ← here
                fire_from p.expired (length w.pool.timers) 0
                unlock_pool
                return true))
              (return false))
        (return false)

  -- Up to the first timer that has expired
  fire_from-blocked :
      (expired : ℕ → Bool) (k i n m : ℕ) (t : PoolTimer) (w : World)
      → m ≡ i + k
      → k < n
      → expired m ≡ true
      → ((j : ℕ) → j < m → expired j ≡ false)
      → get_elem? w.pool.timers m ≡ some t
      → fulfill_dep (timer_dep t) w ≡ blocked
      → fire_from expired n i w ≡ blocked
  unfolding fire_from
  fire_from-blocked expired k i zero m t w e le x y g b = absurd (omega (arith, le))
  fire_from-blocked expired zero i (suc n) m t w e le x y g b =
      ap
        (λ c.
          branch c
            (here >>= λ v.
              on_option (get_elem? v.pool.timers i) (return tt) (λ t'.
                fulfill_dep (timer_dep t') >> (reset_timer i >> fire_from expired n (suc i))))
            (fire_from expired n (suc i)) w)
        (subst (λ j. expired j ≡ true) (omega (arith, e)) x)
      ∙ ap
          (λ o.
            on_option o (return tt)
              (λ t'. fulfill_dep (timer_dep t') >> (reset_timer i >> fire_from expired n (suc i)))
              w)
          (subst (λ j. get_elem? w.pool.timers j ≡ some t) (omega (arith, e)) g)
      ∙ bind-blocked (fulfill_dep (timer_dep t)) _ w b
  fire_from-blocked expired (suc k) i (suc n) m t w e le x y g b =
      ap
        (λ c.
          branch c
            (here >>= λ v.
              on_option (get_elem? v.pool.timers i) (return tt) (λ t'.
                fulfill_dep (timer_dep t') >> (reset_timer i >> fire_from expired n (suc i))))
            (fire_from expired n (suc i)) w)
        (y i (omega (arith, e)))
      ∙ fire_from-blocked expired k (suc i) n m t w (omega (arith, e)) (omega (arith, le)) x y g b

  -- A place at which a list has an element is inside it.
  get_elem?-lt :
      (l : List PoolTimer) (i : ℕ) (t : PoolTimer) → get_elem? l i ≡ some t → i < length l
  get_elem?-lt [] i t e = ground (arith, e)
  get_elem?-lt (a ∷ l) zero t e = omega arith
  get_elem?-lt (a ∷ l) (suc i) t e = omega (arith, get_elem?-lt l i t e)

  -- When no mutex of the database or the pool is held and neither reports an error, the array holds
  -- tasks only, `poll` works and does not report the event file, and a task depends on the first timer
  -- that has expired, the thread waits forever for the mutex that it holds.
  pub run_pool-blocked :
      (p : Polled) (m : ℕ) (t : PoolTimer) (w : World)
      → IsQuiet w
      → p.works ≡ true
      → p.update ≡ false
      → p.expired m ≡ true
      → ((j : ℕ) → j < m → p.expired j ≡ false)
      → get_elem? w.pool.timers m ≡ some t
      → has_waiter (timer_dep t) w.db.task_set ≡ true
      → run_pool p w ≡ blocked
  unfolding run_pool
  run_pool-blocked p m t w q works no_update x y g h = ground (
    arith,
    works,
    no_update,
    q.open_pool.lockable,
    q.open_pool.pool.free,
    bind-blocked (fire_from p.expired (length w.pool.timers) 0) (λ u. unlock_pool >> return true)
        (held w)
        (fire_from-blocked p.expired m 0 (length w.pool.timers) m t (held w) (omega arith)
          (get_elem?-lt w.pool.timers m t g) x y g
          (fulfill_dep-blocked t.name (held w) q.lockable q.open_pool.lockable q.free refl
            q.live_tasks h)),
  )
