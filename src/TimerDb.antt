-- ===== src/TimerDb.antt =====
-- src/timerdb.c: the pool of timers, behind its mutex.
pub mod Laws
pub mod Run
pub mod Init
pub mod Thread
mod Tests
use crinit.Base.{
  ℕ, zero, suc, ◌+◌, ◌-◌, ◌≡◌, Bool, true, false, not, ◌||◌, List, [], ◌∷◌, ◌++◌, Option, none,
  some, ltb, leb, ◌==◌, if◌then◌else◌, length, last_of, init_of, Status, ok, err,
}
use crinit.Base.Str.{Str, str_eq}
use crinit.Base.Int.{ℤ}
use crinit.World.{
  World, PoolTimer, TimerDb, Outcome, ret, fault, M, ◌>>=◌, ◌>>◌, return, branch, on_status,
  on_option, here, lock_pool, unlock_pool, set_timers,
}
use crinit.Timer.Def.{TimerDef}
use crinit.Timer.Check.{Tm}
use crinit.Timer.NextTime.{next_time}

-- `if (refs > 0) refs -= 1`
abbrev pub release : PoolTimer → PoolTimer
release t = record t { refs = t.refs - 1 }

-- The loop of `crinitTimerDBRemoveTimer`, on the elements from the current one on. The first argument
-- is at least their number. A timer with no reference left is overwritten by the last one, and the
-- loop goes on behind it.
pub remove_loop : ℕ → Str → List PoolTimer → List PoolTimer
remove_loop zero name timers = timers
remove_loop (suc n) name [] = []
remove_loop (suc n) name (t ∷ []) =
    if str_eq t.name name then if (release t).refs == 0 then [] else release t ∷ [] else t ∷ []
remove_loop (suc n) name (t ∷ u ∷ timers) =
    let moved = last_of u timers ∷ remove_loop n name (init_of u timers) in
    let kept = release t ∷ remove_loop n name (u ∷ timers) in
    let other = t ∷ remove_loop n name (u ∷ timers) in
    if str_eq t.name name then if (release t).refs == 0 then moved else kept else other

remove_locked : Str → M (Unit {0})
unfolding remove_loop
remove_locked name = do
  w ← here
  set_timers (remove_loop (length w.pool.timers) name w.pool.timers)
  unlock_pool

-- `crinitTimerDBRemoveTimer`. A failed write to the event file is only reported.
unfoldable pub remove_timer : Str → M (Unit {0})
unfolding remove_locked
remove_timer name = do locked ← lock_pool; on_status locked (remove_locked name) (return tt)

-- The search of `crinitTimerDBAddTimer`: the first timer of the name gets a reference.
pub add_ref : Str → List PoolTimer → Option (List PoolTimer)
add_ref name [] = none
add_ref name (t ∷ timers) =
    if str_eq t.name name
    then some (record t { refs = t.refs + 1 } ∷ timers)
    else elim (add_ref name timers) [ none ↦ none | some timers' ↦ some (t ∷ timers') ]

-- `crinitTimerDBInsertTimer` with the mutex held. Element 0 of the arrays counts for `size`.
pub insert_locked : PoolTimer → M Status
insert_locked timer = do
  w ← here
  branch (leb w.pool.cap (length w.pool.timers + 1) || not w.os.timer_fd)
      (unlock_pool >> return err)
      (do
        set_timers (w.pool.timers ++ timer ∷ [])
        unlock_pool
        return (if w.os.event_write then ok else err))

unfoldable pub insert_timer : PoolTimer → M Status
unfolding insert_locked
insert_timer timer = do locked ← lock_pool; on_status locked (insert_locked timer) (return err)

-- The insertion of a timer without a name. If there is room for it, the pool then has a timer whose name
-- is NULL, and the next call compares names with it; the model ends there.
insert_nameless : M (Unit {0})
insert_nameless = do
  locked ← lock_pool
  on_status locked
      (do
        w ← here
        branch (leb w.pool.cap (length w.pool.timers + 1) || not w.os.timer_fd) unlock_pool
            (λ v. fault))
      (return tt)

-- `crinitTimerDBAddTimer`. The parser of timer definitions, `gmtime_r`, the time of the call and whether
-- the name can be copied, which the code does not check, are parameters. The mutex is given back between
-- the search and the insertion.
module _ (parse : Str → TimerDef) (gmtime : ℤ → Tm) (now_sec : ℤ) (now_nsec : ℕ)
    (dup_name : Str → Bool) where
  pub new_timer : Str → PoolTimer
  new_timer name =
      let (sec, nsec) = next_time gmtime now_sec now_nsec (parse name) in
      record { def = parse name; name = name; refs = 1; next_sec = sec; next_nsec = nsec }

  -- The search, with the mutex held
  search_locked : Str → M Bool
  unfolding add_ref
  search_locked name = do
    w ← here
    on_option (add_ref name w.pool.timers) (unlock_pool >> return false)
        (λ timers. set_timers timers >> unlock_pool >> return true)

  unfoldable pub add_timer : Str → M (Unit {0})
  unfolding search_locked insert_timer new_timer insert_nameless
  add_timer name = do
    locked ← lock_pool
    on_status locked
        (do
          found ← search_locked name
          branch found (return tt)
              (branch (dup_name name) (insert_timer (new_timer name) >> return tt) insert_nameless))
        (return tt)
