-- ===== src/TimerDb/Run.antt =====
-- `crinitTimerDBRemoveTimer` and `crinitTimerDBAddTimer` on the shared state.
use crinit.Base.{
  ℕ, ◌+◌, ◌-◌, ◌<◌, ◌≡◌, ◌≢◌, refl, sym, ap, subst, inl, inr, Bool, true, false, not, ◌&&◌, List,
  [], ◌∷◌, ◌++◌, Option, none, some, Option-cases, Bool-cases, ltb, ◌==◌, if◌then◌else◌, length,
  length-append, arith, All-append,
}
use crinit.Base.Str.{Str, str_eq, str_eq_iff, str_eq_refl}
use crinit.Base.Int.{ℤ}
use crinit.World.{World, PoolTimer, ret, blocked, fault}
use crinit.Timer.Def.{TimerDef}
use crinit.Timer.Check.{Tm}
use crinit.TimerDb.{remove_loop, remove_timer, add_ref, new_timer, add_timer}
use crinit.TimerDb.Laws.{
  refs_of, IsAbsent, AreCounted, IsWellFormed, remove_loop-Removed, refs_of-absent,
}

-- The state with other timers, and the mutex of the pool free
abbrev pub with_timers : World → List PoolTimer → World
with_timers w timers = record w { pool = record (w.pool) { timers = timers; locked = false } }

remove_timer-ret :
    (name : Str) (w : World)
    → w.os.pool_lock_error ≡ false
    → w.pool.locked ≡ false
    → remove_timer name w
      ≡ ret tt (with_timers w (remove_loop (length w.pool.timers) name w.pool.timers))
unfolding remove_timer
remove_timer-ret name w e f = ground (arith, e, f)

-- On a well-formed pool, with the mutex free and no error of locking it, `crinitTimerDBRemoveTimer`
-- gives one reference of the name back, if there is one, changes the references of no other name,
-- leaves the pool well formed with the mutex free, and changes nothing else.
pub remove_timer-refs_of :
    (name : Str) (w : World)
    → w.os.pool_lock_error ≡ false
    → IsWellFormed w.pool
    → (timers : List PoolTimer) × (remove_timer name w ≡ ret tt (with_timers w timers))
      × IsWellFormed (with_timers w timers).pool
      × (refs_of name timers ≡ refs_of name w.pool.timers - 1)
      × ((j : Str) → j ≢ name → refs_of j timers ≡ refs_of j w.pool.timers)
remove_timer-refs_of name w e wf =
    let r =
      remove_loop-Removed (length w.pool.timers) name w.pool.timers (omega arith) wf.counted in
    (
      remove_loop (length w.pool.timers) name w.pool.timers,
      remove_timer-ret name w e wf.free,
      record { free = refl; counted = r.0; fits = omega (arith, r.1, wf.fits) },
      r.2,
      r.3,
    )

-- A thread that holds the mutex of the pool and calls `crinitTimerDBRemoveTimer` waits for itself.
pub remove_timer-blocked :
    (name : Str) (w : World)
    → w.os.pool_lock_error ≡ false
    → w.pool.locked ≡ true
    → remove_timer name w ≡ blocked
unfolding remove_timer
remove_timer-blocked name w e held = ground (arith, e, held)

-- The search of `crinitTimerDBAddTimer` counts one reference more, or finds no timer of the name.
abbrev Added : Str → List PoolTimer → Option (List PoolTimer) → Type 0
Added name before none = IsAbsent name before
Added name before (some after) =
    AreCounted after
    × (length after ≡ length before)
    × (refs_of name after ≡ refs_of name before + 1)
    × ((j : Str) → j ≢ name → refs_of j after ≡ refs_of j before)
    × ((j : Str) → IsAbsent j before → IsAbsent j after)
    × (0 < refs_of name before)

Added-behind :
    (name : Str) (t : PoolTimer) (before : List PoolTimer) (o : Option (List PoolTimer))
    → str_eq t.name name ≡ false
    → AreCounted (t ∷ before)
    → Added name before o
    → Added name (t ∷ before) (elim o [ none ↦ none | some l ↦ some (t ∷ l) ])
unfolding refs_of
Added-behind name t before none d h r = ((λ e. ground (arith, str_eq_iff t.name name)), r)
Added-behind name t before (some after) d h r = (
  (h.0, r.4 t.name h.1, r.0),
  omega (arith, r.1),
  ground (arith, r.2),
  (λ j e. ap (λ k. (if str_eq t.name j then t.refs else 0) + k) (r.3 j e)),
  (λ j a. (a.0, r.4 j a.1)),
  omega (arith, r.5),
)

add_ref-Added :
    (name : Str) (timers : List PoolTimer)
    → AreCounted timers
    → Added name timers (add_ref name timers)
unfolding add_ref refs_of
add_ref-Added name [] h = tt
add_ref-Added name (t ∷ timers) h = elim (Bool-cases (str_eq t.name name)) [
  | inl e ↦ rw e (
    (omega arith, h.1, h.2),
    refl,
    ground arith,
    (λ j d. ground (arith, str_eq_iff t.name name, str_eq_iff t.name j)),
    (λ j a. a),
    ground arith,
  )
  | inr d ↦
      rw d (Added-behind name t timers (add_ref name timers) d h (add_ref-Added name timers h.2))
]

-- Appending a timer of a new name
AreCounted-append :
    (t : PoolTimer) (timers : List PoolTimer)
    → 0 < t.refs
    → IsAbsent t.name timers
    → AreCounted timers
    → AreCounted (timers ++ t ∷ [])
AreCounted-append t [] pos a h = (pos, tt, tt)
AreCounted-append t (u ∷ timers) pos a h = (
  h.0,
  All-append (λ v. v.name ≢ u.name) timers (t ∷ []) h.1 ((λ e. a.0 (sym e)), tt),
  AreCounted-append t timers pos a.1 h.2,
)

refs_of-append :
    (j : Str) (t : PoolTimer) (timers : List PoolTimer)
    → refs_of j (timers ++ t ∷ []) ≡ refs_of j timers + (if str_eq t.name j then t.refs else 0)
unfolding refs_of
refs_of-append j t [] = omega arith
refs_of-append j t (u ∷ timers) = omega (arith, refs_of-append j t timers)

module _ (parse : Str → TimerDef) (gmtime : ℤ → Tm) (now_sec : ℤ) (now_nsec : ℕ)
    (dup_name : Str → Bool) where
  -- Whether a timer that the pool does not hold can be made.
  abbrev pub has_room : World → Bool
  has_room w = ltb (length w.pool.timers + 1) w.pool.cap && w.os.timer_fd

  -- What `crinitTimerDBAddTimer` leaves of the pool
  abbrev pub Insertion : Str → World → List PoolTimer → Type 0
  Insertion name w timers =
      (add_timer parse gmtime now_sec now_nsec dup_name name w ≡ ret tt (with_timers w timers))
      × IsWellFormed (with_timers w timers).pool
      × (refs_of name timers ≡ (
          if refs_of name w.pool.timers == 0 && not (has_room w)
          then 0
          else refs_of name w.pool.timers + 1))
      × ((j : Str) → j ≢ name → refs_of j timers ≡ refs_of j w.pool.timers)

  add_timer-found :
      (name : Str) (w : World) (timers : List PoolTimer)
      → w.os.pool_lock_error ≡ false
      → IsWellFormed w.pool
      → add_ref name w.pool.timers ≡ some timers
      → Insertion name w timers
  unfolding add_timer
  add_timer-found name w timers e wf found =
      let r : Added name w.pool.timers (some timers) =
        subst (Added name w.pool.timers) found (add_ref-Added name w.pool.timers wf.counted) in
      (
        ground (arith, e, wf.free, found),
        record { free = refl; counted = r.0; fits = omega (arith, r.1, wf.fits) },
        ground (arith, r.2, r.5),
        r.3,
      )

  add_timer-new :
      (name : Str) (w : World)
      → w.os.pool_lock_error ≡ false
      → IsWellFormed w.pool
      → dup_name name ≡ true
      → add_ref name w.pool.timers ≡ none
      → has_room w ≡ true
      → Insertion name w
          (w.pool.timers ++ new_timer parse gmtime now_sec now_nsec dup_name name ∷ [])
  unfolding add_timer
  add_timer-new name w e wf copied missing room =
      let absent : IsAbsent name w.pool.timers =
        subst (Added name w.pool.timers) missing (add_ref-Added name w.pool.timers wf.counted) in
      (
        ground (arith, e, wf.free, copied, missing),
        record {
          free = refl;
          counted =
              AreCounted-append (new_timer parse gmtime now_sec now_nsec dup_name name)
                w.pool.timers (omega arith) absent wf.counted;
          fits = ground (
            arith,
            length-append w.pool.timers
                (new_timer parse gmtime now_sec now_nsec dup_name name ∷ []),
          );
        },
        ground (
          arith,
          refs_of-append name (new_timer parse gmtime now_sec now_nsec dup_name name) w.pool.timers,
          refs_of-absent name w.pool.timers absent,
          str_eq_refl name,
        ),
        λ j d. ground (
          arith,
          refs_of-append j (new_timer parse gmtime now_sec now_nsec dup_name name) w.pool.timers,
          str_eq_iff name j,
        ),
      )

  add_timer-full :
      (name : Str) (w : World)
      → w.os.pool_lock_error ≡ false
      → IsWellFormed w.pool
      → dup_name name ≡ true
      → add_ref name w.pool.timers ≡ none
      → has_room w ≡ false
      → Insertion name w w.pool.timers
  unfolding add_timer
  add_timer-full name w e wf copied missing room =
      let absent : IsAbsent name w.pool.timers =
        subst (Added name w.pool.timers) missing (add_ref-Added name w.pool.timers wf.counted) in
      (
        ground (arith, e, wf.free, copied, missing),
        record { free = refl; counted = wf.counted; fits = wf.fits },
        ground (arith, refs_of-absent name w.pool.timers absent),
        λ j d. refl,
      )

  -- On a well-formed pool, with the mutex free and no error of locking it, and if the name can be copied,
  -- `crinitTimerDBAddTimer` counts one reference more to the name; but if the pool has no timer of the name, and either is
  -- full or gets no timer from the system, then the name stays without a reference, which the caller
  -- is not told. The references of other names do not change, and the pool stays well formed with the
  -- mutex free.
  pub add_timer-refs_of :
      (name : Str) (w : World)
      → w.os.pool_lock_error ≡ false
      → IsWellFormed w.pool
      → dup_name name ≡ true
      → (timers : List PoolTimer) × Insertion name w timers
  add_timer-refs_of name w e wf copied = elim (Option-cases (add_ref name w.pool.timers)) [
    | inr (timers, found) ↦ (timers, add_timer-found name w timers e wf found)
    | inl missing ↦ elim (Bool-cases (has_room w)) [
      | inl room ↦ (_, add_timer-new name w e wf copied missing room)
      | inr full ↦ (_, add_timer-full name w e wf copied missing full)
    ]
  ]

  -- If the name of a new timer cannot be copied although the pool has room, the pool gets a timer without
  -- a name.
  add_timer-nameless :
      (name : Str) (w : World)
      → w.os.pool_lock_error ≡ false
      → IsWellFormed w.pool
      → dup_name name ≡ false
      → add_ref name w.pool.timers ≡ none
      → has_room w ≡ true
      → add_timer parse gmtime now_sec now_nsec dup_name name w ≡ fault
  unfolding add_timer
  add_timer-nameless name w e wf missed missing room =
      ground (arith, e, wf.free, missed, missing, room)
