-- ===== src/Timer/NextTime/Laws.antt =====
-- The times that `crinitTimerNextTime` returns.
use crinit.Base.{ℕ, zero, suc, ◌≡◌, ◌⊎◌, inl, inr, Bool, true, false, arith, some, Option-cases}
use crinit.Base.Int.{ℤ, pos}
use crinit.Timer.Def.{TimerDef}
use crinit.Timer.Check.{Tm, check_timer_time}
use crinit.Timer.NextTime.{Search, round, search, begin_search, next_time}

-- What the loop finds passed the check, whatever the fields did.
search_sound :
    (check : ℤ → Bool) (base : ℤ) (td : TimerDef) (rounds : ℕ) (s : Search) (time : ℤ)
    → search check base td rounds s ≡ some time
    → check time ≡ true
unfolding search
search_sound check base td zero s time e = cc
search_sound check base td (suc rounds) s time e = ground (
  arith,
  search_sound check base td rounds (record (round check base td s) { done = false }) time,
)

-- Whatever the last time and the definition, `crinitTimerNextTime` returns either the zero time, or
-- a time that `crinitCheckTimerTime` accepts for the definition, with the nanoseconds of the last
-- time.
pub next_time_sound :
    (gmtime : ℤ → Tm) (last_sec : ℤ) (last_nsec : ℕ) (td : TimerDef)
    → (next_time gmtime last_sec last_nsec td ≡ (pos 0, 0))
      ⊎ (check_timer_time gmtime (next_time gmtime last_sec last_nsec td).0 td ≡ true)
        × ((next_time gmtime last_sec last_nsec td).1 ≡ last_nsec)
unfolding next_time
next_time_sound gmtime last_sec last_nsec td =
    let (st, base) = begin_search gmtime last_sec td in
    let check = λ (t : ℤ). check_timer_time gmtime t td in
    elim (Option-cases (search check base td 42 st)) [
      | inl e ↦ inl (rw (e, next_time))
      | inr (time, e) ↦
          inr (rw (e, next_time) (search_sound check base td 42 st time e), rw (e, next_time))
    ]
