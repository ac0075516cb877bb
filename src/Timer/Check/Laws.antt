-- ===== src/Timer/Check/Laws.antt =====
-- Which times and which definitions the tests of src/timer.c accept.
use crinit.Base.{ℕ, ◌≤◌, ◌<◌, ◌≡◌, ◌↔◌, ◌≢◌, ◌⊎◌, true, not, arith}
use crinit.Base.Int.{pos, ◌≤ℤ◌}
use crinit.Timer.Def.{Interval, TimerDef}
use crinit.Timer.Calendar.{is_leap_year}
use crinit.Timer.Next.Laws.{Within}
use crinit.Timer.Check.{check_timer_def, cyclic_range, minute_range}

-- The test of a field of a time accepts exactly the values of the interval, which goes round if its
-- first value is the larger one.
pub cyclic_range_iff : (i : Interval) (v : ℕ) → (cyclic_range i v ≡ true) ↔ Within i v
unfolding cyclic_range
cyclic_range_iff i v = (λ h. ground arith, λ h. ground arith)

-- The test of the minutes accepts, for an interval of several minutes that does not go round, every
-- minute from its first on, also after its last; and for one that goes round, only the minutes up to
-- its last, and not those from its first on.
pub minute_range_iff :
    (i : Interval) (v : ℕ)
    → i.first ≢ i.last
    → (minute_range i v ≡ true)
      ↔ (i.first < i.last) × (i.first ≤ v) ⊎ (i.last < i.first) × (v ≤ i.last)
unfolding minute_range
minute_range_iff i v d = (λ h. ground arith, λ h. ground arith)

-- The ends of an interval are at most `bound`.
abbrev pub Below : Interval → ℕ → Type 0
Below i bound = (i.first ≤ bound) × (i.last ≤ bound)

-- What `crinitCheckTimerDef` accepts has months from 1 to 12, days up to 31, hours up to 23, minutes
-- and seconds up to 59, and a time zone with 0 to 59 minutes; and if its only month has 30 days, its
-- days do not name the 31st.
pub check_timer_def_sound :
    (td : TimerDef)
    → check_timer_def td ≡ true
    → (1 ≤ td.month.first)
      × (1 ≤ td.month.last)
      × Below td.month 12
      × Below td.days 31
      × Below td.hours 23
      × Below td.minutes 59
      × Below td.seconds 59
      × (pos 0 ≤ℤ td.zone_minutes)
      × (td.zone_minutes ≤ℤ pos 59)
      × (td.month.first ≡ td.month.last
          → (td.month.first ≡ 4)
            ⊎ (td.month.first ≡ 6)
            ⊎ (td.month.first ≡ 9)
            ⊎ (td.month.first ≡ 11)
          → (td.days.first ≢ 31) × (td.days.last ≢ 31))
unfolding check_timer_def
check_timer_def_sound td h = ground arith

-- Of the definitions that name the 29th of February of one year, and are in range otherwise,
-- `crinitCheckTimerDef` accepts those of years that are no leap years, and rejects those of leap
-- years.
pub check_timer_def_leap_day :
    (td : TimerDef)
    → td.month ≡ record { first = 2; last = 2 }
    → td.days ≡ record { first = 29; last = 29 }
    → td.years.first ≡ td.years.last
    → Below td.hours 23
    → Below td.minutes 59
    → Below td.seconds 59
    → (pos 0 ≤ℤ td.zone_minutes)
    → (td.zone_minutes ≤ℤ pos 59)
    → check_timer_def td ≡ not (is_leap_year td.years.first)
unfolding check_timer_def
check_timer_def_leap_day td m d y h min sec lo hi = ground arith
