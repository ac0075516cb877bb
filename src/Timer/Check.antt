-- ===== src/Timer/Check.antt =====
-- `crinitCheckTimerDef`, `crinitZonedTimeR` and `crinitCheckTimerTime` of src/timer.c.
pub mod Laws
use crinit.Base.{
  ℕ, ◌+◌, ◌-◌, ◌*◌, ◌%◌, ◌^◌, ◌≡◌, Bool, true, false, not, ◌&&◌, ◌||◌, ltb, leb, ◌==◌,
  if◌then◌else◌,
}
use crinit.Base.Int.{ℤ, pos, negsuc, ◌+ℤ◌, ◌*ℤ◌, ltb_ℤ, leb_ℤ}
use crinit.Task.{has_bit}
use crinit.Timer.Def.{Interval, TimerDef}
use crinit.Timer.Calendar.{is_leap_year}
use crinit.Timer.Next.{co_range, cc_range, oc_range}

-- The fields of `struct tm` that the code reads. Years before 1900 are left out.
pub record Tm : Type 0 where
  pub sec : ℕ
  pub min : ℕ
  pub hour : ℕ
  pub mday : ℕ
  pub mon : ℕ
  pub year : ℕ
  pub wday : ℕ

-- The body of the first loop of `crinitCheckTimerDef`, for one end of the intervals
field_ok : ℕ → ℕ → ℕ → ℕ → ℕ → Bool
field_ok month day hour minute second =
    not (month == 0 || ltb 12 month) && leb day 31 && leb hour 23 && leb minute 59 && leb second 59

-- `0 > td->timezone[1] || 59 < td->timezone[1]`; a wrong hour is only reported.
zone_ok : ℤ → Bool
zone_ok minutes = not (ltb_ℤ minutes (pos 0) || ltb_ℤ (pos 59) minutes)

-- The test for the 31st of a month with 30 days
short_month_ok : TimerDef → Bool
short_month_ok td =
    let month = td.month.first in
    if month == td.month.last && (month == 4 || month == 6 || month == 9 || month == 11)
    then not (td.days.first == 31 || td.days.last == 31)
    else true

-- `minWrong` of the test for February
min_wrong : TimerDef → ℕ
min_wrong td = if td.years.first == td.years.last && is_leap_year td.years.first then 29 else 30

-- `minWrong <= day && maxWrong > day`
february_day_ok : TimerDef → ℕ → Bool
unfolding min_wrong
february_day_ok td day = not (leb (min_wrong td) day && ltb day 31)

february_ok : TimerDef → Bool
unfolding february_day_ok
february_ok td =
    if td.month.first == td.month.last && td.month.first == 2
    then february_day_ok td td.days.first && february_day_ok td td.days.last
    else true

-- `crinitCheckTimerDef`
unfoldable pub check_timer_def : TimerDef → Bool
unfolding field_ok zone_ok short_month_ok february_ok
check_timer_def td =
    field_ok td.month.first td.days.first td.hours.first td.minutes.first td.seconds.first
    && field_ok td.month.last td.days.last td.hours.last td.minutes.last td.seconds.last
    && zone_ok td.zone_minutes
    && short_month_ok td
    && february_ok td

-- The test of one field in `crinitCheckTimerTime`
unfoldable pub cyclic_range : Interval → ℕ → Bool
cyclic_range i v =
    cc_range (pos i.first) (pos v) (pos i.last)
    || co_range (pos v) (pos i.last) (pos i.first)
    || oc_range (pos i.last) (pos i.first) (pos v)

-- The test of the minutes, whose last comparison has its bounds the other way round
unfoldable pub minute_range : Interval → ℕ → Bool
minute_range i v =
    cc_range (pos i.first) (pos v) (pos i.last)
    || co_range (pos v) (pos i.last) (pos i.first)
    || oc_range (pos i.first) (pos i.last) (pos v)

-- `gmtime_r`, as a parameter
module _ (gmtime : ℤ → Tm) where
  -- `crinitZonedTimeR`
  unfoldable pub zoned_time : ℤ → ℤ → ℤ → Tm
  zoned_time time hours minutes = gmtime (time +ℤ (hours *ℤ pos 3600 +ℤ minutes *ℤ pos 60))

  -- `crinitCheckTimerTime`, with the conversions of the month and the year
  unfoldable pub check_timer_time : ℤ → TimerDef → Bool
  unfolding zoned_time cyclic_range minute_range
  check_timer_time time td =
      let t = zoned_time time td.zone_hours td.zone_minutes in
      cyclic_range td.seconds t.sec
      && minute_range td.minutes t.min
      && cyclic_range td.hours t.hour
      && cyclic_range td.days t.mday
      && cyclic_range td.month ((t.mon + 1) % 256)
      && cyclic_range td.years ((t.year + 1900) % 2 ^ 16)
      && has_bit td.week_days ((t.wday + 6) % 7)
