-- ===== src/Timer/NextTime.antt =====
-- `crinitTimerNextTime` of src/timer.c, over `gmtime_r` as a parameter.
pub mod Laws
use crinit.Base.{
  ℕ, zero, suc, ◌+◌, ◌≡◌, Bool, true, false, not, ◌&&◌, ◌||◌, ◌==◌, if◌then◌else◌, Option, none,
  some,
}
use crinit.Base.Int.{ℤ, pos, ◌+ℤ◌, ◌-ℤ◌, ◌*ℤ◌, eqb_ℤ}
use crinit.Timer.Def.{Interval, TimerDef}
use crinit.Timer.Calendar.{to_unsigned, is_leap_year, month_length, days_to_month}
use crinit.Timer.Next.{cc_range, next, next_year}
use crinit.Timer.Check.{Tm, zoned_time, check_timer_time}

-- A field is updated if no next time is found yet, or if its value is not in its interval.
abbrev rolls : Bool → Interval → ℤ → Bool
rolls done i v = not (done && cc_range (pos i.first) v (pos i.last))

-- The variables of the `do` loop
pub record Search : Type 0 where
  pub done : Bool
  pub day : ℤ
  pub month : ℤ
  pub year : ℤ
  pub off_days : ℤ
  pub off : ℤ

abbrev u8 : ℤ → ℕ
u8 = to_unsigned 256

abbrev u16 : ℤ → ℕ
u16 = to_unsigned 65536

-- The 29th of February stays, and only the year is updated.
is_leap_day : TimerDef → ℤ → Bool
is_leap_day td day =
    td.days.first == 29
    && td.days.last == 29
    && td.month.first == 2
    && td.month.last == 2
    && eqb_ℤ day (pos 29)

-- The three `if` blocks at the start of the loop's body
update_day : TimerDef → Search → Search
unfolding is_leap_day
update_day td s =
    if rolls s.done td.days s.day
    then if is_leap_day td s.day
      then record s { done = false }
      else (let (done, day, off) = next s.day td.days 1 (month_length (u8 s.month) (u16 s.year)) in
          record s { done = done; day = day; off = off; off_days = s.off_days +ℤ off })
    else s

update_month : TimerDef → Search → Search
update_month td s =
    if rolls s.done td.month s.month
    then (let (done, month, off) = next s.month td.month 1 (pos 12) in
        record s {
          done = done;
          month = month;
          off = off;
          off_days =
              s.off_days
              +ℤ (days_to_month (u8 month) (u16 s.year) -ℤ days_to_month (u8 s.month) (u16 s.year));
        })
    else s

update_year : TimerDef → Search → Search
update_year td s =
    if rolls s.done td.years s.year
    then (let (done, year, off) = next_year s.year td.years s.year s.off in
        record s {
          done = done;
          year = year;
          off = off;
          off_days = s.off_days +ℤ off *ℤ pos (365 + (if is_leap_year (u16 s.year) then 1 else 0));
        })
    else s

-- The `do` loop, by the number of rounds that may be made. `base` is the last time with the offsets
-- of the seconds, minutes and hours. The result is `next.tv_sec`, if `done` is set at the end.
module _ (check : ℤ → Bool) (base : ℤ) (td : TimerDef) where
  round : Search → Search
  round s = update_year td (update_month td (update_day td s))

  search : ℕ → Search → Option ℤ
  search zero s = none
  search (suc rounds) s =
      let s' = round s in
      let time = base +ℤ s'.off_days *ℤ pos 86400 in
      let rest = search rounds (record s' { done = false }) in
      if s'.done then if check time then some time else rest else none

-- The seconds, minutes and hours: a field is updated if the one before rolled over, or if it is not
-- in its interval. The offset of a field that stays is 0.
abbrev update_field : Bool → Interval → ℕ → ℕ → Bool × ℤ
update_field done i v limit =
    if rolls done i (pos v)
    then (let (done', res, off) = next (pos v) i 0 (pos limit) in (done', off))
    else (done, pos 0)

module _ (gmtime : ℤ → Tm) where
  -- The state before the loop, and the last time with the offsets of the clock fields
  begin_search : ℤ → TimerDef → Search × ℤ
  begin_search last_sec td =
      let t = zoned_time gmtime last_sec td.zone_hours td.zone_minutes in
      let (done_sec, res, off_sec) = next (pos t.sec) td.seconds 0 (pos 59) in
      let (done_min, off_min) = update_field done_sec td.minutes t.min 59 in
      let (done_hour, off_hour) = update_field done_min td.hours t.hour 23 in
      (
        record {
          done = done_hour;
          day = pos t.mday;
          month = pos t.mon +ℤ pos 1;
          year = pos t.year +ℤ pos 1900;
          off_days = pos 0;
          off = pos 0;
        },
        last_sec +ℤ off_sec +ℤ off_min *ℤ pos 60 +ℤ off_hour *ℤ pos 3600,
      )

  -- `crinitTimerNextTime`: seconds and nanoseconds, both 0 if no next time was found. The condition
  -- `!done && tries++ <= 40` lets 41 rounds follow the first.
  pub next_time : ℤ → ℕ → TimerDef → ℤ × ℕ
  next_time last_sec last_nsec td =
      let (s, base) = begin_search last_sec td in
      elim (search (λ t. check_timer_time gmtime t td) base td 42 s) [
        | some time ↦ (time, last_nsec)
        | none ↦ (pos 0, 0)
      ]
