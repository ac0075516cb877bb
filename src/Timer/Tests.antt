-- ===== src/Timer/Tests.antt =====
-- Calendar timers on concrete values.
use crinit.Base.{ℕ, ◌≡◌, ◌⊎◌, true, arith}
use crinit.Base.Int.{ℤ, pos, ◌+ℤ◌}
use crinit.Timer.Def.{Interval, TimerDef}
use crinit.Timer.Next.{next}
use crinit.Timer.Next.Laws.{IsNext, next-IsNext}
use crinit.Timer.Check.{Tm, check_timer_time}
use crinit.Timer.NextTime.{next_time}
use crinit.Timer.NextTime.Laws.{next_time_sound}

abbrev working_hours : Interval
working_hours = record { first = 8; last = 17 }

abbrev night : Interval
night = record { first = 22; last = 5 }

-- 03:30:00 on every day of April
abbrev april : TimerDef
april = record {
  week_days = 127;
  years = record { first = 0; last = 65535 };
  month = record { first = 4; last = 4 };
  days = record { first = 1; last = 30 };
  hours = record { first = 3; last = 3 };
  minutes = record { first = 30; last = 30 };
  seconds = record { first = 0; last = 0 };
  zone_hours = pos 0;
  zone_minutes = pos 0;
}

-- A clock that stands at 03:30:00 on 10 April 2024
abbrev stopped : ℤ → Tm
stopped sec = record { sec = 0; min = 30; hour = 3; mday = 10; mon = 3; year = 124; wday = 3 }

next-IsNext_example :
    let (done, res, offs) = next (pos 20) night 0 (pos 23) in
    (v : ℕ) × (res ≡ pos v) × (pos 20 +ℤ offs ≡ res) × IsNext night 0 23 20 done v
next-IsNext_example =
    next-IsNext night 0 23 20 (omega arith) (omega arith) (omega arith) (omega arith) (omega arith)

next_time_sound_example :
    (next_time stopped (pos 1712719800) 7 april ≡ (pos 0, 0))
    ⊎ (check_timer_time stopped (next_time stopped (pos 1712719800) 7 april).0 april ≡ true)
      × ((next_time stopped (pos 1712719800) 7 april).1 ≡ 7)
next_time_sound_example = next_time_sound stopped (pos 1712719800) 7 april
