-- ===== src/Timer/Def.antt =====
-- inc/timer.h, src/timer.c: the definition of a timer. Each interval is a pair of a first and a last value.
use crinit.Base.{ℕ}
use crinit.Base.Int.{ℤ, pos}

-- An interval of `uint8_t` or `uint16_t` values
pub record Interval : Type 0 where
  pub first : ℕ
  pub last : ℕ

-- `crinitTimerDef_t`; `week_days` has bit 0 for Monday.
pub record TimerDef : Type 0 where
  pub week_days : ℕ
  pub years : Interval
  pub month : Interval
  pub days : Interval
  pub hours : Interval
  pub minutes : Interval
  pub seconds : Interval
  pub zone_hours : ℤ
  pub zone_minutes : ℤ

-- `crinitTimerSetDefault`: every day at midnight
abbrev pub set_default : TimerDef
set_default = record {
  week_days = 127;
  years = record { first = 0; last = 65535 };
  month = record { first = 1; last = 12 };
  days = record { first = 1; last = 31 };
  hours = record { first = 0; last = 0 };
  minutes = record { first = 0; last = 0 };
  seconds = record { first = 0; last = 0 };
  zone_hours = pos 0;
  zone_minutes = pos 0;
}
