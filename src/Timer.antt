-- ===== src/Timer.antt =====
-- src/timer.c and inc/timer.h: calendar timers.
pub mod Def
pub mod Calendar
pub mod Next
pub mod Check
pub mod NextTime
mod Tests
