-- ===== src/Task/State.antt =====
-- inc/crinit-sdefs.h.in: `CRINIT_TASK_STATE_*`, the flags of a task's state.
use crinit.Base.{ℕ}

abbrev pub loaded : ℕ
loaded = 0

abbrev pub starting : ℕ
starting = 1

abbrev pub running : ℕ
running = 2

abbrev pub done : ℕ
done = 4

abbrev pub failed : ℕ
failed = 8

abbrev pub notified : ℕ
notified = 16
