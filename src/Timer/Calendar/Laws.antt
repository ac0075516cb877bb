-- ===== src/Timer/Calendar/Laws.antt =====
-- The two month tables of src/timer.c agree.
use crinit.Base.{ℕ, zero, suc, ◌≤◌, ◌<◌, ◌≡◌, arith}
use crinit.Base.Int.{◌+ℤ◌}
use crinit.Timer.Calendar.{month_length, days_to_month}

-- The same for the month after `m` months.
month_step :
    (m year : ℕ)
    → m < 11
    → days_to_month (suc (suc m)) year ≡ days_to_month (suc m) year +ℤ month_length (suc m) year
unfolding days_to_month month_length ◌+ℤ◌
month_step zero year hi = ground arith
month_step (suc zero) year hi = ground arith
month_step (suc (suc zero)) year hi = ground arith
month_step (suc (suc (suc zero))) year hi = ground arith
month_step (suc (suc (suc (suc zero)))) year hi = ground arith
month_step (suc (suc (suc (suc (suc zero))))) year hi = ground arith
month_step (suc (suc (suc (suc (suc (suc zero)))))) year hi = ground arith
month_step (suc (suc (suc (suc (suc (suc (suc zero))))))) year hi = ground arith
month_step (suc (suc (suc (suc (suc (suc (suc (suc zero)))))))) year hi = ground arith
month_step (suc (suc (suc (suc (suc (suc (suc (suc (suc zero))))))))) year hi = ground arith
month_step (suc (suc (suc (suc (suc (suc (suc (suc (suc (suc zero)))))))))) year hi = ground arith
month_step (suc (suc (suc (suc (suc (suc (suc (suc (suc (suc (suc m))))))))))) year hi =
    absurd (omega arith)

-- The first day of the next month is `crinitMonthLength` days after the first day of a month, for
-- each of the months January to November of every year.
pub days_to_month-suc :
    (m year : ℕ)
    → 1 ≤ m
    → m ≤ 11
    → days_to_month (suc m) year ≡ days_to_month m year +ℤ month_length m year
days_to_month-suc zero year lo hi = absurd (omega arith)
days_to_month-suc (suc m) year lo hi = month_step m year (omega arith)
