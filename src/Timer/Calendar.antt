-- ===== src/Timer/Calendar.antt =====
-- The calendar functions of src/timer.c.
pub mod Laws
use crinit.Base.{
  ℕ, ◌+◌, ◌-◌, ◌%◌, ◌≡◌, Bool, not, ◌&&◌, ◌||◌, List, [], ◌∷◌, Option, none, some, ltb, leb, ◌==◌,
  if◌then◌else◌, get_elem?,
}
use crinit.Base.Int.{ℤ, pos, negsuc}

-- The conversion of an `int` to an unsigned type of `w` values
abbrev pub to_unsigned : ℕ → ℤ → ℕ
to_unsigned w (pos n) = n % w
to_unsigned w (negsuc n) = w - 1 - n % w

-- `crinitIsLeapYear`
unfoldable pub is_leap_year : ℕ → Bool
is_leap_year year = year % 4 == 0 && (not (year % 100 == 0) || year % 400 == 0)

-- `crinitMonthLength`; the default of the switch is -1.
unfoldable pub month_length : ℕ → ℕ → ℤ
month_length month year =
    if month == 1
      || month == 3
      || month == 5
      || month == 7
      || month == 8
      || month == 10
      || month == 12
    then pos 31
    else if month == 4 || month == 6 || month == 9 || month == 11
    then pos 30
    else if month == 2
    then if is_leap_year year then pos 29 else pos 28
    else negsuc 0

-- `crinitDayToMonthLookup`; element 0 is not set, so it is 0.
abbrev day_to_month_lookup : List ℕ
day_to_month_lookup = 0 ∷ 0 ∷ 31 ∷ 59 ∷ 90 ∷ 120 ∷ 151 ∷ 181 ∷ 212 ∷ 243 ∷ 273 ∷ 304 ∷ 334 ∷ []

lookup_day : ℕ → ℕ
lookup_day m = elim (get_elem? day_to_month_lookup m) [ none ↦ 0 | some d ↦ d ]

-- `crinitDaysToMonth`
unfoldable pub days_to_month : ℕ → ℕ → ℤ
unfolding lookup_day
days_to_month m year =
    if not (m == 0) && leb m 2
    then pos (lookup_day m)
    else if leb m 12
    then pos (lookup_day m + (if is_leap_year year then 1 else 0))
    else negsuc 0
