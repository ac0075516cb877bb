-- ===== src/Timer/Next.antt =====
-- `crinitNext` and `crinitNextYear` of src/timer.c: the next value of one field of a time.
pub mod Laws
use crinit.Base.{
  ℕ, ◌+◌, ◌-◌, ◌%◌, ◌≡◌, Bool, true, false, not, ◌&&◌, ◌||◌, ltb, leb, ◌==◌, if◌then◌else◌,
}
use crinit.Base.Int.{ℤ, pos, ◌+ℤ◌, ◌-ℤ◌, ltb_ℤ, leb_ℤ, eqb_ℤ}
use crinit.Timer.Def.{Interval}
use crinit.Timer.Calendar.{to_unsigned}

-- `CO_RANGE`, `CC_RANGE` and `OC_RANGE` of inc/timer.h
abbrev pub co_range : ℤ → ℤ → ℤ → Bool
co_range start test end = leb_ℤ start test && ltb_ℤ test end

abbrev pub cc_range : ℤ → ℤ → ℤ → Bool
cc_range start test end = leb_ℤ start test && leb_ℤ test end

abbrev pub oc_range : ℤ → ℤ → ℤ → Bool
oc_range start test end = ltb_ℤ start test && leb_ℤ test end

-- `range` in `crinitNext`: the interval cut off at `start` and `limit`
unfoldable pub clamp : Interval → ℕ → ℤ → Interval
clamp interval start limit = record {
  first = if leb start interval.first then interval.first else start;
  last = if leb_ℤ (pos interval.last) limit then interval.last else to_unsigned 256 limit;
}

-- `off` in `crinitNext`
unfoldable pub offset : ℤ → Interval → ℕ → ℤ → ℤ
offset last range start limit =
    if range.first == range.last
    then pos range.first -ℤ last
    else if ltb range.first range.last
    then if co_range (pos range.first) last (pos range.last) then pos 1 else pos range.first -ℤ last
    else if co_range (pos range.last) last (pos range.first)
    then pos range.first -ℤ last
    else if eqb_ℤ last limit
    then pos 0 -ℤ (limit -ℤ pos start)
    else pos 1

-- `crinitNext`: whether the field did not roll over, its new value, and the difference.
unfoldable pub next : ℤ → Interval → ℕ → ℤ → Bool × ℤ × ℤ
unfolding offset clamp
next last interval start limit =
    let off = offset last (clamp interval start limit) start limit in
    (ltb_ℤ (pos 0) off, last +ℤ off, off)

-- `crinitNextYear`. Where the source returns without setting its results they stay as given.
unfoldable pub next_year : ℤ → Interval → ℤ → ℤ → Bool × ℤ × ℤ
next_year last interval res offs =
    if interval.first == interval.last
    then (false, res, offs)
    else if ltb interval.first interval.last
    then if co_range (pos interval.first) last (pos interval.last)
      then (true, last +ℤ pos 1, pos 1)
      else (false, res, offs)
    else if ltb_ℤ last (pos interval.last)
    then (true, last +ℤ pos 1, pos 1)
    else if leb_ℤ (pos interval.first) last
    then (true, last +ℤ pos 1, pos 1)
    else (false, pos interval.first, pos interval.first -ℤ last)
