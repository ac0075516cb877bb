-- ===== src/Timer/Next/Laws.antt =====
-- `crinitNext` finds the next value of a field.
use crinit.Base.{
  ℕ, ◌+◌, ◌≤◌, ◌<◌, ◌≡◌, refl, Bool, true, false, ◌&&◌, ◌⊎◌, arith, ltb, leb, ltb→lt, ◌==◌,
  if◌then◌else◌,
}
use crinit.Base.Int.{pos, ltb_ℤ, ◌+ℤ◌, ◌-ℤ◌}
use crinit.Timer.Def.{Interval}
use crinit.Timer.Next.{clamp, offset, next}

-- A value lies in an interval, which goes round if its first value is the larger one.
abbrev pub Within : Interval → ℕ → Type 0
Within i v =
    (i.first ≤ i.last) × (i.first ≤ v) × (v ≤ i.last)
    ⊎ (i.last < i.first) × ((v ≤ i.last) ⊎ (i.first ≤ v))

add_sub : (n a : ℕ) → pos n +ℤ (pos a -ℤ pos n) ≡ pos a
unfolding ◌+ℤ◌ ◌-ℤ◌
add_sub n a = ground arith

ltb_sub : (n a : ℕ) → ltb_ℤ (pos 0) (pos a -ℤ pos n) ≡ ltb n a
unfolding ◌-ℤ◌
ltb_sub n a = ground arith

add_back : (n s : ℕ) → pos n +ℤ (pos 0 -ℤ (pos n -ℤ pos s)) ≡ pos s
unfolding ◌+ℤ◌ ◌-ℤ◌
add_back n s = ground arith

ltb_back : (n s : ℕ) → s ≤ n → ltb_ℤ (pos 0) (pos 0 -ℤ (pos n -ℤ pos s)) ≡ false
unfolding ◌-ℤ◌
ltb_back n s h = ground arith

add_pos : (n : ℕ) → pos n +ℤ pos 1 ≡ pos (n + 1)
unfolding ◌+ℤ◌
add_pos n = ground arith

-- The new value as a number, for a range within the limits.
abbrev target : ℕ → Interval → ℕ → ℕ → ℕ
target n r start limit =
    if r.first == r.last
    then r.first
    else if ltb r.first r.last
    then if leb r.first n && ltb n r.last then n + 1 else r.first
    else if leb r.last n && ltb n r.first
    then r.first
    else if n == limit
    then start
    else n + 1

module _ (n : ℕ) (r : Interval) (start limit : ℕ) where
  add-offset :
      n ≤ limit → pos n +ℤ offset (pos n) r start (pos limit) ≡ pos (target n r start limit)
  unfolding offset
  add-offset h = ground (arith, add_sub n r.first, add_back n start, add_pos n)

  ltb-offset :
      start ≤ n
      → ltb_ℤ (pos 0) (offset (pos n) r start (pos limit)) ≡ ltb n (target n r start limit)
  unfolding offset
  ltb-offset h = ground (arith, ltb_sub n r.first, ltb_back n start)

-- What `crinitNext` promises: a value of the interval within the limits; the next one after the old
-- value if the field did not roll over, and otherwise the least of all, none of which comes after it.
abbrev pub IsNext : Interval → ℕ → ℕ → ℕ → Bool → ℕ → Type 0
IsNext i start limit n done v =
    ((start ≤ v) × (v ≤ limit) × Within i v)
    × (done ≡ true → (n < v) × ((u : ℕ) → n < u → u < v → ¬ Within i u))
    × (done ≡ false → (v ≤ n) × ((u : ℕ) → start ≤ u → u ≤ limit → Within i u → (v ≤ u) × (u ≤ n)))

module _ (i : Interval) (start limit n : ℕ) (small : limit < 256) (lo : start ≤ n) (hi : n ≤ limit)
    (first_in : i.first ≤ limit) (last_in : start ≤ i.last) where
  abbrev r : Interval
  r = clamp i start (pos limit)

  r_first : r.first ≡ (if leb start i.first then i.first else start)
  unfolding clamp
  r_first = refl

  r_last : r.last ≡ (if leb i.last limit then i.last else limit)
  unfolding clamp
  r_last = ground arith

  target-Within :
      (start ≤ target n r start limit)
      × (target n r start limit ≤ limit)
      × Within i (target n r start limit)
  target-Within = ground (arith, r_first, r_last)

  target_after :
      (u : ℕ)
      → ltb n (target n r start limit) ≡ true
      → n < u
      → u < target n r start limit
      → ¬ Within i u
  target_after u h lt gt w = ground (arith, r_first, r_last)

  target_least :
      (u : ℕ)
      → ltb n (target n r start limit) ≡ false
      → start ≤ u
      → u ≤ limit
      → Within i u
      → (target n r start limit ≤ u) × (u ≤ n)
  target_least u h us ul w = ground (arith, r_first, r_last)

  next_done : (next (pos n) i start (pos limit)).0 ≡ ltb n (target n r start limit)
  unfolding next
  next_done = ltb-offset n r start limit lo

  next_result : (next (pos n) i start (pos limit)).1 ≡ pos (target n r start limit)
  unfolding next
  next_result = add-offset n r start limit hi

  next_offset : pos n +ℤ (next (pos n) i start (pos limit)).2 ≡ (next (pos n) i start (pos limit)).1
  unfolding next
  next_offset = refl

  target-IsNext : IsNext i start limit n (ltb n (target n r start limit)) (target n r start limit)
  target-IsNext = (
    target-Within,
    λ h. (ltb→lt _ _ h, λ u lt gt. target_after u h lt gt),
    λ h. (ground (arith, h), λ u us ul w. target_least u h us ul w),
  )

-- For a `limit` below 256, an interval that meets the values from `start` to `limit`, and an old value
-- among them, `crinitNext` sets the result to the next value of the interval after the old one and
-- returns true; or, if there is none, to the least value of the interval, and returns false. The
-- offset is what was added to the old value.
pub next-IsNext :
    (i : Interval) (start limit n : ℕ)
    → limit < 256
    → start ≤ n
    → n ≤ limit
    → i.first ≤ limit
    → start ≤ i.last
    → let (done, res, offs) = next (pos n) i start (pos limit) in
      (v : ℕ) × (res ≡ pos v) × (pos n +ℤ offs ≡ res) × IsNext i start limit n done v
next-IsNext i start limit n small lo hi first_in last_in = (
  target n (clamp i start (pos limit)) start limit,
  next_result i start limit n small lo hi first_in last_in,
  next_offset i start limit n small lo hi first_in last_in,
  rw (next_done i start limit n small lo hi first_in last_in)
      (target-IsNext i start limit n small lo hi first_in last_in),
)
