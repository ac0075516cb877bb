-- ===== src/EnvSet/Slots.antt =====
-- The array of a set as a map: what a name is bound to, before and after a slot is written.
use crinit.Base.{
  ℕ, suc, ◌<◌, ◌≡◌, ◌≢◌, refl, inl, inr, false, List, [], ◌∷◌, ◌++◌, Option, none, some,
  if◌then◌else◌, length, get_elem?, set, replicate, arith, zero, Bool-cases,
}
use crinit.Base.Str.{Str, str_eq, str_eq_iff}
use crinit.EnvSet.{
  matches, value_of, has_equals, entry, value_of-entry, matches-entry, matches_unique, search_slots,
}

-- The value of a name, read off the slots in order.
unfoldable pub lookup : Str → List (Option Str) → Option Str
lookup name [] = none
lookup name (none ∷ slots) = none
lookup name (some s ∷ slots) = if matches name s then value_of s else lookup name slots

-- Some variables, then at least one NULL, and only NULLs after it.
abbrev pub AllNull : List (Option Str) → Type 0
AllNull [] = Unit {0}
AllNull (none ∷ slots) = AllNull slots
AllNull (some s ∷ slots) = ⊥

abbrev pub IsPadded : List (Option Str) → Type 0
IsPadded [] = ⊥
IsPadded (none ∷ slots) = AllNull slots
IsPadded (some s ∷ slots) = IsPadded slots

pub AllNull-replicate : (n : ℕ) → AllNull (replicate n none)
AllNull-replicate zero = tt
AllNull-replicate (suc n) = AllNull-replicate n

pub AllNull-append : (xs ys : List (Option Str)) → AllNull xs → AllNull ys → AllNull (xs ++ ys)
AllNull-append [] ys h k = k
AllNull-append (none ∷ xs) ys h k = AllNull-append xs ys h k
AllNull-append (some s ∷ xs) ys h k = absurd h

pub IsPadded-append : (xs ys : List (Option Str)) → IsPadded xs → AllNull ys → IsPadded (xs ++ ys)
IsPadded-append [] ys h k = absurd h
IsPadded-append (none ∷ xs) ys h k = AllNull-append xs ys h k
IsPadded-append (some s ∷ xs) ys h k = IsPadded-append xs ys h k

pub search_slots-lt :
    (name : Str) (slots : List (Option Str))
    → IsPadded slots
    → search_slots name slots < length slots
unfolding search_slots
search_slots-lt name [] h = absurd h
search_slots-lt name (none ∷ slots) h = omega arith
search_slots-lt name (some s ∷ slots) h = ground (arith, search_slots-lt name slots h)

-- Growing the array moves no variable.
pub search_slots-append :
    (name : Str) (xs ys : List (Option Str))
    → IsPadded xs
    → search_slots name (xs ++ ys) ≡ search_slots name xs
unfolding search_slots
search_slots-append name [] ys h = absurd h
search_slots-append name (none ∷ xs) ys h = refl
search_slots-append name (some s ∷ xs) ys h = ground (arith, search_slots-append name xs ys h)

pub lookup-append :
    (name : Str) (xs ys : List (Option Str)) → IsPadded xs → lookup name (xs ++ ys) ≡ lookup name xs
unfolding lookup
lookup-append name [] ys h = absurd h
lookup-append name (none ∷ xs) ys h = refl
lookup-append name (some s ∷ xs) ys h = ground (arith, lookup-append name xs ys h)

-- What the loop finds: the slot that `lookup` reads.
pub lookup-eq-get_elem? :
    (name : Str) (slots : List (Option Str))
    → lookup name slots
      ≡ elim (get_elem? slots (search_slots name slots)) [ some (some s) ↦ value_of s | _ ↦ none ]
unfolding lookup search_slots
lookup-eq-get_elem? name [] = refl
lookup-eq-get_elem? name (none ∷ slots) = refl
lookup-eq-get_elem? name (some s ∷ slots) = elim (Bool-cases (matches name s)) [
  | inl e ↦ rw e
  | inr e ↦ rw e (lookup-eq-get_elem? name slots)
]

-- Writing the entry of `k` where the search for it stops binds `k`, and nothing else. The slot must
-- not be the last one.
pub lookup-set :
    (j k v : Str) (slots : List (Option Str))
    → has_equals j ≡ false
    → has_equals k ≡ false
    → IsPadded slots
    → lookup j (set slots (search_slots k slots) (some (entry k v)))
      ≡ (if str_eq k j then some v else lookup j slots)
unfolding lookup search_slots
lookup-set j k v [] hj hk h = absurd h
lookup-set j k v (none ∷ []) hj hk h =
    ground (arith, matches-entry j k v hj hk, value_of-entry k v hk)
lookup-set j k v (none ∷ none ∷ slots) hj hk h =
    ground (arith, matches-entry j k v hj hk, value_of-entry k v hk)
lookup-set j k v (none ∷ some t ∷ slots) hj hk h = absurd h
lookup-set j k v (some s ∷ slots) hj hk h = ground (
  arith,
  matches-entry j k v hj hk,
  value_of-entry k v hk,
  matches_unique j k s hj hk,
  str_eq_iff k j,
  lookup-set j k v slots hj hk h,
)

-- The array stays padded if the slot is not the last one.
pub set-IsPadded :
    (k : Str) (s : Str) (slots : List (Option Str))
    → IsPadded slots
    → suc (search_slots k slots) < length slots
    → IsPadded (set slots (search_slots k slots) (some s))
unfolding search_slots
set-IsPadded k s [] h lt = absurd h
set-IsPadded k s (none ∷ []) h lt = absurd (omega arith)
set-IsPadded k s (none ∷ none ∷ slots) h lt = h
set-IsPadded k s (none ∷ some t ∷ slots) h lt = absurd h
set-IsPadded k s (some t ∷ slots) h lt = elim (Bool-cases (matches k t)) [
  | inl e ↦ rw e h
  | inr e ↦ rw e (set-IsPadded k s slots h (ground arith))
]

-- A variable never stands in the last slot, and the search never leaves the array.
pub search_slots_held :
    (name old : Str) (slots : List (Option Str))
    → IsPadded slots
    → get_elem? slots (search_slots name slots) ≡ some (some old)
    → suc (search_slots name slots) < length slots
unfolding search_slots
search_slots_held name old [] h e = absurd h
search_slots_held name old (none ∷ slots) h e = cc
search_slots_held name old (some s ∷ []) h e = absurd h
search_slots_held name old (some s ∷ t ∷ slots) h e = elim (Bool-cases (matches name s)) [
  | inl m ↦ rw m (omega arith)
  | inr m ↦ rw m (omega (arith, search_slots_held name old (t ∷ slots) h (rw m at e)))
]

pub get_elem?-ne-none {ℓ} :
    {A : Type ℓ} (xs : List A) (i : ℕ) → i < length xs → get_elem? xs i ≢ none
get_elem?-ne-none [] i h = absurd (omega arith)
get_elem?-ne-none (x ∷ xs) zero h = λ e. cc
get_elem?-ne-none (x ∷ xs) (suc i) h = get_elem?-ne-none xs i (omega arith)
