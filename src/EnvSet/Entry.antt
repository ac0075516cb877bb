-- ===== src/EnvSet/Entry.antt =====
-- One string `NAME=VALUE` of a set: when it is the entry of a name, and its value.
use crinit.Base.{
  ◌≡◌, refl, Bool, true, false, ◌&&◌, [], ◌∷◌, ◌++◌, Option, none, some, ◌==◌, if◌then◌else◌, arith,
}
use crinit.Base.Str.{Str, str_eq}

-- `strncmp(entry, name, strlen(name)) == 0 && entry[strlen(name)] == '='`
unfoldable pub matches : Str → Str → Bool
matches [] [] = false
matches [] (c ∷ cs) = c == b'='
matches (x ∷ xs) [] = false
matches (x ∷ xs) (c ∷ cs) = c == x && matches xs cs

-- `strchr(entry, '=')`, and the byte after it
unfoldable pub value_of : Str → Option Str
value_of [] = none
value_of (c ∷ cs) = if c == b'=' then some cs else value_of cs

-- `strchr(name, '=') != NULL`
unfoldable pub has_equals : Str → Bool
has_equals [] = false
has_equals (c ∷ cs) = if c == b'=' then true else has_equals cs

-- `snprintf(..., "%s=%s", name, val)`
abbrev pub entry : Str → Str → Str
entry name val = name ++ b'=' ∷ val

pub value_of-entry :
    (name val : Str) → has_equals name ≡ false → value_of (entry name val) ≡ some val
unfolding value_of has_equals
value_of-entry [] val h = refl
value_of-entry (c ∷ cs) val h = ground (arith, value_of-entry cs val)

pub matches-entry :
    (j name val : Str)
    → has_equals j ≡ false
    → has_equals name ≡ false
    → matches j (entry name val) ≡ str_eq name j
unfolding matches has_equals str_eq
matches-entry [] [] val h k = refl
matches-entry [] (c ∷ cs) val h k = ground arith
matches-entry (x ∷ xs) [] val h k = ground arith
matches-entry (x ∷ xs) (c ∷ cs) val h k = ground (arith, matches-entry xs cs val)

-- A string is the entry of at most one name.
pub matches_unique :
    (j k s : Str)
    → has_equals j ≡ false
    → has_equals k ≡ false
    → matches j s ≡ true
    → matches k s ≡ true
    → k ≡ j
unfolding matches has_equals
matches_unique [] [] s hj hk mj mk = refl
matches_unique [] (y ∷ ys) [] hj hk mj mk = cc
matches_unique [] (y ∷ ys) (c ∷ cs) hj hk mj mk = ground arith
matches_unique (x ∷ xs) [] [] hj hk mj mk = cc
matches_unique (x ∷ xs) [] (c ∷ cs) hj hk mj mk = ground arith
matches_unique (x ∷ xs) (y ∷ ys) [] hj hk mj mk = cc
matches_unique (x ∷ xs) (y ∷ ys) (c ∷ cs) hj hk mj mk = ground (arith, matches_unique xs ys cs)
