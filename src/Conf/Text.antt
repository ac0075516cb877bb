-- ===== src/Conf/Text.antt =====
-- The calls of the C library that take a text apart, as the readers of the configuration use them.
use crinit.Base.{ℕ, Bool, true, false, ◌&&◌, [], ◌∷◌, Option, none, some, ◌==◌, if◌then◌else◌}
use crinit.Base.Str.{Str}

-- The text up to a delimiter, and what is behind it
unfoldable pub until : ℕ → Str → Str × Str
until c [] = ([], [])
until c (x ∷ s) =
    let next : Str × Str = until c s in if x == c then ([], s) else (x ∷ next.0, next.1)

unfoldable pub skip : ℕ → Str → Str
skip c [] = []
skip c (x ∷ s) = let rest : Str = skip c s in if x == c then rest else x ∷ s

-- `strtok_r` with one delimiter: the next token and what is behind it
unfoldable pub strtok : ℕ → Str → Option (Str × Str)
unfolding until skip
strtok c s = elim (skip c s) [ [] ↦ none | x ∷ r ↦ some (until c (x ∷ r)) ]

-- `strchr`: the text before the first byte `c` and behind it
unfoldable pub split_at : ℕ → Str → Option (Str × Str)
split_at c [] = none
split_at c (x ∷ s) =
    let rest : Option (Str × Str) = split_at c s in
    if x == c then some ([], s) else elim rest [ none ↦ none | some p ↦ some (x ∷ p.0, p.1) ]

-- `strncmp(pre, s, strlen(pre)) == 0`
unfoldable pub is_prefix : Str → Str → Bool
is_prefix [] s = true
is_prefix (x ∷ pre) [] = false
is_prefix (x ∷ pre) (y ∷ s) = x == y && is_prefix pre s
