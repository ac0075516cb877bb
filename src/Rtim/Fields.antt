-- ===== src/Rtim/Fields.antt =====
-- What a message says: its fields are separated by the delimiter, the first one names the operation,
-- and the other ones that are not empty are the arguments.
use crinit.Base.{◌==◌, if◌then◌else◌, List, [], ◌∷◌}
use crinit.Base.Str.{Str}
use crinit.Rtim.{delimiter}

-- The bytes up to the first delimiter
abbrev pub field : Str → Str
field [] = []
field (x ∷ s) = let rest = field s in if x == delimiter then [] else x ∷ rest

-- The fields after the first one
abbrev pub more : Str → List Str
more [] = []
more (x ∷ s) = let rest = more s in if x == delimiter then field s ∷ rest else rest

abbrev pub nonempty : List Str → List Str
nonempty [] = []
nonempty ([] ∷ fs) = nonempty fs
nonempty ((x ∷ f) ∷ fs) = (x ∷ f) ∷ nonempty fs
