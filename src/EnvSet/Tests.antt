-- ===== src/EnvSet/Tests.antt =====
-- Sets of environment variables on concrete values.
use crinit.Base.{◌≡◌, ◌↔◌, refl, true, false, [], ◌∷◌, none, some, ok}
use crinit.Base.Str.{codes}
use crinit.EnvSet.{EnvSet, done, undefined, Alloc, put, dup, destroy, null_set}
use crinit.EnvSet.Entry.{has_equals}
use crinit.EnvSet.Lifetime.{destroy-dup}
use crinit.EnvSet.Laws.{IsWellFormed, Put, put-Put, put_undefined_iff}

abbrev home : EnvSet
home = record { envp = some (some (codes "HOME=/") ∷ none ∷ []); alloc_sz = 2; alloc_inc = 4 }

abbrev enough : Alloc
enough i = true

abbrev no_array : Alloc
no_array i = false

home-IsWellFormed : IsWellFormed home
home-IsWellFormed = record {
  slots = some (codes "HOME=/") ∷ none ∷ [];
  held = refl;
  sized = refl;
  padded = tt;
}

put-Put_example :
    Put home (codes "TERM") (codes "vt") (put no_array home (codes "TERM") (codes "vt"))
unfolding has_equals
put-Put_example = put-Put no_array home (codes "TERM") (codes "vt") home-IsWellFormed refl

put_undefined_example :
    (put enough home (codes "A=B") (codes "c") ≡ undefined) ↔ (has_equals (codes "A=B") ≡ true)
put_undefined_example = put_undefined_iff enough home (codes "A=B") (codes "c") home-IsWellFormed

destroy-dup_example : (dup enough home ≡ some home) × (destroy home ≡ done ok null_set)
destroy-dup_example = destroy-dup enough home home-IsWellFormed (λ i. refl)
