-- ===== src/EnvSet/Lifetime.antt =====
-- Sets that are made, copied and destroyed.
use crinit.Base.{
  ℕ, zero, suc, ◌<◌, ◌≡◌, refl, ap, ◌∙◌, true, false, List, [], ◌∷◌, Option, none, some, length,
  replicate, ok, arith,
}
use crinit.Base.Str.{Str}
use crinit.EnvSet.{
  EnvSet, done, Alloc, init, destroy, null_set, is_terminated, has_equals, get, dup, copy_slots,
}
use crinit.EnvSet.Slots.{IsPadded, AllNull, AllNull-replicate, lookup}
use crinit.EnvSet.Laws.{IsWellFormed, get_of_slots, length-replicate_null}

copy_slots_lem :
    (alloc : Alloc) (i : ℕ) (slots : List (Option Str))
    → ((n : ℕ) → alloc n ≡ true)
    → IsPadded slots
    → copy_slots alloc i slots ≡ some slots
unfolding copy_slots
copy_slots_lem alloc i [] mem h = absurd h
copy_slots_lem alloc i (none ∷ slots) mem h = ap (λ l. some (none ∷ l)) (all_null slots h)
  where
    all_null : (l : List (Option Str)) → AllNull l → replicate (length l) none ≡ l
    all_null [] k = refl
    all_null (none ∷ l) k = ap (λ r. none ∷ r) (all_null l k)
    all_null (some s ∷ l) k = absurd k
copy_slots_lem alloc i (some s ∷ slots) mem h =
    ground (arith, mem (suc i), copy_slots_lem alloc (suc i) slots mem h)

-- With enough memory `crinitEnvSetDup` of a well-formed set is an equal set, which
-- `crinitEnvSetDestroy` frees completely without leaving the array.
pub destroy-dup :
    (alloc : Alloc) (es : EnvSet)
    → IsWellFormed es
    → ((i : ℕ) → alloc i ≡ true)
    → (dup alloc es ≡ some es) × (destroy es ≡ done ok null_set)
unfolding dup destroy
destroy-dup alloc es wf mem = (
  ground (arith, mem 0, wf.held, copy_slots_lem alloc 0 wf.slots mem wf.padded),
  ground (arith, wf.held, terminated wf.slots wf.padded),
)
  where
    terminated : (l : List (Option Str)) → IsPadded l → is_terminated l ≡ true
    terminated [] h = absurd h
    terminated (none ∷ l) h = refl
    terminated (some s ∷ l) h = terminated l h

lookup_nulls : (n : ℕ) (j : Str) → lookup j (none ∷ replicate n none) ≡ none
unfolding lookup
lookup_nulls n j = refl

-- With memory, `crinitEnvSetInit` for at least one slot gives a well-formed set, in which no name
-- without '=' is bound.
pub init-IsWellFormed :
    (alloc : Alloc) (es : EnvSet) (n inc : ℕ)
    → alloc 0 ≡ true
    → 0 < n
    → (es' : EnvSet) × (init alloc es n inc ≡ (ok, es'))
      × IsWellFormed es'
      × ((j : Str) → has_equals j ≡ false → get es' j ≡ none)
unfolding init
init-IsWellFormed alloc es zero inc mem lo = absurd (omega arith)
init-IsWellFormed alloc es (suc n) inc mem lo =
    let fresh : EnvSet = record {
      envp = some (none ∷ replicate n none);
      alloc_sz = suc n;
      alloc_inc = inc;
    } in
    let wf : IsWellFormed fresh = record {
      slots = none ∷ replicate n none;
      held = refl;
      sized = ap suc (length-replicate_null n);
      padded = AllNull-replicate n;
    } in
    (
      fresh,
      rw mem refl,
      wf,
      λ j h. get_of_slots fresh (none ∷ replicate n none) j refl lo h ∙ lookup_nulls n j,
    )
