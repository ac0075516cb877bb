-- ===== src/EnvSet.antt =====
-- src/envset.c: sets of environment variables, as the array of `NAME=VALUE` strings that
-- `posix_spawn` takes, ended by a NULL. A slot that holds NULL is `none`.
mod Entry
pub mod Slots
pub mod Laws
pub mod Lifetime
mod Tests
unfoldable pub use Entry.*
use crinit.Base.{
  ℕ, ◌+◌, ◌-◌, ◌≡◌, Bool, true, false, not, ◌&&◌, ◌||◌, List, [], ◌∷◌, ◌++◌, Option, none, some,
  suc, zero, ltb, leb, ◌==◌, if◌then◌else◌, length, get_elem?, set, replicate, Status, ok, err,
}
use crinit.Base.Str.{Str}

-- `crinitEnvSet_t`. `envp` is `none` for the NULL of a set that is not initialised.
pub record EnvSet : Type 0 where
  pub envp : Option (List (Option Str))
  pub alloc_sz : ℕ
  pub alloc_inc : ℕ

-- What a call does: it returns a status and leaves the set, or it reads or writes outside of the
-- array, which C leaves undefined.
pub data Outcome : Type 0 where
  done : Status → EnvSet → Outcome
  undefined : Outcome

-- Which of the allocations of a call succeed, in the order in which the source makes them.
abbrev pub Alloc : Type 0
Alloc = ℕ → Bool

-- `crinitEnvSetInit`. The old value of the set is lost. `calloc` gives an array of NULLs.
unfoldable pub init : Alloc → EnvSet → ℕ → ℕ → Status × EnvSet
init alloc es init_size size_increment =
    if alloc 0
    then (
      ok,
      record {
        envp = some (replicate init_size none);
        alloc_sz = init_size;
        alloc_inc = size_increment;
      },
    )
    else (err, record es { envp = none })

-- The loop of `crinitEnvSetDestroy` frees up to the first NULL, and runs past an array without one.
pub is_terminated : List (Option Str) → Bool
is_terminated [] = false
is_terminated (none ∷ slots) = true
is_terminated (some s ∷ slots) = is_terminated slots

abbrev pub null_set : EnvSet
null_set = record { envp = none; alloc_sz = 0; alloc_inc = 0 }

unfoldable pub destroy : EnvSet → Outcome
unfolding is_terminated
destroy es = elim es.envp [
  | none ↦ done ok es
  | some slots ↦ if is_terminated slots then done ok null_set else undefined
]

-- `crinitEnvSetValid`
unfoldable pub is_valid : EnvSet → Bool
is_valid es = elim es.envp [ none ↦ false | some slots ↦ ltb 0 es.alloc_sz ]

-- The loop of `crinitEnvSetSearch`: the slot of the name, or the first NULL, or the array's size.
pub search_slots : Str → List (Option Str) → ℕ
search_slots name [] = 0
search_slots name (none ∷ slots) = 0
search_slots name (some s ∷ slots) = if matches name s then 0 else suc (search_slots name slots)

-- `crinitEnvSetSearch`; `none` is -1.
pub search : EnvSet → Str → Option ℕ
unfolding is_valid search_slots
search es name = elim es.envp [
  | none ↦ none
  | some slots ↦
      if ltb 0 es.alloc_sz
      then if has_equals name then none else some (search_slots name slots)
      else none
]

-- `crinitEnvSetGet`. The index can be the array's size, where the source reads behind the array.
unfoldable pub get : EnvSet → Str → Option Str
unfolding search
get es name = elim es.envp [
  | none ↦ none
  | some slots ↦ elim (search es name) [
    | none ↦ none
    | some idx ↦ elim (get_elem? slots idx) [ some (some s) ↦ value_of s | _ ↦ none ]
  ]
]

-- `crinitEnvSetGrow`, with the array behind the pointer. `realloc` keeps the slots, and `memset`
-- fills the new ones with NULL.
pub grow : Alloc → EnvSet → List (Option Str) → Option (EnvSet × List (Option Str))
grow alloc es slots =
    if es.alloc_inc == 0 || not (alloc 0)
    then none
    else (let slots' = slots ++ replicate es.alloc_inc none in
        some (
          record {
            envp = some slots';
            alloc_sz = es.alloc_sz + es.alloc_inc;
            alloc_inc = es.alloc_inc;
          },
          slots',
        ))

-- The last part of `crinitEnvSetSet`: the string is written at the index.
abbrev pub write : EnvSet → List (Option Str) → ℕ → Str → Str → Outcome
write es slots idx name val =
    done ok (record es { envp = some (set slots idx (some (entry name val))) })

-- A new variable at the index of the first NULL. The last slot has to stay NULL.
pub add : Alloc → EnvSet → List (Option Str) → ℕ → Str → Str → Outcome
unfolding grow
add alloc es slots idx name val =
    if leb (es.alloc_sz - 1) idx
    then elim (grow alloc es slots) [
      | none ↦ done err es
      | some (es', slots') ↦ if alloc 1 then write es' slots' idx name val else done err es'
    ]
    else if alloc 1
    then write es slots idx name val
    else done err es

-- A variable that is there. The string is reallocated if its length changes.
pub replace : Alloc → EnvSet → List (Option Str) → ℕ → Str → Str → Str → Outcome
replace alloc es slots idx old name val =
    if length (entry name val) == length old
    then write es slots idx name val
    else if alloc 1
    then write es slots idx name val
    else done err es

-- `crinitEnvSetSet`. After a search that failed (-1) the source goes on, and writes at index -1.
unfoldable pub put : Alloc → EnvSet → Str → Str → Outcome
unfolding is_valid search add replace
put alloc es name val = elim es.envp [
  | none ↦ done err es
  | some slots ↦
      if ltb 0 es.alloc_sz
      then elim (search es name) [
        | none ↦ undefined
        | some idx ↦ elim (get_elem? slots idx) [
          | none ↦ undefined
          | some none ↦ add alloc es slots idx name val
          | some (some old) ↦ replace alloc es slots idx old name val
        ]
      ]
      else done err es
]

-- The loop of `crinitEnvSetDup`: the strings up to the first NULL are duplicated into the new array,
-- whose other slots are NULL. `none` is a failed allocation, or an array with no NULL in it.
pub copy_slots : Alloc → ℕ → List (Option Str) → Option (List (Option Str))
copy_slots alloc i [] = none
copy_slots alloc i (none ∷ slots) = some (none ∷ replicate (length slots) none)
copy_slots alloc i (some s ∷ slots) =
    let rest = copy_slots alloc (suc i) slots in
    if alloc (suc i) then elim rest [ none ↦ none | some slots' ↦ some (some s ∷ slots') ] else none

-- `crinitEnvSetDup`. On a failure the copy is destroyed.
unfoldable pub dup : Alloc → EnvSet → Option EnvSet
unfolding copy_slots
dup alloc orig = elim orig.envp [
  | none ↦ none
  | some slots ↦
      if alloc 0
      then elim (copy_slots alloc 0 slots) [
        | none ↦ none
        | some slots' ↦ some (record orig { envp = some slots' })
      ]
      else none
]
