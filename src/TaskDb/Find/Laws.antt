-- ===== src/TaskDb/Find/Laws.antt =====
-- The database as a map from names to tasks.
use crinit.Base.{
  ◌≡◌, refl, sym, inl, inr, false, List, [], ◌∷◌, Option, none, some, if◌then◌else◌, set, arith,
  Bool-cases, All,
}
use crinit.Base.Str.{Str, str_eq, str_eq_iff}
use crinit.Task.{Task}
use crinit.World.{Slot, live, freed}
use crinit.TaskDb.Find.{Found, found, missing, dangling, find_task, behind}

-- The first task of a name
unfoldable pub task_of : Str → List Slot → Option Task
task_of name [] = none
task_of name (freed ∷ slots) = none
task_of name (live t ∷ slots) = if str_eq name t.name then some t else task_of name slots

abbrev pub IsLive : Slot → Type 0
IsLive (live t) = Unit {0}
IsLive freed = ⊥

-- What the search finds in an array of tasks
abbrev pub FindResult : Str → List Slot → Found → Type 0
FindResult name slots (found i t) =
    (task_of name slots ≡ some t)
    × (t.name ≡ name)
    × ((t' : Task)
        → t'.name ≡ name
        → (j : Str)
        → task_of j (set slots i (live t')) ≡ (if str_eq name j then some t' else task_of j slots))
    × ((t' : Task) → All IsLive (set slots i (live t')))
FindResult name slots missing = task_of name slots ≡ none
FindResult name slots dangling = ⊥

find_behind :
    (name : Str) (t : Task) (slots : List Slot) (f : Found)
    → str_eq name t.name ≡ false
    → FindResult name slots f
    → FindResult name (live t ∷ slots) (behind f)
unfolding task_of
find_behind name t slots (found i u) d r = (
  rw d r.0,
  r.1,
  (λ t' e j.
      ground (arith, str_eq_iff name t.name, str_eq_iff name j, str_eq_iff j t.name, r.2 t' e j)),
  λ t'. (tt, r.3 t'),
)
find_behind name t slots missing d r = rw d r
find_behind name t slots dangling d r = r

pub find_task_result :
    (name : Str) (slots : List Slot)
    → All IsLive slots
    → FindResult name slots (find_task name slots)
unfolding find_task task_of
find_task_result name [] h = refl
find_task_result name (freed ∷ slots) h = absurd h.0
find_task_result name (live t ∷ slots) h = elim (Bool-cases (str_eq name t.name)) [
  | inl e ↦ rw e (
    rw e,
    sym ((str_eq_iff name t.name).0 e),
    (λ t' n j. ground (
      arith,
      str_eq_iff name t.name,
      str_eq_iff name j,
      str_eq_iff j t.name,
      str_eq_iff j t'.name,
    )),
    λ t'. (tt, h.1),
  )
  | inr d ↦
      rw d (find_behind name t slots (find_task name slots) d (find_task_result name slots h.1))
]
