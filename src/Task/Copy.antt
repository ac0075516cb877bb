-- ===== src/Task/Copy.antt =====
-- `crinitTaskCopy` of src/task.c: the deep copy of a task, field by field, with its allocations in the
-- source's order.
pub mod Laws
use crinit.Base.{
  ℕ, zero, suc, ◌+◌, ◌≡◌, Bool, true, false, List, [], ◌∷◌, ◌++◌, Option, none, some, length,
  if◌then◌else◌,
}
use crinit.Base.Str.{Str, take, drop}
use crinit.EnvSet.{EnvSet, Alloc, dup}
use crinit.Task.{Task, TaskCmd, Dep, Prv, IoRedir}

-- A step of the copy: from the number of the next allocation, what it makes and the number behind it, or
-- `none` when it fails.
abbrev pub Step : Type 0 → Type 0
Step A = ℕ → Option (A × ℕ)

abbrev pub give : {A : Type 0} → A → Step A
give a n = some (a, n)

abbrev pub refuse : {A : Type 0} → Step A
refuse n = none

abbrev pub then_do : {A B : Type 0} → Step A → (A → Step B) → Step B
then_do s f n = elim (s n) [ none ↦ none | some p ↦ f p.0 p.1 ]

-- One allocation for a value
abbrev pub allocate : {A : Type 0} → Alloc → A → Step A
allocate alloc a n = if alloc n then some (a, suc n) else none

-- A step for each element
abbrev pub each : {A B : Type 0} → (A → Step B) → List A → Step (List B)
each f [] = give []
each f (x ∷ xs) = then_do (f x) λ y. then_do (each f xs) λ ys. give (y ∷ ys)

-- An array is allocated if it has elements, and then its elements are copied.
abbrev pub copy_array : {A B : Type 0} → Alloc → (A → Step B) → List A → Step (List B)
copy_array alloc f [] = give []
copy_array alloc f (x ∷ xs) = then_do (allocate alloc tt) λ _. each f (x ∷ xs)

-- `strdup` of a string that may be NULL
abbrev pub copy_option : Alloc → Option Str → Step (Option Str)
copy_option alloc none = give none
copy_option alloc (some s) = allocate alloc (some s)

-- The array `argv`, and the memory from its first string to the end of the last one in one piece, in which
-- every string keeps its place; a command has at least one argument.
abbrev pub copy_argv : Alloc → List Str → Step TaskCmd
copy_argv alloc [] = refuse
copy_argv alloc (arg ∷ args) =
    then_do (allocate alloc tt) λ _. allocate alloc (record { argv = arg ∷ args })

-- `crinitCopyCommandBlock`
unfoldable pub copy_command_block : Alloc → List TaskCmd → Step (List TaskCmd)
copy_command_block alloc = copy_array alloc λ cmd. copy_argv alloc cmd.argv

-- `crinitIoRedirCpy`
unfoldable pub io_redir_cpy : Alloc → IoRedir → Step IoRedir
io_redir_cpy alloc r = then_do (copy_option alloc r.path) λ path. give (record r { path = path })

-- The memory of a dependency: the name and the event behind it, each with its null byte
abbrev pub backing : Dep → Str
backing d = d.name ++ (0 ∷ (d.event ++ 0 ∷ []))

-- The strings of a dependency in a memory, the event right behind the name. The lengths are those without
-- the null bytes.
abbrev pub dep_at : ℕ → ℕ → Str → Dep
dep_at n k buf = record { name = take n buf; event = take k (drop (suc n) buf) }

-- An element of `deps` or `trig`: so many bytes from the name on as name and event have, in one piece
unfoldable pub copy_dep : Alloc → Dep → Step Dep
copy_dep alloc d = allocate alloc (
    dep_at (length d.name) (length d.event)
      (take (length d.name + 1 + (length d.event + 1)) (backing d)))

unfoldable pub copy_prv : Alloc → Prv → Step Prv
copy_prv alloc p = allocate alloc (record { name = p.name; state_req = p.state_req })

abbrev pub strings_of : List (Option Str) → ℕ
strings_of [] = 0
strings_of (none ∷ slots) = 0
strings_of (some s ∷ slots) = suc (strings_of slots)

-- How many allocations `crinitEnvSetDup` has made when it succeeds
abbrev pub taken : EnvSet → ℕ
taken es = elim es.envp [ none ↦ 0 | some slots ↦ suc (strings_of slots) ]

-- `crinitEnvSetDup`, with its allocations numbered from the next one on
unfoldable pub copy_set : Alloc → EnvSet → Step EnvSet
copy_set alloc es n = elim (dup (λ i. alloc (n + i)) es) [
  | none ↦ none
  | some es' ↦ some (es', n + taken es')
]

-- What is copied behind the sets of variables, into a task that has the fields before
unfoldable pub copy_rest : Alloc → Task → Task → Step Task
unfolding copy_dep copy_prv io_redir_cpy
copy_rest alloc t out = then_do (copy_array alloc (copy_dep alloc) t.deps) λ deps.
    then_do (copy_array alloc (copy_dep alloc) t.trig) λ trig.
      then_do (copy_array alloc (copy_prv alloc) t.prv) λ prv.
        then_do (copy_array alloc (io_redir_cpy alloc) t.redirs) λ redirs.
          then_do (copy_option alloc t.username) λ username.
            then_do (copy_option alloc t.groupname) λ groupname.
              then_do (copy_array alloc give t.sup_groups) λ sup_groups. give (record out {
                deps = deps;
                trig = trig;
                prv = prv;
                redirs = redirs;
                username = username;
                groupname = groupname;
                sup_groups = sup_groups;
              })

-- The fields up to the commands
unfoldable pub copy_first : Alloc → Task → Step (Str × List TaskCmd)
unfolding copy_command_block
copy_first alloc t =
    then_do (allocate alloc t.name)
      λ name. then_do (copy_command_block alloc t.cmds) λ cmds. give (name, cmds)

-- The fields behind them
unfoldable pub copy_second : Alloc → Task → Str × List TaskCmd → Step Task
unfolding copy_command_block copy_set copy_rest
copy_second alloc t first = then_do (copy_command_block alloc t.stop_cmds) λ stop_cmds.
    then_do (copy_set alloc t.task_env) λ env. then_do (copy_set alloc t.elos_filters) λ filters.
      copy_rest alloc t (record t {
        name = first.0;
        cmds = first.1;
        stop_cmds = stop_cmds;
        task_env = env;
        elos_filters = filters;
      })

-- `crinitTaskCopy`. On a failure the copy is destroyed. If the name or the commands could not be
-- copied, the pointer to the stop commands is still that of the original, whose stop commands are
-- then destroyed too.
pub data Copy : Type 0 where
  copied : Task → Copy
  failed : Copy
  failed_with_original : Copy

abbrev pub fails_early : List TaskCmd → Copy
fails_early [] = failed
fails_early (c ∷ cs) = failed_with_original

unfoldable pub copy_task : Alloc → ℕ → Task → Copy
unfolding copy_first copy_second
copy_task alloc n t = elim (copy_first alloc t n) [
  | none ↦ fails_early t.stop_cmds
  | some p ↦ elim (copy_second alloc t p.0 p.1) [ none ↦ failed | some q ↦ copied q.0 ]
]
