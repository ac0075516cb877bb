-- ===== src/Task/Copy/Laws.antt =====
-- When a deep copy succeeds, and what it is.
use crinit.Base.{
  ℕ, suc, ◌+◌, ◌≡◌, refl, ap, true, List, [], ◌∷◌, ◌++◌, Option, none, some, ◌≢◌, All, length,
  arith,
}
use crinit.Base.Str.{Str, take, drop, take-length}
use crinit.EnvSet.{EnvSet, Alloc}
use crinit.EnvSet.Laws.{IsWellFormed}
use crinit.EnvSet.Lifetime.{destroy-dup}
use crinit.Task.{Task, TaskCmd, Dep, Prv, IoRedir}
use crinit.Task.Copy.{
  Step, give, then_do, allocate, each, copy_array, copy_option, copy_argv, copy_command_block,
  io_redir_cpy, backing, dep_at, copy_dep, copy_prv, taken, copy_set, copy_rest, copy_first,
  copy_second, copied, copy_task,
}

-- The step succeeds and makes the value, whatever the number of the next allocation is.
abbrev Gives : {A : Type 0} → Step A → A → Type 0
Gives s a = (n : ℕ) → (m : ℕ) × (s n ≡ some (a, m))

abbrev pub HasArgument : TaskCmd → Type 0
HasArgument cmd = cmd.argv ≢ []

length-join : (a b : Str) → length (a ++ 0 ∷ b) ≡ length a + 1 + length b
length-join [] b = omega arith
length-join (c ∷ a) b = omega (arith, length-join a b)

length-backing :
    (d : Dep)
    → length d.name + 1 + (length d.event + 1) ≡ length (d.name ++ (0 ∷ (d.event ++ 0 ∷ [])))
length-backing d = omega (arith, length-join d.name (d.event ++ 0 ∷ []), length-join d.event [])

take-all : (s : Str) (n : ℕ) → n ≡ length s → take n s ≡ s
unfolding take
take-all s n e = rw e (all s)
  where
    all : (r : Str) → take (length r) r ≡ r
    all [] = refl
    all (c ∷ r) = ap (λ (l : Str). c ∷ l) (all r)

drop-behind : (a b : Str) → drop (suc (length a)) (a ++ 0 ∷ b) ≡ b
unfolding drop
drop-behind [] b = refl
drop-behind (c ∷ a) b = drop-behind a b

-- The block is the whole memory of the dependency, in which name and event are found again.
dep_at-backing :
    (d : Dep)
    → dep_at
        (length d.name)
        (length d.event)
        (take (length d.name + 1 + (length d.event + 1)) (backing d))
      ≡ d
dep_at-backing d =
    rw (take-all (backing d) (length d.name + 1 + (length d.event + 1)) (length-backing d)) (
      rw (take-length d.name (0 ∷ (d.event ++ 0 ∷ [])))
        (rw (drop-behind d.name (d.event ++ 0 ∷ [])) (rw (take-length d.event (0 ∷ [])) refl)))

module _ (alloc : Alloc) (mem : (i : ℕ) → alloc i ≡ true) where
  allocate-Gives : {A : Type 0} (a : A) → Gives (allocate alloc a) a
  allocate-Gives a n = (suc n, rw (mem n) refl)

  then_do-Gives :
      {A B : Type 0} (s : Step A) (f : A → Step B) (a : A) (b : B)
      → Gives s a
      → Gives (f a) b
      → Gives (then_do s f) b
  then_do-Gives s f a b h k n = ((k (h n).0).0, rw ((h n).1, then_do) ((k (h n).0).1))

  give-Gives : {A : Type 0} (a : A) → Gives (give a) a
  give-Gives a n = (n, refl)

  each-Gives :
      {A : Type 0} (P : A → Type 0) (f : A → Step A)
      → ((x : A) → P x → Gives (f x) x)
      → (xs : List A) → All P xs
      → Gives (each f xs) xs
  each-Gives P f h [] l = give-Gives []
  each-Gives P f h (x ∷ xs) l =
      then_do-Gives (f x) _ x (x ∷ xs) (h x l.0)
        (then_do-Gives (each f xs) _ xs (x ∷ xs) (each-Gives P f h xs l.1) (give-Gives (x ∷ xs)))

  copy_array-Gives :
      {A : Type 0} (P : A → Type 0) (f : A → Step A)
      → ((x : A) → P x → Gives (f x) x)
      → (xs : List A) → All P xs
      → Gives (copy_array alloc f xs) xs
  copy_array-Gives P f h [] l = give-Gives []
  copy_array-Gives P f h (x ∷ xs) l =
      then_do-Gives (allocate alloc tt) _ tt (x ∷ xs) (allocate-Gives tt)
        (each-Gives P f h (x ∷ xs) l)

  copy_option-Gives : (o : Option Str) → Gives (copy_option alloc o) o
  copy_option-Gives none = give-Gives none
  copy_option-Gives (some s) = allocate-Gives (some s)

  All-any : {A : Type 0} (xs : List A) → All (λ x. Unit {0}) xs
  All-any [] = tt
  All-any (x ∷ xs) = (tt, All-any xs)

  any_array-Gives :
      {A : Type 0} (f : A → Step A)
      → ((x : A) → Gives (f x) x)
      → (xs : List A) → Gives (copy_array alloc f xs) xs
  any_array-Gives f h xs = copy_array-Gives (λ x. Unit {0}) f (λ x _. h x) xs (All-any xs)

  copy_argv-Gives : (cmd : TaskCmd) → HasArgument cmd → Gives (copy_argv alloc cmd.argv) cmd
  copy_argv-Gives cmd h = go cmd.argv h
    where
      go : (argv : List Str) → argv ≢ [] → Gives (copy_argv alloc argv) (record { argv = argv })
      go [] h = absurd (h refl)
      go (arg ∷ args) h =
          then_do-Gives (allocate alloc tt) _ tt (record { argv = arg ∷ args }) (allocate-Gives tt)
            (allocate-Gives (record { argv = arg ∷ args }))

  copy_command_block-Gives :
      (cmds : List TaskCmd) → All HasArgument cmds → Gives (copy_command_block alloc cmds) cmds
  unfolding copy_command_block
  copy_command_block-Gives =
      copy_array-Gives HasArgument (λ cmd. copy_argv alloc cmd.argv) copy_argv-Gives

  copy_dep-Gives : (d : Dep) → Gives (copy_dep alloc d) d
  unfolding copy_dep
  copy_dep-Gives d n = (suc n, rw (dep_at-backing d) (rw (mem n) refl))

  copy_prv-Gives : (p : Prv) → Gives (copy_prv alloc p) p
  unfolding copy_prv
  copy_prv-Gives p = allocate-Gives p

  io_redir_cpy-Gives : (r : IoRedir) → Gives (io_redir_cpy alloc r) r
  unfolding io_redir_cpy
  io_redir_cpy-Gives r =
      then_do-Gives (copy_option alloc r.path) _ r.path r (copy_option-Gives r.path) (give-Gives r)

  copy_set-Gives : (es : EnvSet) → IsWellFormed es → Gives (copy_set alloc es) es
  unfolding copy_set
  copy_set-Gives es wf n = (
    n + taken es,
    rw ((destroy-dup (λ i. alloc (n + i)) es wf (λ i. mem (n + i))).0, copy_set) refl,
  )

  copy_rest-Gives : (t : Task) → Gives (copy_rest alloc t t) t
  unfolding copy_rest
  copy_rest-Gives t =
      then_do-Gives _ _ t.deps t (any_array-Gives (copy_dep alloc) copy_dep-Gives t.deps) (
        then_do-Gives _ _ t.trig t (any_array-Gives (copy_dep alloc) copy_dep-Gives t.trig) (
          then_do-Gives _ _ t.prv t (any_array-Gives (copy_prv alloc) copy_prv-Gives t.prv) (
            then_do-Gives _ _ t.redirs t
              (any_array-Gives (io_redir_cpy alloc) io_redir_cpy-Gives t.redirs)
              (then_do-Gives _ _ t.username t (copy_option-Gives t.username) (
                then_do-Gives _ _ t.groupname t (copy_option-Gives t.groupname) (
                  then_do-Gives _ _ t.sup_groups t (any_array-Gives give give-Gives t.sup_groups)
                    (give-Gives t)))))))

  pub copy_task-copied :
      (n : ℕ) (t : Task)
      → All HasArgument t.cmds
      → All HasArgument t.stop_cmds
      → IsWellFormed t.task_env
      → IsWellFormed t.elos_filters
      → copy_task alloc n t ≡ copied t
  unfolding copy_task copy_first copy_second
  copy_task-copied n t c s e f =
      let first : Gives (copy_first alloc t) (t.name, t.cmds) =
        then_do-Gives _ _ t.name (t.name, t.cmds) (allocate-Gives t.name)
          (then_do-Gives _ _ t.cmds (t.name, t.cmds) (copy_command_block-Gives t.cmds c)
            (give-Gives (t.name, t.cmds))) in
      let second : Gives (copy_second alloc t (t.name, t.cmds)) t =
        then_do-Gives _ _ t.stop_cmds t (copy_command_block-Gives t.stop_cmds s) (
          then_do-Gives _ _ t.task_env t (copy_set-Gives t.task_env e) (
            then_do-Gives _ _ t.elos_filters t (copy_set-Gives t.elos_filters f)
              (copy_rest-Gives t))) in
      rw ((first n).1, copy_task) (rw ((second (first n).0).1) refl)
