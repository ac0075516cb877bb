-- ===== src/Command/Control/Laws.antt =====
-- What `ENABLE`, `DISABLE` and `RESTART` do to a task.
use crinit.Base.{
  ℕ, ◌≡◌, refl, sym, ap, subst, ◌∙◌, ◌⊎◌, inl, inr, true, false, ◌||◌, List, [], ◌∷◌, ◌++◌, length,
  length-append, if◌then◌else◌, arith, Bool-cases, Option, none, some, Status, ok, err,
}
use crinit.Base.Str.{Str, str_eq, str_eq_refl, codes}
use crinit.Task.{Task, Dep}
use crinit.World.{World, M, ◌>>=◌, on_status}
use crinit.World.Laws.{Ends, Ends-bind, Ends-weaken, Ends-branch, absurd_test}
use crinit.TaskDb.Find.Laws.{task_of}
use crinit.TaskDb.Deps.{has_dep, remove_dep_from_task, add_dep_to_task}
use crinit.TaskDb.Deps.Removal.{cleared, dep_eq_iff}
use crinit.TaskDb.Records.RoundTrip.{has_dep-append, some_ne_none}
use crinit.TaskDb.Deps.Fulfil.{IsQuiet}
use crinit.TaskDb.Deps.Plain.{
  remove_dep_from_task-Modifies, add_dep_to_task-Modifies, added, swap_remove-append,
}
use crinit.TaskDb.Ready.{task_is_ready}
use crinit.TaskDb.Records.Laws.{Sets, Keeps, Modifies}
use crinit.Rtim.{RtimOp, r_enable, r_disable}
use crinit.Rtim.Cmd.{RtimCmd}
use crinit.Command.{Memory, build_cmd, succeed, refuse, res_ok, res_err}
use crinit.Command.Control.{enable_dep, exec_enable, exec_disable}

-- A handler that changes the task of a name says so, or gives the reason why there is no such task.
abbrev pub Controls :
    Memory → RtimOp → Str → Str → (Task → Task) → World → Option RtimCmd → World → Type 0
Controls mem op reason name f w out w' =
    (out ≡ build_cmd mem.response op (res_ok ∷ []))
      × ((t : Task) × (task_of name w.db.task_set ≡ some t) × Sets name (f t) w w')
    ⊎ (out ≡ build_cmd mem.response op (res_err ∷ reason ∷ []))
      × (task_of name w.db.task_set ≡ none)
      × Keeps w w'

-- The response after a call on the task
Ends-answer :
    (mem : Memory) (op : RtimOp) (reason name : Str) (f : Task → Task) (m : M Status) (w : World)
    → Ends (Modifies name f w) (m w)
    → Ends
        (Controls mem op reason name f w)
        ((m >>= λ s. on_status s (succeed mem op) (refuse mem op reason)) w)
Ends-answer mem op reason name f m w h =
    Ends-bind (Modifies name f w) (Controls mem op reason name f w) m _ w h go
  where
    go :
        (s : Status) (v : World)
        → Modifies name f w s v
        → Ends
            (Controls mem op reason name f w)
            (on_status s (succeed mem op) (refuse mem op reason) v)
    go ok v (inl c) = inl (refl, c.1)
    go ok v (inr c) = ground (arith, c.0)
    go err v (inl c) = ground (arith, c.0)
    go err v (inr c) = inr (refl, c.1, c.2)

pub exec_enable-Controls :
    (mem : Memory) (op : RtimOp) (name : Str) (w : World)
    → IsQuiet w
    → mem.temporary ≡ true
    → Ends
        (Controls mem r_enable
          (codes "Could not remove 'enable' dependency from task.")
          name
          (cleared enable_dep)
          w)
        (exec_enable mem (record { op = op; args = name ∷ [] }) w)
unfolding exec_enable str_eq
exec_enable-Controls mem op name w q m =
    Ends-branch _ mem.temporary _ _ w
      (λ _.
        Ends-answer mem r_enable _ name (cleared enable_dep) (remove_dep_from_task enable_dep name)
          w (remove_dep_from_task-Modifies enable_dep refl name w q))
      (λ f. absurd (absurd_test m f))

pub exec_disable-Controls :
    (mem : Memory) (op : RtimOp) (name : Str) (w : World)
    → IsQuiet w
    → mem.temporary ≡ true
    → ((i : ℕ) → w.os.alloc i ≡ true)
    → Ends
        (Controls mem r_disable
          (codes "Could not add dependency to task.")
          name
          (added enable_dep)
          w)
        (exec_disable mem (record { op = op; args = name ∷ [] }) w)
unfolding exec_disable
exec_disable-Controls mem op name w q m alloc =
    Ends-branch _ mem.temporary _ _ w
      (λ _.
        Ends-answer mem r_disable _ name (added enable_dep) (add_dep_to_task enable_dep name) w
          (add_dep_to_task-Modifies enable_dep name w q alloc))
      (λ f. absurd (absurd_test m f))

has_dep-not_ready : (d : Dep) (t : Task) → has_dep d t.deps ≡ true → task_is_ready t ≡ false
unfolding task_is_ready has_dep
has_dep-not_ready d t h = go t.deps refl h
  where
    go : (l : List Dep) → t.deps ≡ l → has_dep d l ≡ true → task_is_ready t ≡ false
    go [] e h = ground (arith, h)
    go (x ∷ l) e h = rw e refl

has_dep-added : (d : Dep) (t : Task) → has_dep d (added d t).deps ≡ true
has_dep-added d t = elim (Bool-cases (has_dep d t.deps)) [
  | inl e ↦ rw e e
  | inr e ↦ rw e (has_dep-append t.deps d d ∙ ground (arith, (dep_eq_iff d d).1 refl))
]

added-not_ready : (t : Task) → task_is_ready (added enable_dep t) ≡ false
added-not_ready t = has_dep-not_ready enable_dep (added enable_dep t) (has_dep-added enable_dep t)

-- The task after DISABLE and ENABLE
abbrev pub reenabled : Task → Task
reenabled t = record t { triggered = t.triggered || has_dep enable_dep t.trig }

cleared-added :
    (t : Task)
    → has_dep enable_dep t.deps ≡ false
    → cleared enable_dep (added enable_dep t) ≡ reenabled t
cleared-added t h =
    ap (λ b. cleared enable_dep (if b then t else record t { deps = t.deps ++ enable_dep ∷ [] })) h
    ∙ ap (λ l. record (reenabled t) { deps = l })
        (swap_remove-append (length (t.deps ++ enable_dep ∷ [])) enable_dep t.deps
          (omega (arith, length-append t.deps (enable_dep ∷ []))) h)

pub Sets-trans :
    (name : Str) (a b : Task) (u v w : World) → Sets name a u v → Sets name b v w → Sets name b u w
Sets-trans name a b u v w x y = record {
  quiet = y.quiet;
  tasks = λ j. ground (arith, x.tasks j, y.tasks j);
  pool = y.pool ∙ x.pool;
  os = y.os ∙ x.os;
  threads = y.threads ∙ x.threads;
  procs = y.procs ∙ x.procs;
}

pub Sets-self :
    (name : Str) (a : Task) (u v : World) → Sets name a u v → task_of name v.db.task_set ≡ some a
Sets-self name a u v x =
    x.tasks name ∙ ap (λ b. if b then some a else task_of name u.db.task_set) (str_eq_refl name)

pub some_inj : {a b : Task} → some a ≡ some b → a ≡ b
some_inj e = ground (arith, e)

-- Of a call on a task that is there
Controls-there :
    (mem : Memory) (op : RtimOp) (reason name : Str) (f : Task → Task) (t : Task) (w : World)
    (out : Option RtimCmd) (v : World)
    → task_of name w.db.task_set ≡ some t
    → Controls mem op reason name f w out v
    → (out ≡ build_cmd mem.response op (res_ok ∷ [])) × Sets name (f t) w v
Controls-there mem op reason name f t w out v e (inl c) =
    (c.0, subst (λ x. Sets name (f x) w v) (some_inj (sym c.1.1 ∙ e)) c.1.2)
Controls-there mem op reason name f t w out v e (inr c) = absurd (some_ne_none (sym e ∙ c.1))

-- DISABLE for a task that does not depend on being enabled, in a quiet state with memory, leaves it not
-- ready; ENABLE after it gives the task back as it was, triggered if that dependency is a trigger of it,
-- and changes no other task. Both responses are positive.
pub exec_enable-exec_disable :
    (mem : Memory) (op op' : RtimOp) (name : Str) (t : Task) (w : World)
    → IsQuiet w
    → mem.temporary ≡ true
    → ((i : ℕ) → w.os.alloc i ≡ true)
    → task_of name w.db.task_set ≡ some t
    → has_dep enable_dep t.deps ≡ false
    → Ends
        (λ out v.
          (out ≡ build_cmd mem.response r_disable (res_ok ∷ []))
          × ((t' : Task) × (task_of name v.db.task_set ≡ some t') × (task_is_ready t' ≡ false))
          × Ends
              (λ out' v'.
                (out' ≡ build_cmd mem.response r_enable (res_ok ∷ []))
                × Sets name (reenabled t) w v')
              (exec_enable mem (record { op = op'; args = name ∷ [] }) v))
        (exec_disable mem (record { op = op; args = name ∷ [] }) w)
exec_enable-exec_disable mem op op' name t w q m alloc e absent =
    Ends-weaken _ _ (exec_disable mem (record { op = op; args = name ∷ [] }) w)
      (exec_disable-Controls mem op name w q m alloc)
      (λ out v c.
        let d : (out ≡ build_cmd mem.response r_disable (res_ok ∷ []))
            × Sets name (added enable_dep t) w v =
          Controls-there mem r_disable _ name (added enable_dep) t w out v e c in
        (
          d.0,
          (added enable_dep t, Sets-self name (added enable_dep t) w v d.1, added-not_ready t),
          Ends-weaken _ _ (exec_enable mem (record { op = op'; args = name ∷ [] }) v)
              (exec_enable-Controls mem op' name v d.1.quiet m)
              (λ out' v' c'.
                let r : (out' ≡ build_cmd mem.response r_enable (res_ok ∷ []))
                    × Sets name (cleared enable_dep (added enable_dep t)) v v' =
                  Controls-there mem r_enable _ name (cleared enable_dep) (added enable_dep t) v
                    out' v' (Sets-self name (added enable_dep t) w v d.1) c' in
                (
                  r.0,
                  Sets-trans name (added enable_dep t) (reenabled t) w v v' d.1
                      (subst (λ x. Sets name x v v') (cleared-added t absent) r.1),
                )),
        ))
