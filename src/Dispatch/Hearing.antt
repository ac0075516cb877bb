-- ===== src/Dispatch/Hearing.antt =====
-- How an end of a task reaches the tasks that depend on it.
use crinit.Base.{ℕ, ◌≡◌, refl, ap, ◌∙◌, Bool, false, if◌then◌else◌, Option, none, some, arith}
use crinit.Base.Str.{Str, str_eq}
use crinit.Task.{Task, Dep}
use crinit.World.{World, TaskDb, Os, ◌>>◌, return}
use crinit.World.Laws.{Ends, Ends-bind}
use crinit.TaskDb.Find.Laws.{task_of}
use crinit.TaskDb.Deps.{has_dep, fulfill_dep}
use crinit.TaskDb.Deps.Removal.{IsDistinct, cleared, cleared-IsFulfilled, dep_eq_iff}
use crinit.TaskDb.Deps.Fulfil.{IsQuiet, After, fulfill_dep-Ends, task_of-clear}
use crinit.TaskDb.Provide.{provide_feature}
use crinit.TaskDb.Provide.Laws.{Serves, IsServed, provide_feature-Serves}
use crinit.TaskDb.Records.Laws.{Sets}
use crinit.Command.Control.Laws.{Sets-self}

-- The task has lost a dependency, and nothing else of it but other dependencies and the trigger has
-- changed.
pub record HasHeard (dep : Dep) (before after : Task) : Type 0 where
  pub gone : has_dep dep after.deps ≡ false
  pub distinct : IsDistinct after.deps
  pub rest : after ≡ record before { deps = after.deps; triggered = after.triggered }

-- Every task has lost it.
abbrev pub AllHear : Dep → World → World → Type 0
AllHear dep w w' =
    (j : Str) (t : Task)
    → task_of j w.db.task_set ≡ some t
    → IsDistinct t.deps
    → (t' : Task) × (task_of j w'.db.task_set ≡ some t') × HasHeard dep t t'

cleared-gone : (dep : Dep) (t : Task) → IsDistinct t.deps → has_dep dep (cleared dep t).deps ≡ false
cleared-gone dep t d =
    ground (arith, (cleared-IsFulfilled dep t d).deps dep, (dep_eq_iff dep dep).1 refl)

-- A dependency is fulfilled and features are provided.
pub fulfill_dep-provide_feature :
    (dep : Dep) (t : Task) (s : ℕ) (armed : Bool) (w : World)
    → IsQuiet w
    → w.os.syslog_option ≡ some armed
    → Ends
        (λ x w'. IsQuiet w' × AllHear dep w w')
        ((fulfill_dep dep >> (provide_feature t s >> return tt)) w)
fulfill_dep-provide_feature dep t s armed w q e =
    Ends-bind (After dep w) _ (fulfill_dep dep) _ w (fulfill_dep-Ends dep w q) (λ r v a.
      Ends-bind (Serves t.prv s v) _ (provide_feature t s) _ v
        (provide_feature-Serves t s armed v a.1 (ap (λ (o : Os). o.syslog_option) a.4 ∙ e))
        (λ r' v' k. (
          k.1,
          λ j x h d.
              let c : task_of j v.db.task_set ≡ some (cleared dep x) =
                ap (λ (y : TaskDb). task_of j y.task_set) a.2
                ∙ (task_of-clear dep j w.db.task_set
                    ∙ ap
                        (λ o. elim o as (λ _. Option Task) [
                          | none ↦ none
                          | some y ↦ some (cleared dep y)
                        ])
                        h) in
              let p : (x' : Task) × (task_of j v'.db.task_set ≡ some x')
                  × IsServed t.prv s (cleared dep x) x' =
                k.3 j (cleared dep x) c (cleared-IsFulfilled dep x d).distinct in
              (
                p.0,
                p.1,
                record {
                  gone = ground (arith, p.2.deps dep, cleared-gone dep x d);
                  distinct = p.2.distinct;
                  rest = p.2.rest;
                },
              ),
        )))

-- The task of a name is a given one but for the dependencies it lost, every other task is as before
-- but for those, and no task depends on the event any more.
pub record IsEnded (name : Str) (a : Task) (dep : Dep) (w w' : World) : Type 0 where
  pub quiet : IsQuiet w'
  pub own : (t' : Task) × (task_of name w'.db.task_set ≡ some t') × HasHeard dep a t'
  pub others :
      (j : Str) (t : Task)
      → str_eq name j ≡ false
      → task_of j w.db.task_set ≡ some t
      → IsDistinct t.deps
      → (t' : Task) × (task_of j w'.db.task_set ≡ some t') × HasHeard dep t t'

pub Sets-IsEnded :
    (name : Str) (a : Task) (dep : Dep) (w v v' w' : World)
    → IsDistinct a.deps
    → Sets name a w v
    → v'.db.task_set ≡ v.db.task_set
    → IsQuiet w'
    → AllHear dep v' w'
    → IsEnded name a dep w w'
Sets-IsEnded name a dep w v v' w' d s same q h = record {
  quiet = q;
  own = h name a (ap (task_of name) same ∙ Sets-self name a w v s) d;
  others = λ j t n e k.
      h j t
        (ap (task_of j) same
          ∙ (s.tasks j ∙ (ap (λ b. if b then some a else task_of j w.db.task_set) n ∙ e)))
        k;
}
