-- ===== src/TaskDb/Provide/Laws.antt =====
-- Which dependencies are left when a task provides its features.
use crinit.Base.{
  ℕ, ◌≡◌, refl, sym, ap, subst, ◌∙◌, Bool, true, false, not, ◌&&◌, ◌||◌, List, [], ◌∷◌, Option,
  none, some, ◌==◌, arith, Status, ok, err,
}
use crinit.Base.Str.{Str}
use crinit.Task.{Task, Dep, Prv, dep_eq, provide_dep_name, Mode}
use crinit.World.{World, Os, TaskDb, ret, blocked, return, branch, on_option}
use crinit.World.Laws.{
  Ends, Ends-bind, Ends-weaken, Ends-lock_db, Ends-branch, Ends-on_status, lock_db-blocked, hold_db,
}
use crinit.TaskDb.Find.{with_task}
use crinit.TaskDb.Find.Laws.{task_of}
use crinit.TaskDb.Deps.{has_dep, fulfill_dep}
use crinit.TaskDb.Deps.Removal.{IsDistinct, cleared, cleared-IsFulfilled}
use crinit.TaskDb.Deps.Fulfil.{IsQuiet, After, fulfill_dep-Ends, task_of-clear}
use crinit.TaskDb.Records.{get_task_state, set_task_state, read_task}
use crinit.TaskDb.Ready.{spawn_ready}
use crinit.TaskDb.Records.Laws.{Ends-find}
use crinit.TaskDb.Insert.{feature_hook, HookType, hook_start, hook_stop, is_syslog_start}
use crinit.TaskDb.Provide.{provide_features, provide_feature, provide_feature_by_task_name}

abbrev pub feature_dep : Prv → Dep
feature_dep p = record { name = provide_dep_name; event = p.name }

-- The dependency is on a feature that is provided in the state.
unfoldable pub provides : List Prv → ℕ → Dep → Bool
provides [] s d = false
provides (p ∷ prv) s d = p.state_req == s && dep_eq (feature_dep p) d || provides prv s d

-- The task has lost the dependencies on the provided features and no others.
pub record IsServed (prv : List Prv) (s : ℕ) (before after : Task) : Type 0 where
  pub distinct : IsDistinct after.deps
  pub deps : (d : Dep) → has_dep d after.deps ≡ (has_dep d before.deps && not (provides prv s d))
  pub rest : after ≡ record before { deps = after.deps; triggered = after.triggered }

abbrev pub Serves : List Prv → ℕ → World → Status → World → Type 0
Serves prv s w res w' =
    (res ≡ ok)
    × IsQuiet w'
    × (w'.threads ≡ w.threads)
    × ((j : Str) (t : Task)
        → task_of j w.db.task_set ≡ some t
        → IsDistinct t.deps
        → (t' : Task) × (task_of j w'.db.task_set ≡ some t') × IsServed prv s t t')

Hooked : World → Status → World → Type 0
Hooked w res v = (res ≡ ok) × (v ≡ record w { use_syslog = v.use_syslog })

feature_hook-Hooked :
    (name : Option Str) (type : HookType) (armed : Bool) (w : World)
    → w.os.syslog_option ≡ some armed
    → Ends (Hooked w) (feature_hook name type w)
unfolding feature_hook Hooked
feature_hook-Hooked name type armed w e =
    Ends-branch (Hooked w) (is_syslog_start name type) _ _ w
      (λ _.
        subst
          (λ o. Ends (Hooked w) (
            on_option o (return err)
              (λ a. branch a (λ v. ret ok (record v { use_syslog = true })) (return ok)) w))
          (sym e) (go armed))
      (λ _. (refl, refl))
  where
    go :
        (b : Bool)
        → Ends (Hooked w) (
            on_option
              (some b)
              (return err)
              (λ a. branch a (λ v. ret ok (record v { use_syslog = true })) (return ok))
              w)
    go true = (refl, refl)
    go false = (refl, refl)

-- One step of the loop, before the next
record Steps (p : Prv) (s : ℕ) (w v : World) : Type 0 where
  pub quiet : IsQuiet v
  pub threads : v.threads ≡ w.threads
  pub os : v.os ≡ w.os
  pub tasks :
      (j : Str) (t : Task)
      → task_of j w.db.task_set ≡ some t
      → IsDistinct t.deps
      → (t' : Task) × (task_of j v.db.task_set ≡ some t') × IsServed (p ∷ []) s t t'

Steps-then :
    (p : Prv) (prv : List Prv) (s : ℕ) (w v : World) (res : Status) (w' : World)
    → Steps p s w v
    → Serves prv s v res w'
    → Serves (p ∷ prv) s w res w'
unfolding provides
Steps-then p prv s w v res w' h k = (
  k.0,
  k.1,
  k.2 ∙ h.threads,
  λ j t e d.
      let first : (t' : Task) × (task_of j v.db.task_set ≡ some t') × IsServed (p ∷ []) s t t' =
        h.tasks j t e d in
      let second : (t' : Task) × (task_of j w'.db.task_set ≡ some t') × IsServed prv s first.0 t' =
        k.3 j first.0 first.1 first.2.distinct in
      (
        second.0,
        second.1,
        record {
          distinct = second.2.distinct;
          deps = λ x. ground (arith, first.2.deps x, second.2.deps x);
          rest =
              second.2.rest
              ∙ ap (λ (x : Task). record x { deps = second.0.deps; triggered = second.0.triggered })
                  first.2.rest;
        },
      ),
)

Hooked-IsQuiet : (v : World) (res : Status) (v' : World) → IsQuiet v → Hooked v res v' → IsQuiet v'
unfolding Hooked
Hooked-IsQuiet v res v' q h = subst IsQuiet (sym h.1) (record {
  lockable = q.lockable;
  free = q.free;
  open_pool = record { lockable = q.open_pool.lockable; pool = q.open_pool.pool };
  live_tasks = q.live_tasks;
})

fulfilled_step :
    (p : Prv) (s : ℕ) (w : World) (res res' : Status) (v v' : World)
    → (p.state_req == s) ≡ true
    → After (feature_dep p) w res v
    → Hooked v res' v'
    → Steps p s w v'
unfolding Hooked provides
fulfilled_step p s w res res' v v' req a h = record {
  quiet = Hooked-IsQuiet v res' v' a.1 h;
  threads = ap (λ (u : World). u.threads) h.1 ∙ a.3;
  os = ap (λ (u : World). u.os) h.1 ∙ a.4;
  tasks = λ j t e d. (
    cleared (feature_dep p) t,
    ap (λ (u : World). task_of j u.db.task_set) h.1
        ∙ (ap (λ (x : TaskDb). task_of j x.task_set) a.2
            ∙ (task_of-clear (feature_dep p) j w.db.task_set
                ∙ ap (λ o. elim o [ none ↦ none | some x ↦ some (cleared (feature_dep p) x) ]) e)),
    record {
      distinct = (cleared-IsFulfilled (feature_dep p) t d).distinct;
      deps = λ x. ground (arith, req, (cleared-IsFulfilled (feature_dep p) t d).deps x);
      rest = refl;
    },
  );
}

stopped_step :
    (p : Prv) (s : ℕ) (w : World) (res : Status) (v : World)
    → (p.state_req == s) ≡ false
    → IsQuiet w
    → Hooked w res v
    → Steps p s w v
unfolding Hooked provides
stopped_step p s w res v req q h = record {
  quiet = Hooked-IsQuiet w res v q h;
  threads = ap (λ (u : World). u.threads) h.1;
  os = ap (λ (u : World). u.os) h.1;
  tasks = λ j t e d. (
    t,
    ap (λ (u : World). task_of j u.db.task_set) h.1 ∙ e,
    record { distinct = d; deps = λ x. ground (arith, req); rest = refl },
  );
}

provide_features-Serves :
    (prv : List Prv) (s : ℕ) (armed : Bool) (w : World)
    → IsQuiet w
    → w.os.syslog_option ≡ some armed
    → Ends (Serves prv s w) (provide_features prv s w)
unfolding provide_features Hooked provides
provide_features-Serves [] s armed w q e = (
  refl,
  q,
  refl,
  λ j t h d. (t, h, record { distinct = d; deps = λ x. ground arith; rest = refl }),
)
provide_features-Serves (p ∷ prv) s armed w q e =
    let go : (v : World) → Steps p s w v → Ends (Serves (p ∷ prv) s w) (provide_features prv s v) =
      λ v h.
        Ends-weaken (Serves prv s v) (Serves (p ∷ prv) s w) (provide_features prv s v)
          (provide_features-Serves prv s armed v h.quiet
            (ap (λ (o : Os). o.syslog_option) h.os ∙ e))
          (λ res w' k. Steps-then p prv s w v res w' h k) in
    Ends-branch (Serves (p ∷ prv) s w) (p.state_req == s) _ _ w
      (λ req.
        Ends-bind (After (feature_dep p) w) (Serves (p ∷ prv) s w) (fulfill_dep (feature_dep p)) _ w
          (fulfill_dep-Ends (feature_dep p) w q)
          (λ res v a. Ends-on_status (Serves (p ∷ prv) s w) _ _ res v a.0 (
            Ends-bind (Hooked v) (Serves (p ∷ prv) s w) (feature_hook (some p.name) hook_start) _ v
              (feature_hook-Hooked (some p.name) hook_start armed v
                (ap (λ (o : Os). o.syslog_option) a.4 ∙ e))
              (λ res' v' h.
                Ends-on_status (Serves (p ∷ prv) s w) _ _ res' v' h.0
                  (go v' (fulfilled_step p s w res res' v v' req a h))))))
      (λ req.
        Ends-bind (Hooked w) (Serves (p ∷ prv) s w) (feature_hook (some p.name) hook_stop) _ w
          (feature_hook-Hooked (some p.name) hook_stop armed w e)
          (λ res v h.
            Ends-on_status (Serves (p ∷ prv) s w) _ _ res v h.0
              (go v (stopped_step p s w res v req q h))))

-- `crinitTaskDBProvideFeature` in a quiet state in which the option for syslog can be read returns 0
-- and leaves a quiet state: every task without duplicate dependencies has lost the dependencies on the
-- features that the provider has for the new state, and no others. No thread is started.
pub provide_feature-Serves :
    (provider : Task) (s : ℕ) (armed : Bool) (w : World)
    → IsQuiet w
    → w.os.syslog_option ≡ some armed
    → Ends (Serves provider.prv s w) (provide_feature provider s w)
unfolding provide_feature
provide_feature-Serves provider s armed w q e = provide_features-Serves provider.prv s armed w q e

some_ne_none : {t : Task} → some t ≡ none → ⊥
some_ne_none e = ground (arith, e)

-- For a name without a task in a quiet state, `crinitTaskDBProvideFeatureByTaskName` returns -1 and
-- leaves the database locked: a call that sets or reads the state of a task, or starts the ready
-- tasks, then waits forever.
pub provide_feature_by_task_name-blocked :
    (name : Str) (s : ℕ) (w : World)
    → IsQuiet w
    → task_of name w.db.task_set ≡ none
    → Ends
        (λ res w'.
          (res ≡ err)
          × ((j : Str) (n : ℕ) → set_task_state n j w' ≡ blocked)
          × ((j : Str) → get_task_state j w' ≡ blocked)
          × ((mode : Mode) → spawn_ready mode w' ≡ blocked))
        (provide_feature_by_task_name name s w)
unfolding provide_feature_by_task_name set_task_state get_task_state spawn_ready with_task read_task
provide_feature_by_task_name-blocked name s w q h = Ends-lock_db _ _ w q.lockable q.free (
    Ends-find _ name _ _ w (hold_db w) q (λ i t r. absurd (some_ne_none (sym r.0 ∙ h)))
      (λ _. (
        refl,
        (λ j n. lock_db-blocked _ (hold_db w) q.lockable refl),
        (λ j. lock_db-blocked _ (hold_db w) q.lockable refl),
        λ mode. lock_db-blocked _ (hold_db w) q.lockable refl,
      )))
