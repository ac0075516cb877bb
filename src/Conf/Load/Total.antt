-- ===== src/Conf/Load/Total.antt =====
-- `crinitTaskCreateFromConfKvList` always returns.
use crinit.Base.{◌≡◌, ◌≢◌, refl, subst, false, ◌&&◌, List, [], ◌∷◌, ◌++◌, Option, none, some}
use crinit.Base.Str.{Str}
use crinit.EnvSet.{EnvSet}
use crinit.EnvSet.Laws.{IsWellFormed}
use crinit.Task.{Task}
use crinit.World.{World, M, return}
use crinit.World.Laws.{Ends, Ends-bind, Ends-branch}
use crinit.TaskDb.Deps.Removal.{IsOpen}
use crinit.Conf.StrArr.{Mem, part}
use crinit.Conf.Map.Laws.{IsBsearch}
use crinit.Conf.Handler.{Host, Draft, fail}
use crinit.Conf.Load.{
  standard, included, Merge, given, merge_file, set_from_conf_kv_list, blank, is_empty, finish_task,
  create_from_conf_kv_list,
}
use crinit.Conf.Load.Depth.{set_from_conf_kv_list-depth}
use crinit.Conf.Load.Handlers.{HasSoundParts, IsSound, SoundResult, After, on_option-Ends}
use crinit.Conf.Load.DepLists.{CopiesTimers}
use crinit.Conf.Load.Entries.{AreReadable, MergeEnds, set_entries-Ends}

-- What is asked of the system: `bsearch` is that of the C standard, the names of timers can be
-- copied, files have options and readable values, and the global set of variables is well formed.
pub record IsUsable (host : Host) : Type 0 where
  pub searches : IsBsearch host.bsearch
  pub copies_timers : CopiesTimers host
  pub readable_files :
      (path : Str) (src : List (Str × Str))
      → host.parse_conf path ≡ some src
      → AreReadable host src × (src ≢ [])
  pub global_env : (env : EnvSet) → host.glob_env ≡ some env → IsWellFormed env

-- A task that was made: it has a command or a dependency, it is triggered exactly if it has no trigger,
-- and it has not been started.
pub record IsMade (t : Task) : Type 0 where
  pub has_work : (is_empty t.cmds && is_empty t.deps) ≡ false
  pub waits_for_trigger : t.triggered ≡ is_empty t.trig
  pub sound : HasSoundParts t.task_env t.redirs t.state t.pid

abbrev pub MadeResult : Option Task → World → Type 0
MadeResult none w = IsOpen w
MadeResult (some t) w = IsOpen w × IsMade t

module _ (host : Host) (usable : IsUsable host) where
  -- An included file is read as if an INCLUDE in it failed.
  included-Ends :
      (mem : Mem) (list : Option Str) (src : List (Str × Str)) (d : Draft) (w : World)
      → AreReadable host src
      → src ≢ []
      → IsSound d
      → IsOpen w
      → Ends After (set_from_conf_kv_list host 0 mem included list src d w)
  included-Ends mem list src d w h g s o =
      let refuses : Merge = λ m a l e. fail in
      subst (λ (f : Draft → M (Option Draft)). Ends After (f d w))
        (set_from_conf_kv_list-depth host 0 refuses mem included list src usable.searches).0
        (set_entries-Ends host usable.copies_timers refuses (λ m a l e v t p. (p, tt)) mem included
          list src d w h g s o)

  merge_file-Ends : MergeEnds (merge_file host (λ mem. set_from_conf_kv_list host 0 mem included))
  unfolding merge_file
  merge_file-Ends mem src list d w s o =
      on_option-Ends After host.incl_dir fail _ w (o, tt)
        λ dir e.
          on_option-Ends After host.incl_suffix fail _ w (o, tt)
            λ suffix f.
              Ends-branch After (mem (0 ∷ [])) _ fail w
                (λ _.
                  on_option-Ends After (host.parse_conf (dir ++ (b'/' ∷ (src ++ suffix)))) fail _ w
                    (o, tt)
                    (λ entries g.
                      included-Ends (part mem 1) list entries d w
                        (usable.readable_files _ entries g).0 (usable.readable_files _ entries g).1
                        s o))
                (λ _. (o, tt))

  set_standard-Ends :
      (mem : Mem) (src : List (Str × Str)) (d : Draft) (w : World)
      → AreReadable host src
      → src ≢ []
      → IsSound d
      → IsOpen w
      → Ends After (set_from_conf_kv_list host 1 mem standard none src d w)
  unfolding set_from_conf_kv_list
  set_standard-Ends mem src d w h g s o =
      set_entries-Ends host usable.copies_timers
        (merge_file host (λ mem. set_from_conf_kv_list host 0 mem included)) merge_file-Ends mem
        standard none src d w h g s o

  finish_task-Ends :
      (d : Draft) (w : World) → IsSound d → IsOpen w → Ends MadeResult (finish_task d w)
  unfolding finish_task
  finish_task-Ends d w s o = on_option-Ends MadeResult d.name (return none) _ w o (λ n e.
      Ends-branch MadeResult (is_empty d.task.cmds && is_empty d.task.deps) (return none) _ w
        (λ _. o) (λ work. (o, record { has_work = work; waits_for_trigger = refl; sound = s })))

-- `crinitTaskCreateFromConfKvList` returns in every state with an open pool of timers, whatever the keys are
-- and whichever allocations fail but those of the names of timers, as long as there are entries, the values
-- are ASCII, and no dependency starts with a colon or has a blank behind it: it refuses the entries, or
-- makes a task that has a command or a dependency, is triggered exactly if it has no trigger, is loaded
-- with no process, and has a well-formed set of variables and sound redirections.
pub create_from_conf_kv_list-Ends :
    (host : Host) (mem : Mem) (src : List (Str × Str)) (w : World)
    → IsUsable host
    → AreReadable host src
    → src ≢ []
    → IsOpen w
    → Ends MadeResult (create_from_conf_kv_list host mem src w)
unfolding create_from_conf_kv_list
create_from_conf_kv_list-Ends host mem src w usable h given o =
    Ends-branch MadeResult (mem (0 ∷ [])) _ (return none) w
      (λ _. on_option-Ends MadeResult host.glob_env (return none) _ w o (λ env e.
        on_option-Ends MadeResult host.glob_filters (return none) _ w o (λ filters f.
          Ends-bind After MadeResult
            (set_from_conf_kv_list host 1 (part mem 1) standard none src (blank env filters)) _ w
            (set_standard-Ends host usable (part mem 1) src (blank env filters) w h given
              (record {
                env_formed = usable.global_env env e;
                redirs_ok = tt;
                not_started = refl;
                no_process = refl;
              })
              o)
            (λ made v p.
              on_option-Ends MadeResult made (return none) _ v p.0
                (λ d g. finish_task-Ends host usable d v (subst SoundResult g p.1) p.0)))))
      (λ _. o)
